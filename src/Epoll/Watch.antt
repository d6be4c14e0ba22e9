-- ===== src/Epoll/Watch.antt =====
-- The handlers and `fd_status` name the same descriptors.
use server_coursework.Base.{
  ◌≡◌, refl, ◌∙◌, true, none, some, Bool-cases, [], ◌∷◌, ◌++◌, inl, inr, arith, if◌then◌else◌,
  Bytes, ℤ,
}
use server_coursework.OrdMap.{lookup, insert, has_key, same}
use server_coursework.OrdMap.Laws.{
  IsSorted, same_iff, same_refl, lookup-insert, lookup-erase, insert-IsSorted, erase-IsSorted,
  erase-insert,
}
use server_coursework.OrdMap.Keys.{int_Less}
use server_coursework.Epoll.Listed.{
  count, is_listed-count, count-is_listed, count-append, count-erase_first, erase_first-append,
}
use server_coursework.Epoll.{Ctl, Epoll, is_listed, erase_first, add_socket, remove_socket}

-- One entry of `fd_status` for each handler, and none beside them.
pub record IsConsistent {K H : Type 0} (e : Epoll K H) : Type 0 where
  pub sorted : IsSorted e.handlers
  pub listed : (fd : ℤ) → count fd e.fd_status ≡ (if has_key fd e.handlers then 1 else 0)

module _ {K H : Type 0} ⦃ctl : Ctl K⦄ (e : Epoll K H) (c : IsConsistent e) where
  listed_iff : (fd : ℤ) → is_listed fd e.fd_status ≡ has_key fd e.handlers
  listed_iff fd =
      ground (arith, c.listed fd, is_listed-count fd e.fd_status, count-is_listed fd e.fd_status)

  -- A socket that has no handler yet can be added to a consistent wrapper: there is again one entry of
  -- `fd_status` for each handler, and none beside them.
  pub add_socket-IsConsistent :
      (fd : ℤ) (handler : H) (tag : Bytes)
      → lookup fd e.handlers ≡ none
      → IsConsistent (add_socket e fd handler tag)
  unfolding add_socket
  add_socket-IsConsistent fd handler tag h = record {
    sorted = insert-IsSorted fd handler e.handlers c.sorted;
    listed = λ j. ground (
      arith,
      count-append j e.fd_status ((fd, tag) ∷ []),
      c.listed j,
      lookup-insert j fd handler e.handlers c.sorted,
      same_iff fd j,
      h,
    );
  }

  -- Removing a descriptor, whether it is watched or not, leaves a consistent wrapper consistent.
  pub remove_socket-IsConsistent : (fd : ℤ) → IsConsistent (remove_socket e fd)
  unfolding remove_socket
  remove_socket-IsConsistent fd = elim (Bool-cases (is_listed fd e.fd_status)) [
    | inl here ↦ rw here (record {
      sorted = erase-IsSorted fd e.handlers c.sorted;
      listed = λ j. ground (
        arith,
        count-erase_first fd j e.fd_status,
        c.listed j,
        lookup-erase j fd e.handlers,
        same_iff fd j,
      );
    })
    | inr away ↦ rw away c
  ]

  -- Where the wrapper is consistent, with one entry of `fd_status` for each handler and none beside
  -- them, `remove_socket` takes the handler of its descriptor away and leaves all others, and it leaves
  -- a wrapper without a handler for the descriptor as it is.
  pub lookup-remove_socket :
      (fd : ℤ)
      → ((j : ℤ)
          → lookup j (remove_socket e fd).handlers
            ≡ (if same fd j then none else lookup j e.handlers))
        × (lookup fd e.handlers ≡ none → remove_socket e fd ≡ e)
  unfolding remove_socket
  lookup-remove_socket fd = (
    λ j. ground (arith, listed_iff fd, lookup-erase j fd e.handlers, same_iff fd j),
    λ h. ground (arith, listed_iff fd, h),
  )

  listed_last : (fd : ℤ) (tag : Bytes) → is_listed fd (e.fd_status ++ ((fd, tag) ∷ [])) ≡ true
  listed_last fd tag = ground (
    arith,
    is_listed-count fd (e.fd_status ++ ((fd, tag) ∷ [])),
    count-append fd e.fd_status ((fd, tag) ∷ []),
    same_refl fd,
  )

  -- Where the wrapper is consistent, with one entry of `fd_status` for each handler and none beside
  -- them, adding a socket that has no handler and removing it again leaves the handlers and `fd_status`
  -- as they were; the interest list has had the two calls.
  pub remove_socket-add_socket :
      (fd : ℤ) (handler : H) (tag : Bytes)
      → lookup fd e.handlers ≡ none
      → remove_socket (add_socket e fd handler tag) fd
        ≡ record e { interest = ctl.ctl_del fd (ctl.ctl_add fd e.interest) }
  unfolding remove_socket add_socket
  remove_socket-add_socket fd handler tag h = rw (listed_last fd tag) (
      rw (erase-insert fd handler e.handlers h)
        (rw (erase_first-append fd tag e.fd_status none_listed) refl))
    where
      none_listed : count fd e.fd_status ≡ 0
      none_listed = ground (arith, c.listed fd, h)

  -- A socket that is added to a consistent wrapper while its descriptor has a handler is served by the
  -- old handler. The first removal takes that one away, and `fd_status` still shows the descriptor.
  pub add_socket_twice :
      (fd : ℤ) (old handler : H) (tag : Bytes)
      → lookup fd e.handlers ≡ some old
      → (lookup fd (add_socket e fd handler tag).handlers ≡ some old)
        × (lookup fd (remove_socket (add_socket e fd handler tag) fd).handlers ≡ none)
        × (is_listed fd (remove_socket (add_socket e fd handler tag) fd).fd_status ≡ true)
  unfolding remove_socket add_socket
  add_socket_twice fd old handler tag h = (
    ground (arith, lookup-insert fd fd handler e.handlers c.sorted, same_refl fd, h),
    rw here (lookup-erase fd fd (insert fd handler e.handlers) ∙ ground (arith, same_refl fd)),
    rw here (
        ground (
          arith,
          is_listed-count fd (erase_first fd (e.fd_status ++ ((fd, tag) ∷ []))),
          count-erase_first fd fd (e.fd_status ++ ((fd, tag) ∷ [])),
          count-append fd e.fd_status ((fd, tag) ∷ []),
          same_refl fd,
          c.listed fd,
          h,
        )),
  )
    where
      here : is_listed fd (e.fd_status ++ ((fd, tag) ∷ [])) ≡ true
      here = listed_last fd tag
