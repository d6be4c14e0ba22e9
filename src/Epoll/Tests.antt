-- ===== src/Epoll/Tests.antt =====
-- Runs of the wrapper, and the theorems about it at concrete sockets.
use server_coursework.Base.{
  ℕ, ◌≡◌, refl, true, none, some, List, [], ◌∷◌, ◌++◌, arith, Bytes, codes, ℤ, pos, if◌then◌else◌,
  returns,
}
use server_coursework.OrdMap.{lookup, insert, same}
use server_coursework.OrdMap.Laws.{same_iff}
use server_coursework.OrdMap.Keys.{int_Less}
use server_coursework.Epoll.Watch.{
  IsConsistent, add_socket-IsConsistent, remove_socket-IsConsistent, lookup-remove_socket,
  remove_socket-add_socket, add_socket_twice,
}
use server_coursework.Epoll.Dispatch.{process_events_closed}
use server_coursework.Epoll.{
  Ctl, Epoll, Event, World, status, is_listed, add_socket, add_socket_untagged, remove_socket,
  process_events,
}

-- The interest list as the calls that were made on it.
instance abbrev calls : Ctl (List (Bytes × ℤ))
calls = record { ctl_add = λ fd k. (codes "add", fd) ∷ k; ctl_del = λ fd k. (codes "del", fd) ∷ k }

abbrev Sockets : Type 0
Sockets = Epoll (List (Bytes × ℤ)) ℕ

-- A program that notes the callbacks it gets, and that removes a socket that was closed.
record Noted : Type 0 where
  watched : Sockets
  told : List (Bytes × ℤ)

abbrev noted : World (List (Bytes × ℤ)) ℕ Noted
noted = record {
  epoll = λ w. w.watched;
  with_epoll = λ w e. record w { watched = e };
  on_data_income = λ h fd w. returns (record w { told = (codes "income", fd) ∷ w.told });
  on_disconnect = λ h fd w.
      returns
        (record { watched = remove_socket w.watched fd; told = (codes "disconnect", fd) ∷ w.told });
}

abbrev empty : Sockets
empty = record { handlers = []; fd_status = []; interest = [] }

empty-IsConsistent : IsConsistent empty
unfolding lookup
empty-IsConsistent = record { sorted = tt; listed = λ fd. refl }

abbrev two : Sockets
two = record {
  handlers = (pos 3, 0) ∷ (pos 5, 1) ∷ [];
  fd_status = (pos 3, codes "server socket") ∷ (pos 5, codes "no tag") ∷ [];
  interest = [];
}

two-status : status two.fd_status ≡ codes "\n    3: server socket\n    5: no tag"
unfolding status
two-status = refl

two-add :
    (add_socket_untagged (add_socket empty (pos 3) 0 (codes "server socket")) (pos 5) 1).handlers
    ≡ two.handlers
unfolding add_socket insert
two-add = refl

two-IsConsistent : IsConsistent two
unfolding lookup
two-IsConsistent = record {
  sorted = ((refl, tt), (tt, tt));
  listed = λ fd. ground (arith, same_iff (pos 3) fd, same_iff (pos 5) fd);
}

two_none : lookup (pos 4) two.handlers ≡ none
unfolding lookup
two_none = refl

two_some : lookup (pos 5) two.handlers ≡ some 1
unfolding lookup
two_some = refl

add_socket-IsConsistent_example : IsConsistent (add_socket two (pos 4) 7 (codes "new"))
add_socket-IsConsistent_example =
    add_socket-IsConsistent two two-IsConsistent (pos 4) 7 (codes "new") two_none

remove_socket-IsConsistent_example : IsConsistent (remove_socket two (pos 3))
remove_socket-IsConsistent_example = remove_socket-IsConsistent two two-IsConsistent (pos 3)

lookup-remove_socket_example :
    ((j : ℤ)
      → lookup j (remove_socket two (pos 5)).handlers
        ≡ (if same (pos 5) j then none else lookup j two.handlers))
    × (lookup (pos 5) two.handlers ≡ none → remove_socket two (pos 5) ≡ two)
lookup-remove_socket_example = lookup-remove_socket two two-IsConsistent (pos 5)

remove_socket-add_socket_example :
    remove_socket (add_socket two (pos 4) 7 (codes "new")) (pos 4)
    ≡ record two { interest = (codes "del", pos 4) ∷ (codes "add", pos 4) ∷ [] }
remove_socket-add_socket_example =
    remove_socket-add_socket two two-IsConsistent (pos 4) 7 (codes "new") two_none

add_socket_twice_example :
    (lookup (pos 5) (add_socket two (pos 5) 7 (codes "new")).handlers ≡ some 1)
    × (lookup (pos 5) (remove_socket (add_socket two (pos 5) 7 (codes "new")) (pos 5)).handlers
        ≡ none)
    × (is_listed (pos 5) (remove_socket (add_socket two (pos 5) 7 (codes "new")) (pos 5)).fd_status
        ≡ true)
add_socket_twice_example = add_socket_twice two two-IsConsistent (pos 5) 1 7 (codes "new") two_some

abbrev start : Noted
start = record { watched = two; told = [] }

abbrev closed : Event
closed = record { fd = pos 5; events = 8193 }

abbrev readable : ℤ → Event
readable fd = record { fd = fd; events = 1 }

abbrev left : Noted
left = record { watched = remove_socket two (pos 5); told = (codes "disconnect", pos 5) ∷ [] }

process_events_closed_example :
    process_events noted start (closed ∷ (readable (pos 5) ∷ []) ++ (readable (pos 3) ∷ []))
    ≡ process_events noted
        (record left { watched = remove_socket (remove_socket two (pos 5)) (pos 5) })
        (readable (pos 3) ∷ [])
process_events_closed_example =
    process_events_closed noted start left closed 1 (readable (pos 5) ∷ []) (readable (pos 3) ∷ [])
      refl two_some refl (remove_socket-IsConsistent two two-IsConsistent (pos 5)) (λ e. refl)
      (refl, tt)
