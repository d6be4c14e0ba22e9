-- ===== src/Epoll.antt =====
-- `epoll_wrapper` of tcp.h and epoll_wrapper.cpp: the sockets that are watched, and the dispatch of
-- their events.
pub mod Listed
pub mod Watch
pub mod Dispatch
pub mod Courses
mod Tests
use server_coursework.Base.{
  ℕ, ◌+◌, ◌/◌, ◌%◌, ◌^◌, Bool, true, false, not, ◌&&◌, ◌||◌, Option, none, some, List, [], ◌∷◌,
  ◌++◌, if◌then◌else◌, ◌==◌, Bytes, codes, ℤ, pos, negsuc, Outcome, returns, ◌>>=◌,
}
use server_coursework.Text.Number.{to_string}
use server_coursework.OrdMap.{OrdMap, lookup, insert, erase, same}
use server_coursework.OrdMap.Keys.{int_Less}

-- The bits of `epoll_event::events` that the dispatch looks at, by their place.
abbrev epollin : ℕ
epollin = 0

abbrev epollerr : ℕ
epollerr = 3

abbrev epollhup : ℕ
epollhup = 4

abbrev epollrdhup : ℕ
epollrdhup = 13

-- `flags & (1 << bit)`
abbrev pub has_flag : ℕ → ℕ → Bool
has_flag bit flags = (flags / 2 ^ bit) % 2 == 1

pub record Event : Type 0 where
  pub fd : ℤ
  pub events : ℕ

-- `epoll_ctl` on the instance `efd`, whose interest list is a `K`. The wrapper goes on whether the
-- call succeeds or not, and does not keep its result.
pub record Ctl (K : Type 0) : Type 0 where
  pub ctl_add : ℤ → K → K
  pub ctl_del : ℤ → K → K

-- `H` is the type of a handler, a pair of callbacks.
pub record Epoll (K H : Type 0) : Type 0 where
  pub handlers : OrdMap ℤ H
  pub fd_status : List (ℤ × Bytes)
  pub interest : K

-- The text that `dump_status` logs.
unfoldable pub status : List (ℤ × Bytes) → Bytes
unfolding to_string
status [] = []
status ((fd, tag) ∷ rest) = (codes "\n    " ++ (to_string fd ++ (codes ": " ++ tag))) ++ status rest

-- The outer loop of `remove_socket`: whether it comes upon `fd`.
unfoldable pub is_listed : ℤ → List (ℤ × Bytes) → Bool
is_listed fd [] = false
is_listed fd ((first, tag) ∷ rest) = if same first fd then true else is_listed fd rest

-- The inner loop: the first entry of `fd` is erased.
unfoldable pub erase_first : ℤ → List (ℤ × Bytes) → List (ℤ × Bytes)
erase_first fd [] = []
erase_first fd ((first, tag) ∷ rest) =
    if same first fd then rest else (first, tag) ∷ erase_first fd rest

module _ {K H : Type 0} ⦃ctl : Ctl K⦄ where
  -- `fd` is the descriptor of the socket.
  unfoldable pub add_socket : Epoll K H → ℤ → H → Bytes → Epoll K H
  add_socket e fd handler tag = record {
    handlers = insert fd handler e.handlers;
    fd_status = e.fd_status ++ ((fd, tag) ∷ []);
    interest = ctl.ctl_add fd e.interest;
  }

  abbrev pub add_socket_untagged : Epoll K H → ℤ → H → Epoll K H
  add_socket_untagged e fd handler = add_socket e fd handler (codes "no tag")

  unfoldable pub remove_socket : Epoll K H → ℤ → Epoll K H
  unfolding is_listed erase_first
  remove_socket e fd =
      if is_listed fd e.fd_status
      then record {
        handlers = erase fd e.handlers;
        fd_status = erase_first fd e.fd_status;
        interest = ctl.ctl_del fd e.interest;
      }
      else e

-- The program around the wrapper: a state that holds it, and what the callbacks of a handler do.
pub record World (K H W : Type 0) : Type 0 where
  pub epoll : W → Epoll K H
  pub with_epoll : W → Epoll K H → W
  pub on_data_income : H → ℤ → W → Outcome W
  pub on_disconnect : H → ℤ → W → Outcome W

module _ {K H W : Type 0} ⦃ctl : Ctl K⦄ (world : World K H W) where
  -- The peer has closed its side.
  unfoldable pub closed_event : W → ℤ → Outcome W
  unfolding remove_socket
  closed_event w fd = elim (lookup fd (world.epoll w).handlers) [
    | none ↦ returns w
    | some curr ↦ world.on_disconnect curr fd w >>= λ left.
        returns (world.with_epoll left (remove_socket (world.epoll left) fd))
  ]

  unfoldable pub income_event : W → ℤ → Outcome W
  income_event w fd = elim (lookup fd (world.epoll w).handlers) [
    | none ↦ returns w
    | some curr ↦ world.on_data_income curr fd w
  ]

  unfoldable pub process_event : W → Event → Outcome W
  unfolding closed_event income_event
  process_event w event =
      if has_flag epollrdhup event.events
      then closed_event w event.fd
      else if has_flag epollhup event.events
      then returns w
      else if has_flag epollerr event.events || not (has_flag epollin event.events)
      then returns w
      else income_event w event.fd

  -- The loop over what `epoll_wait` has written.
  unfoldable pub process_events : W → List Event → Outcome W
  unfolding process_event
  process_events w [] = returns w
  process_events w (event ∷ events) = process_event w event >>= λ v. process_events v events
