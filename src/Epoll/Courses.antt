-- ===== src/Epoll/Courses.antt =====
-- What batches of events do to what one sees of the program.
use server_coursework.Base.{
  Bool, ◌≡◌, true, not, ◌&&◌, ◌||◌, none, some, Option-cases, Bool-cases, List, [], ◌∷◌, ◌++◌, inl,
  inr, arith, Secures, Secures-bind, Secures-map,
}
use server_coursework.OrdMap.{lookup}
use server_coursework.OrdMap.Keys.{int_Less}
use server_coursework.Epoll.Dispatch.{closed_event-none, income_event-none}
use server_coursework.Epoll.{
  Ctl, Event, World, has_flag, remove_socket, closed_event, income_event, process_event,
  process_events, epollrdhup, epollhup, epollerr, epollin,
}

-- One step of `R` for each event of a batch, one after the other.
pub data Course {V : Type 0} (R : Event → V → V → Type 0) : List Event → V → V → Type 0 where
  done : {v : V} → Course R [] v v
  next :
      {event : Event} {events : List Event} {v u w : V}
      → R event v u
      → Course R events u w
      → Course R (event ∷ events) v w

pub Course-append :
    {V : Type 0} {R : Event → V → V → Type 0} {events later : List Event} {v u w : V}
    → Course R events v u
    → Course R later u w
    → Course R (events ++ later) v w
Course-append done rest = rest
Course-append (next step steps) rest = next step (Course-append steps rest)

-- The peer has closed its side.
abbrev pub is_closing : Event → Bool
is_closing event = has_flag epollrdhup event.events

-- There are bytes to read, and nothing has failed.
abbrev pub is_income : Event → Bool
is_income event =
    has_flag epollin event.events
    && not (
        has_flag epollrdhup event.events
        || has_flag epollhup event.events
        || has_flag epollerr event.events)

module _ {K H W : Type 0} ⦃ctl : Ctl K⦄ (world : World K H W) where
  -- If each callback moves what one sees of the program as `R` says of its event, and an event without a
  -- callback is one of which `R` allows that nothing changes, then a batch goes a course of `R`.
  module _ {V : Type 0} (P : W → Type 0) (seen : W → V) (R : Event → V → V → Type 0)
      (income : (w : W) (event : Event) (curr : H)
        → is_income event ≡ true
        → lookup event.fd (world.epoll w).handlers ≡ some curr
        → P w
        → Secures (λ v. P v × R event (seen w) (seen v)) (world.on_data_income curr event.fd w))
      (disconnect : (w : W) (event : Event) (curr : H)
        → is_closing event ≡ true
        → lookup event.fd (world.epoll w).handlers ≡ some curr
        → P w
        → Secures
            (λ v.
              P (world.with_epoll v (remove_socket (world.epoll v) event.fd))
              × R event
                  (seen w)
                  (seen (world.with_epoll v (remove_socket (world.epoll v) event.fd))))
            (world.on_disconnect curr event.fd w))
      (idle : (w : W) (event : Event)
        → (is_closing event ≡ true → lookup event.fd (world.epoll w).handlers ≡ none)
        → P w
        → R event (seen w) (seen w)) where
    abbrev Moved : Event → W → W → Type 0
    Moved event w v = P v × R event (seen w) (seen v)

    closed_event-Moved :
        (w : W) (event : Event)
        → is_closing event ≡ true
        → P w
        → Secures (Moved event w) (closed_event world w event.fd)
    unfolding closed_event
    closed_event-Moved w event flag h =
        elim (Option-cases (lookup event.fd (world.epoll w).handlers)) [
          | inl away ↦ rw (closed_event-none world w event.fd away) (h, idle w event (λ _. away) h)
          | inr (curr, found) ↦
              rw (found, closed_event)
                (Secures-bind _ (Moved event w) (world.on_disconnect curr event.fd w) _
                  (disconnect w event curr flag found h) λ v k. k)
        ]

    income_event-Moved :
        (w : W) (event : Event)
        → is_income event ≡ true
        → P w
        → Secures (Moved event w) (income_event world w event.fd)
    unfolding income_event
    income_event-Moved w event flag h =
        elim (Option-cases (lookup event.fd (world.epoll w).handlers)) [
          | inl away ↦ rw (income_event-none world w event.fd away) (h, idle w event (λ _. away) h)
          | inr (curr, found) ↦ rw (found, income_event) (income w event curr flag found h)
        ]

    process_event-Moved :
        (w : W) (event : Event) → P w → Secures (Moved event w) (process_event world w event)
    unfolding process_event
    process_event-Moved w event h = elim (Bool-cases (is_closing event)) [
      | inl closing ↦ rw closing (closed_event-Moved w event closing h)
      | inr other ↦ elim (Bool-cases (is_income event)) [
        | inl in_it ↦ ground (arith, other, in_it, income_event-Moved w event in_it h)
        | inr nothing ↦
            let still = idle w event (λ closing. absurd (ground (arith, other, closing))) h in
            ground (arith, other, nothing, h, still)
      ]
    ]

    pub process_events-Course :
        (w : W) (events : List Event)
        → P w
        → Secures (λ v. P v × Course R events (seen w) (seen v)) (process_events world w events)
    unfolding process_events
    process_events-Course w [] h = (h, done)
    process_events-Course w (event ∷ events) h =
        Secures-bind (Moved event w) _ (process_event world w event) _
          (process_event-Moved w event h)
          λ v k.
            Secures-map _ _ (process_events world v events) (process_events-Course v events k.0)
              λ u l. (l.0, next k.1 l.1)
