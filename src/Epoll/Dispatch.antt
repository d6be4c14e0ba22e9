-- ===== src/Epoll/Dispatch.antt =====
-- Batches of events.
use server_coursework.Base.{
  Secures-bind, Secures, ◌≡◌, refl, ap, ◌∙◌, true, none, some, Option-cases, List, [], ◌∷◌, ◌++◌,
  inl, inr, arith, ℤ, returns, returns-bind, All,
}
use server_coursework.OrdMap.{lookup}
use server_coursework.OrdMap.Laws.{same_refl}
use server_coursework.OrdMap.Keys.{int_Less}
use server_coursework.Epoll.Watch.{IsConsistent, lookup-remove_socket}
use server_coursework.Epoll.{
  Ctl, Epoll, Event, World, has_flag, remove_socket, closed_event, income_event, process_event,
  process_events, epollrdhup,
}

module _ {K H W : Type 0} ⦃ctl : Ctl K⦄ (world : World K H W) where
  -- No handler, no effect.
  pub closed_event-none :
      (w : W) (fd : ℤ)
      → lookup fd (world.epoll w).handlers ≡ none
      → closed_event world w fd ≡ returns w
  unfolding closed_event
  closed_event-none w fd h = rw (h, closed_event) refl

  pub income_event-none :
      (w : W) (fd : ℤ)
      → lookup fd (world.epoll w).handlers ≡ none
      → income_event world w fd ≡ returns w
  unfolding income_event
  income_event-none w fd h = rw (h, income_event) refl

  process_event-none :
      (w : W) (event : Event)
      → lookup event.fd (world.epoll w).handlers ≡ none
      → process_event world w event ≡ returns w
  unfolding process_event
  process_event-none w event h =
      ground (arith, closed_event-none w event.fd h, income_event-none w event.fd h)

  process_events-none :
      (w : W) (events rest : List Event)
      → All (λ event. lookup event.fd (world.epoll w).handlers ≡ none) events
      → process_events world w (events ++ rest) ≡ process_events world w rest
  unfolding process_events
  process_events-none w [] rest h = refl
  process_events-none w (event ∷ events) rest (h, hs) =
      returns-bind _ (process_event-none w event h) (process_events-none w events rest hs)

  closed_event-some :
      (w left : W) (fd : ℤ) (curr : H)
      → lookup fd (world.epoll w).handlers ≡ some curr
      → world.on_disconnect curr fd w ≡ returns left
      → closed_event world w fd
        ≡ returns (world.with_epoll left (remove_socket (world.epoll left) fd))
  unfolding closed_event
  closed_event-some w left fd curr h e = rw (h, closed_event) (returns-bind _ e refl)

  -- When the peer of a socket closes it, its handler is told and the socket is removed, and the events
  -- directly behind this one in the batch that name its descriptor have no effect, whatever their flags,
  -- if the handler returned and left the wrapper consistent.
  pub process_events_closed :
      (w left : W) (event : Event) (curr : H) (stale rest : List Event)
      → has_flag epollrdhup event.events ≡ true
      → lookup event.fd (world.epoll w).handlers ≡ some curr
      → world.on_disconnect curr event.fd w ≡ returns left
      → IsConsistent (world.epoll left)
      → ((e : Epoll K H) → world.epoll (world.with_epoll left e) ≡ e)
      → All (λ later. later.fd ≡ event.fd) stale
      → process_events world w (event ∷ (stale ++ rest))
        ≡ process_events world
            (world.with_epoll left (remove_socket (world.epoll left) event.fd))
            rest
  unfolding process_events process_event
  process_events_closed w left event curr stale rest flag found told c stored same_fd =
      returns-bind _ closed (process_events-none after stale rest (all_gone stale same_fd))
    where
      after : W
      after = world.with_epoll left (remove_socket (world.epoll left) event.fd)

      closed : process_event world w event ≡ returns after
      closed = rw flag (closed_event-some w left event.fd curr found told)

      gone : lookup event.fd (world.epoll after).handlers ≡ none
      gone =
          ap (λ e. lookup event.fd e.handlers) (stored (remove_socket (world.epoll left) event.fd))
          ∙ (lookup-remove_socket (world.epoll left) c event.fd).0 event.fd
          ∙ ground (arith, same_refl event.fd)

      all_gone :
          (stale : List Event)
          → All (λ later. later.fd ≡ event.fd) stale
          → All (λ later. lookup later.fd (world.epoll after).handlers ≡ none) stale
      all_gone [] h = tt
      all_gone (later ∷ stale) (h, hs) =
          (ap (λ fd. lookup fd (world.epoll after).handlers) h ∙ gone, all_gone stale hs)

  -- What every callback leaves true stays true over a batch, and no callback of it uses an object that
  -- is gone if none does by itself.
  module _ (P : W → Type 0)
      (income : (w : W) (fd : ℤ) (curr : H)
        → lookup fd (world.epoll w).handlers ≡ some curr
        → P w
        → Secures P (world.on_data_income curr fd w))
      (disconnect : (w : W) (fd : ℤ) (curr : H)
        → lookup fd (world.epoll w).handlers ≡ some curr
        → P w
        → Secures
            (λ v. P (world.with_epoll v (remove_socket (world.epoll v) fd)))
            (world.on_disconnect curr fd w)) where
    closed_event-Secures : (w : W) (fd : ℤ) → P w → Secures P (closed_event world w fd)
    unfolding closed_event
    closed_event-Secures w fd h = elim (Option-cases (lookup fd (world.epoll w).handlers)) [
      | inl away ↦ rw (closed_event-none w fd away) h
      | inr (curr, found) ↦
          rw (found, closed_event)
            (Secures-bind _ P (world.on_disconnect curr fd w) _ (disconnect w fd curr found h)
              λ v k. k)
    ]

    income_event-Secures : (w : W) (fd : ℤ) → P w → Secures P (income_event world w fd)
    unfolding income_event
    income_event-Secures w fd h = elim (Option-cases (lookup fd (world.epoll w).handlers)) [
      | inl away ↦ rw (income_event-none w fd away) h
      | inr (curr, found) ↦ rw (found, income_event) (income w fd curr found h)
    ]

    process_event-Secures : (w : W) (event : Event) → P w → Secures P (process_event world w event)
    unfolding process_event
    process_event-Secures w event h =
        ground (arith, h, closed_event-Secures w event.fd h, income_event-Secures w event.fd h)

    pub process_events-Secures :
        (w : W) (events : List Event) → P w → Secures P (process_events world w events)
    unfolding process_events
    process_events-Secures w [] h = h
    process_events-Secures w (event ∷ events) h =
        Secures-bind P P (process_event world w event) _ (process_event-Secures w event h)
          λ v k. process_events-Secures v events k
