-- ===== src/Program/Sessions/Refinement.antt =====
-- The program keeps to the steps of the sessions.
use server_coursework.Base.{
  ℕ, ℤ, ◌≡◌, refl, ◌∙◌, subst, true, some, Option-cases, inl, inr, arith, List, Secures,
}
use server_coursework.Actions.{Ends-Moves}
use server_coursework.OrdMap.{lookup, has_key}
use server_coursework.OrdMap.Laws.{lookup-erase}
use server_coursework.OrdMap.Keys.{int_Less, nat_Less}
use server_coursework.Socket.{Os}
use server_coursework.Socket.Opening.{Opens}
use server_coursework.Epoll.{Ctl, Event, process_events}
use server_coursework.Epoll.Courses.{Course, is_closing, is_income, process_events-Course}
use server_coursework.Program.{Program, Link, Handler, listener, client, bridge, Unset, fd_of}
use server_coursework.Program.TcpServer.{unwatch, client_disconnect}
use server_coursework.Program.HttpConnection.{bridge_disconnect}
use server_coursework.Program.HttpServer.{disconnected, erase_request}
use server_coursework.Program.Proxy.{
  handle_income, handle_disconnect, world, on_disconnect, disconnection_handler,
}
use server_coursework.Program.Safety.{IsSafe, bridge_fd}
use server_coursework.Program.Safety.Drop.{unbridged, unclient}
use server_coursework.Program.Safety.Hangup.{bridge_disconnect-lem, closed_bridge}
use server_coursework.Program.Safety.Leave.{
  on_disconnect-single, on_disconnect-bridged, client_disconnect-unclient,
}
use server_coursework.Program.Safety.Events.{
  settle-Secures, client_here, handle_income-Ends, handle_disconnect-Ends,
}
use server_coursework.Program.Sessions.{idles, View, view, Step}
use server_coursework.Program.Sessions.Frames.{Framed}
use server_coursework.Program.Sessions.Income.{client_income-Framed, bridge_income-Frames}
use server_coursework.Program.Sessions.Entry.{accept_client-Entered}
use server_coursework.Program.Sessions.Views.{
  Gone, erased-Gone, client-belongs, bridge-belongs, listens-IsStranger, Framed-Step, Framed-idle,
  Entered-Step, Gone-Step,
}

module _ {K S A : Type 0} ⦃ctl : Ctl K⦄ (os : Os S A) (unset : Unset) (o : Opens os) where
  -- A safe state that the sessions have come to from `v` over the events.
  abbrev pub IsCourse : List Event → View → Program K S → Type 0
  IsCourse events v q = IsSafe o q × Course Step events v (view q)

  client_income-Framed_at :
      (p : Program K S) (f : ℤ)
      → IsSafe o p
      → lookup f p.epoll.handlers ≡ some client
      → Framed (some f) p (handle_income os unset client f p).1
  unfolding handle_income
  client_income-Framed_at p f h mine =
      let k = client_here os unset o p f h mine in
      subst
        (λ d.
          lookup d p.clients ≡ some k.0 → Framed (some d) p (handle_income os unset client d p).1)
        k.2 (client_income-Framed os unset p k.0) k.1

  income-Step :
      (p : Program K S) (event : Event) (handler : Handler)
      → is_income event ≡ true
      → lookup event.fd p.epoll.handlers ≡ some handler
      → IsSafe o p
      → Step event (view p) (view (handle_income os unset handler event.fd p).1)
  unfolding handle_income
  income-Step p event listener income mine h =
      Entered-Step o p (handle_income os unset listener event.fd p).1 h event
        (os.accept event.fd p.os).0 income
        (listens-IsStranger o p h event.fd (ground (arith, mine)))
        (accept_client-Entered os unset event.fd p)
  income-Step p event client income mine h =
      Framed-Step o p (handle_income os unset client event.fd p).1 h event income
        (h.client_handlers event.fd mine) (client_income-Framed_at p event.fd h mine)
  income-Step p event (bridge c address) income mine h =
      Framed-idle o p (handle_income os unset (bridge c address) event.fd p).1 h event income
        (bridge_income-Frames os unset c address p)

  client-Gone :
      (p : Program K S) (k : Link)
      → lookup (fd_of k) p.clients ≡ some k
      → Gone p
          (client_disconnect os unset (disconnected (on_disconnect os)) (fd_of k) p).1
          (fd_of k)
  unfolding erase_request
  client-Gone p k found = elim (Option-cases (lookup (fd_of k) p.con_map)) [
    | inl away ↦
        rw
          (client_disconnect-unclient os unset o p p k found
            (on_disconnect-single os unset o p k found away) found)
          (erased-Gone p (unclient o (fd_of k) (erase_request (fd_of k) p)) (fd_of k) refl
            (λ j other. refl))
    | inr ((host, b), bridged) ↦
        rw
          (client_disconnect-unclient os unset o p (unbridged o (fd_of k) b p) k found
            (on_disconnect-bridged os unset o p k found bridged) found)
          (erased-Gone p
            (unclient o (fd_of k) (erase_request (fd_of k) (unbridged o (fd_of k) b p))) (fd_of k)
            refl (λ j other. lookup-erase j (fd_of k) p.con_map ∙ ground (arith, other)))
  ]

  bridge-Gone :
      (p : Program K S) (f c : ℤ) (address : ℕ)
      → IsSafe o p
      → lookup f p.epoll.handlers ≡ some (bridge c address)
      → Gone p (bridge_disconnect (disconnection_handler os unset c) c address p).1 c
  bridge-Gone p f c address h mine = elim (Option-cases (lookup c p.clients)) [
    | inl away ↦ ground (arith, owned, away)
    | inr (con, found) ↦ elim (Option-cases (lookup c p.con_map)) [
      | inl away ↦ ground (arith, owned, away)
      | inr ((host, k), bridged) ↦
          rw
            (bridge_disconnect-lem os unset o p c address con found (h.client_keys c con found).0
              bridged)
            (erased-Gone p (closed_bridge os unset o c address k p) c refl
              (λ j other. lookup-erase j c p.con_map ∙ ground (arith, other)))
    ]
  ]
    where
      owned :
          (bridge_fd (lookup c p.con_map) ≡ some f)
          × (has_key c p.clients ≡ true)
          × (has_key address p.responses ≡ true)
      owned = h.bridge_handlers f c address mine

  client-Gone_at :
      (p : Program K S) (f : ℤ)
      → IsSafe o p
      → lookup f p.epoll.handlers ≡ some client
      → Gone p (handle_disconnect os unset client f p).1 f
  unfolding handle_disconnect
  client-Gone_at p f h mine =
      let k = client_here os unset o p f h mine in
      subst
        (λ d. lookup d p.clients ≡ some k.0 → Gone p (handle_disconnect os unset client d p).1 d)
        k.2 (client-Gone p k.0) k.1

  disconnect-Step :
      (p : Program K S) (event : Event) (handler : Handler)
      → is_closing event ≡ true
      → lookup event.fd p.epoll.handlers ≡ some handler
      → IsSafe o p
      → Step event (view p) (view (handle_disconnect os unset handler event.fd p).1)
  unfolding handle_disconnect
  disconnect-Step p event listener closing mine h =
      idles (λ _. listens-IsStranger o p h event.fd (ground (arith, mine)))
  disconnect-Step p event client closing mine h =
      Gone-Step o p (handle_disconnect os unset client event.fd p).1 h event event.fd closing
        (client-belongs o p h event.fd (h.client_handlers event.fd mine))
        (client-Gone_at p event.fd h mine)
  disconnect-Step p event (bridge c address) closing mine h =
      Gone-Step o p (handle_disconnect os unset (bridge c address) event.fd p).1 h event c closing
        (bridge-belongs o p h c event.fd address mine) (bridge-Gone p event.fd c address h mine)

  -- A batch of events on a safe state uses no object that is gone, and if it returns, the state is safe
  -- and the sessions have made one step for each event, in their order: when the descriptor of a client
  -- or of its bridge is closed, this client leaves, and no other session changes; when bytes come in
  -- from a client, only its own bridge may change, and it stays; a client joins only where a descriptor
  -- that belongs to no client has income; and at all other events nothing changes.
  pub process_events-IsCourse :
      (p : Program K S) (events : List Event)
      → IsSafe o p
      → Secures (IsCourse events (view p)) (process_events (world os unset) p events)
  unfolding world unwatch
  process_events-IsCourse p events h =
      process_events-Course (world os unset) (IsSafe o) view Step
        (λ q event handler income mine safe.
          settle-Secures _ (λ u. Unit) (handle_income os unset handler event.fd q)
            (Ends-Moves (λ _. IsSafe o) (λ u. Unit) (λ u. Step event (view q) (view u))
              (handle_income os unset handler event.fd q)
              (handle_income-Ends os unset o q event.fd handler mine safe)
              (income-Step q event handler income mine safe)))
        (λ q event handler closing mine safe.
          settle-Secures _ (λ u. Unit) (handle_disconnect os unset handler event.fd q)
            (Ends-Moves (λ _ u. IsSafe o (unwatch event.fd u)) (λ u. Unit)
              (λ u. Step event (view q) (view u)) (handle_disconnect os unset handler event.fd q)
              (handle_disconnect-Ends os unset o q event.fd handler mine safe)
              (disconnect-Step q event handler closing mine safe)))
        (λ q event quiet safe.
          idles (λ closing. listens-IsStranger o q safe event.fd (ground (arith, quiet closing))))
        p events h
