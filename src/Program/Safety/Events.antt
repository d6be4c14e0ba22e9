-- ===== src/Program/Safety/Events.antt =====
-- The program over a batch of events.
use server_coursework.Base.{
  ℤ, ◌≡◌, subst, some, Option-cases, inl, inr, arith, List, Outcome, returns, throws, spins,
  dangles, Secures,
}
use server_coursework.Actions.{Ends, settle, Ends-map}
use server_coursework.OrdMap.{lookup}
use server_coursework.OrdMap.Keys.{int_Less}
use server_coursework.Socket.{Os}
use server_coursework.Socket.Opening.{Opens}
use server_coursework.Epoll.{Ctl, Event, process_events}
use server_coursework.Epoll.Dispatch.{process_events-Secures}
use server_coursework.Program.{Program, Link, Handler, listener, client, bridge, Unset, fd_of}
use server_coursework.Program.TcpServer.{unwatch}
use server_coursework.Program.Proxy.{handle_income, handle_disconnect, world}
use server_coursework.Program.Safety.{IsSafe}
use server_coursework.Program.Safety.Drop.{unwatch-IsLeft, IsLeft, unwatched-IsSafe}
use server_coursework.Program.Safety.Bridges.{bridge_income-Ends}
use server_coursework.Program.Safety.Hangup.{bridge_disconnect-Ends}
use server_coursework.Program.Safety.Leave.{client_disconnect-Ends}
use server_coursework.Program.Safety.Clients.{client_income-Ends}
use server_coursework.Program.Safety.Accept.{accept_client-Ends}

pub settle-Secures :
    {P : Type 0} (Q : P → Type 0) (X : P → Type 0) (r : Outcome {0} Unit × P)
    → Ends (λ _. Q) X r
    → Secures Q (settle r)
settle-Secures Q X (returns _, p) h = h
settle-Secures Q X (throws e, p) h = tt
settle-Secures Q X (spins, p) h = tt
settle-Secures Q X (dangles, p) h = h

module _ {K S A : Type 0} ⦃ctl : Ctl K⦄ (os : Os S A) (unset : Unset) (o : Opens os) where
  -- The client that a descriptor belongs to.
  pub client_here :
      (p : Program K S) (f : ℤ)
      → IsSafe o p
      → lookup f p.epoll.handlers ≡ some client
      → (k : Link) × (lookup f p.clients ≡ some k) × (fd_of k ≡ f)
  client_here p f h mine = elim (Option-cases (lookup f p.clients)) [
    | inl away ↦ ground (arith, h.client_handlers f mine, away)
    | inr (k, found) ↦ (k, found, (h.client_keys f k found).0)
  ]

  pub handle_income-Ends :
      (p : Program K S) (f : ℤ) (handler : Handler)
      → lookup f p.epoll.handlers ≡ some handler
      → IsSafe o p
      → Ends (λ _. IsSafe o) (λ q. Unit) (handle_income os unset handler f p)
  unfolding handle_income
  handle_income-Ends p f listener mine h = accept_client-Ends os unset o f p h
  handle_income-Ends p f (bridge c address) mine h =
      bridge_income-Ends os unset o f c address p h mine
  handle_income-Ends p f client mine h =
      let k = client_here p f h mine in
      subst
        (λ d.
          lookup d p.clients ≡ some k.0
          → Ends (λ _. IsSafe o) (λ q. Unit) (handle_income os unset client d p))
        k.2 (client_income-Ends os unset o p k.0 h) k.1

  leave-Ends :
      (f : ℤ) (r : Outcome {0} Unit × Program K S)
      → Ends (λ _. IsLeft o f) (λ q. Unit) r
      → Ends (λ _ q. IsSafe o (unwatch f q)) (λ q. Unit) r
  leave-Ends f r h =
      Ends-map (λ _. IsLeft o f) (λ _ q. IsSafe o (unwatch f q)) (λ q. Unit) (λ q. Unit) r h
        (λ _ q left. unwatch-IsLeft o q f left) (λ q u. u)

  pub handle_disconnect-Ends :
      (p : Program K S) (f : ℤ) (handler : Handler)
      → lookup f p.epoll.handlers ≡ some handler
      → IsSafe o p
      → Ends (λ _ q. IsSafe o (unwatch f q)) (λ q. Unit) (handle_disconnect os unset handler f p)
  unfolding handle_disconnect
  handle_disconnect-Ends p f listener mine h =
      unwatched-IsSafe o p f h (ground (arith, mine)) (λ e. ground (arith, mine, e))
  handle_disconnect-Ends p f (bridge c address) mine h =
      leave-Ends f _ (bridge_disconnect-Ends os unset o f c address p h mine)
  handle_disconnect-Ends p f client mine h =
      let k = client_here p f h mine in
      subst
        (λ d.
          lookup d p.clients ≡ some k.0
          → Ends (λ _ q. IsSafe o (unwatch d q)) (λ q. Unit)
              (handle_disconnect os unset client d p))
        k.2 (λ found. leave-Ends (fd_of k.0) _ (client_disconnect-Ends os unset o p k.0 h found))
        k.1

  -- A batch of events uses no object that is gone.
  pub process_events-IsSafe :
      (p : Program K S) (events : List Event)
      → IsSafe o p
      → Secures (IsSafe o) (process_events (world os unset) p events)
  unfolding world unwatch
  process_events-IsSafe p events h =
      process_events-Secures (world os unset) (IsSafe o)
        (λ q f handler mine safe.
          settle-Secures (IsSafe o) _ (handle_income os unset handler f q)
            (handle_income-Ends q f handler mine safe))
        (λ q f handler mine safe.
          settle-Secures (λ u. IsSafe o (unwatch f u)) _ (handle_disconnect os unset handler f q)
            (handle_disconnect-Ends q f handler mine safe))
        p events h
