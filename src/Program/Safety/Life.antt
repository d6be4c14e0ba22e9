-- ===== src/Program/Safety/Life.antt =====
-- The program from its start to its end.
use server_coursework.Base.{
  ◌>>=◌, ℤ, ◌≡◌, refl, Bool, true, false, none, some, Bool-cases, inl, inr, arith, List, [], ◌∷◌,
  Bytes, codes, if◌then◌else◌, Outcome, returns, throws, spins, dangles, Secures, Secures-bind,
}
use server_coursework.OrdMap.{insert, lookup, same}
use server_coursework.OrdMap.Laws.{same_iff, same_refl}
use server_coursework.OrdMap.Keys.{int_Less, nat_Less}
use server_coursework.Socket.{Os, Socket, new_socket}
use server_coursework.Socket.Opening.{Opens, OpensOne, new_socket-OpensOne}
use server_coursework.Epoll.{Ctl, add_socket}
use server_coursework.Epoll.Watch.{add_socket-IsConsistent}
use server_coursework.Program.{Program, listener, Unset}
use server_coursework.Program.TcpServer.{unwatch, stop}
use server_coursework.Program.Main.{
  Signal, sigterm, sigint, Wakeup, events, interrupted, my_handler, server_on, open_server, turn,
  serve, start, finish, run,
}
use server_coursework.Program.Safety.{IsSafe}
use server_coursework.Program.Safety.Drop.{unwatched-IsSafe, int_eq-same}
use server_coursework.Program.Safety.Events.{process_events-IsSafe}

module _ {K S A : Type 0} ⦃ctl : Ctl K⦄ {os : Os S A} (o : Opens os) where
  -- `running` plays no part.
  pub flagged-IsSafe :
      (p : Program K S) (b : Bool) → IsSafe o p → IsSafe o (record p { running = b })
  flagged-IsSafe p b h = record {
    consistent = h.consistent;
    clients_sorted = h.clients_sorted;
    con_map_sorted = h.con_map_sorted;
    responses_sorted = h.responses_sorted;
    client_keys = h.client_keys;
    client_handlers = h.client_handlers;
    bridges = h.bridges;
    alive = h.alive;
    bridge_handlers = h.bridge_handlers;
    own_response = h.own_response;
    old_responses = h.old_responses;
    opened = h.opened;
    server_open = h.server_open;
    server_listens = h.server_listens;
  }

  pub my_handler-IsSafe :
      (signal : Signal) (p : Program K S) → IsSafe o p → IsSafe o (my_handler signal p)
  unfolding my_handler stop
  my_handler-IsSafe sigterm p h = h
  my_handler-IsSafe sigint p h = flagged-IsSafe (unwatch p.server_socket.sfd p) false (
      unwatched-IsSafe o p p.server_socket.sfd h (ground (arith, h.server_listens))
        (λ e. ground (arith, h.server_listens, e)))

  pub server_on-IsSafe :
      (unset : Unset) (instance_ : K) (s : S) (socket : Socket)
      → o.is_open socket.sfd s ≡ true
      → IsSafe o (server_on unset instance_ s socket)
  unfolding server_on add_socket lookup insert
  server_on-IsSafe unset instance_ s socket open_now = record {
    consistent =
        add_socket-IsConsistent (record { handlers = []; fd_status = []; interest = instance_ })
          (record { sorted = tt; listed = λ j. refl }) socket.sfd listener _ refl;
    clients_sorted = tt;
    con_map_sorted = tt;
    responses_sorted = tt;
    client_keys = λ c k e. absurd (ground (arith, e));
    client_handlers = λ c e. absurd (ground (arith, e, only c));
    bridges = λ c f e. absurd (ground (arith, e));
    alive = λ c entry e. absurd (ground (arith, e));
    bridge_handlers = λ f c address e. absurd (ground (arith, e, only f));
    own_response = λ f g c d address e x. absurd (ground (arith, e, only f));
    old_responses = λ address e. absurd (ground (arith, e));
    opened = λ f e. ground (arith, e, only f, same_iff socket.sfd f, open_now);
    server_open = open_now;
    server_listens = ground (arith, only socket.sfd);
  }
    where
      only :
          (j : ℤ)
          → lookup j ((socket.sfd, listener) ∷ [])
            ≡ (if same socket.sfd j then some listener else none)
      only j = refl

module _ {K S A : Type 0} ⦃ctl : Ctl K⦄ (os : Os S A) (unset : Unset) (o : Opens os) where
  turn-IsSafe :
      (wakeup : Wakeup) (p : Program K S) → IsSafe o p → Secures (IsSafe o) (turn os unset wakeup p)
  unfolding turn
  turn-IsSafe (events batch) p h = process_events-IsSafe os unset o p batch h
  turn-IsSafe (interrupted signal) p h =
      process_events-IsSafe os unset o (my_handler signal p) [] (my_handler-IsSafe o signal p h)

  -- While the program runs, it is safe.
  abbrev pub IsSafeRunning : Program K S → Type 0
  IsSafeRunning p = p.running ≡ true → IsSafe o p

  serve-IsSafe :
      (wakeups : List Wakeup) (p : Program K S)
      → IsSafe o p
      → Secures IsSafeRunning (serve os unset wakeups p)
  unfolding serve finish
  serve-IsSafe [] p h = λ e. h
  serve-IsSafe (wakeup ∷ rest) p h = elim (Bool-cases p.running) [
    | inl running ↦
        rw (running, serve)
          (Secures-bind (IsSafe o) IsSafeRunning (turn os unset wakeup p) _ (turn-IsSafe wakeup p h)
            λ q safe. serve-IsSafe rest q safe)
    | inr ended ↦ rw (ended, serve) (λ e. absurd (ground (arith, e, ended)))
  ]

  opened_server :
      (instance_ : K) (s : S) (made : Outcome Socket × S)
      → OpensOne os o s made
      → Secures (IsSafe o) (made.0 >>= λ socket. returns (server_on unset instance_ made.1 socket))
  opened_server instance_ s (returns socket, t) (valid, new, opens) =
      server_on-IsSafe o unset instance_ t socket
        (ground (arith, opens socket.sfd, int_eq-same socket.sfd socket.sfd, same_refl socket.sfd))
  opened_server instance_ s (throws e, t) h = tt
  opened_server instance_ s (spins, t) h = tt
  opened_server instance_ s (dangles, t) h = h

  pub open_server-IsSafe :
      (host port : Bytes) (instance_ : K) (s : S)
      → Secures (IsSafe o) (open_server os unset host port instance_ s)
  unfolding open_server
  open_server-IsSafe host port instance_ s =
      opened_server instance_ s (new_socket os host port true s)
        (new_socket-OpensOne os o host port true s)

  -- From its start to its end, whatever comes in, the program uses no object that is gone; as long as
  -- it runs, its state is safe. That each batch comes back is not stated.
  pub run-IsSafe :
      (port : Bytes) (wakeups : List Wakeup) (instance_ : K) (s : S)
      → Secures IsSafeRunning (run os unset port wakeups instance_ s)
  unfolding run start
  run-IsSafe port wakeups instance_ s =
      Secures-bind (IsSafe o) IsSafeRunning
        (open_server os unset (codes "localhost") port instance_ s) _
        (open_server-IsSafe (codes "localhost") port instance_ s)
        λ p h. serve-IsSafe wakeups (record p { running = true }) (flagged-IsSafe o p true h)
