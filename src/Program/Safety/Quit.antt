-- ===== src/Program/Safety/Quit.antt =====
-- The end of the program.
use server_coursework.Base.{
  ℤ, ◌≡◌, subst, false, some, Option-cases, Bool-cases, inl, inr, arith, [], ◌∷◌, Bytes,
}
use server_coursework.OrdMap.{OrdMap, lookup, same}
use server_coursework.OrdMap.Laws.{same_refl}
use server_coursework.OrdMap.Keys.{int_Less}
use server_coursework.Socket.{Os, Socket, destroy, close_fd}
use server_coursework.Socket.Opening.{Opens}
use server_coursework.Epoll.{Ctl}
use server_coursework.Program.{Program, Link, Handler, listener, client, bridge, fd_of}
use server_coursework.Program.TcpServer.{clear_clients}
use server_coursework.Program.Main.{finish, quit, clear_bridges}
use server_coursework.Program.Safety.{IsSafe, listens, bridge_fd}
use server_coursework.Program.Safety.Drop.{int_eq-same}

module _ {S A : Type 0} (os : Os S A) (o : Opens os) where
  -- What is closed stays closed.
  destroy_shut :
      (k : Socket) (s : S) (j : ℤ) → o.is_open j s ≡ false → o.is_open j (destroy os k s).1 ≡ false
  unfolding close_fd
  destroy_shut k s j shut = ground (arith, o.close-shuts k.sfd s j, shut)

  destroy-shuts : (k : Socket) (s : S) → o.is_open k.sfd (destroy os k s).1 ≡ false
  unfolding close_fd
  destroy-shuts k s =
      ground (arith, o.close-shuts k.sfd s k.sfd, int_eq-same k.sfd k.sfd, same_refl k.sfd)

  clear_clients_shut :
      (m : OrdMap ℤ Link) (s : S) (j : ℤ)
      → o.is_open j s ≡ false
      → o.is_open j (clear_clients os m s) ≡ false
  unfolding clear_clients
  clear_clients_shut [] s j shut = shut
  clear_clients_shut ((c, k) ∷ m) s j shut =
      clear_clients_shut m _ j (destroy_shut k.connection.socket s j shut)

  clear_clients-shuts :
      (m : OrdMap ℤ Link) (s : S) (c : ℤ) (k : Link)
      → lookup c m ≡ some k
      → o.is_open (fd_of k) (clear_clients os m s) ≡ false
  unfolding clear_clients lookup
  clear_clients-shuts [] s c k found = absurd (ground (arith, found))
  clear_clients-shuts ((d, l) ∷ m) s c k found = elim (Bool-cases (same d c)) [
    | inl here ↦
        let own : l ≡ k = ground (arith, found, here) in
        clear_clients_shut m _ (fd_of k) (
          subst (λ i. o.is_open (fd_of i) (destroy os l.connection.socket s).1 ≡ false) own
            (destroy-shuts l.connection.socket s))
    | inr other ↦ clear_clients-shuts m _ c k (ground (arith, found, other))
  ]

  clear_bridges_shut :
      (m : OrdMap ℤ (Bytes × Link)) (s : S) (j : ℤ)
      → o.is_open j s ≡ false
      → o.is_open j (clear_bridges os m s) ≡ false
  unfolding clear_bridges
  clear_bridges_shut [] s j shut = shut
  clear_bridges_shut ((c, (host, k)) ∷ m) s j shut =
      clear_bridges_shut m _ j (destroy_shut k.connection.socket s j shut)

  clear_bridges-shuts :
      (m : OrdMap ℤ (Bytes × Link)) (s : S) (c f : ℤ)
      → bridge_fd (lookup c m) ≡ some f
      → o.is_open f (clear_bridges os m s) ≡ false
  unfolding clear_bridges lookup
  clear_bridges-shuts [] s c f found = absurd (ground (arith, found))
  clear_bridges-shuts ((d, (host, k)) ∷ m) s c f found = elim (Bool-cases (same d c)) [
    | inl here ↦
        let own : fd_of k ≡ f = ground (arith, found, here) in
        clear_bridges_shut m _ f (
          subst (λ i. o.is_open i (destroy os k.connection.socket s).1 ≡ false) own
            (destroy-shuts k.connection.socket s))
    | inr other ↦ clear_bridges-shuts m _ c f (ground (arith, found, other))
  ]

module _ {K S A : Type 0} ⦃ctl : Ctl K⦄ (os : Os S A) (o : Opens os) where
  handled-shuts :
      (p : Program K S) (f : ℤ) (handler : Handler)
      → IsSafe o p
      → lookup f p.epoll.handlers ≡ some handler
      → listens (some handler) ≡ false
      → o.is_open f (quit os (finish os p)) ≡ false
  unfolding quit finish
  handled-shuts p f listener h mine other = absurd (ground (arith, other))
  handled-shuts p f client h mine other = elim (Option-cases (lookup f p.clients)) [
    | inl away ↦ absurd (ground (arith, h.client_handlers f mine, away))
    | inr (k, found) ↦ clear_bridges_shut os o p.con_map _ f (
        destroy_shut os o p.server_socket (clear_clients os p.clients p.os) f (
          subst (λ d. o.is_open d (clear_clients os p.clients p.os) ≡ false)
            (h.client_keys f k found).0 (clear_clients-shuts os o p.clients p.os f k found)))
  ]
  handled-shuts p f (bridge c address) h mine other =
      clear_bridges-shuts os o p.con_map _ c f (h.bridge_handlers f c address mine).0

  -- When the program ends, from a safe state, the listening socket is closed, and with it every socket
  -- whose handler is that of a client or of a bridge.
  pub quit-shuts :
      (p : Program K S)
      → IsSafe o p
      → (o.is_open p.server_socket.sfd (quit os (finish os p)) ≡ false)
        × ((f : ℤ) (handler : Handler)
            → lookup f p.epoll.handlers ≡ some handler
            → listens (some handler) ≡ false
            → o.is_open f (quit os (finish os p)) ≡ false)
  unfolding quit finish
  quit-shuts p h = (
    clear_bridges_shut os o p.con_map _ p.server_socket.sfd (destroy-shuts os o p.server_socket _),
    λ f handler mine other. handled-shuts p f handler h mine other,
  )
