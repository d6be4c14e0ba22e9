-- ===== src/Connection/Owners.antt =====
-- What `connect_to` does to the descriptor that the connection had.
use server_coursework.Base.{
  ◌≡◌, ap, ◌∙◌, true, false, ◌||◌, Bool-cases, inl, inr, Bytes, int_eq, int_eq→≡, Outcome, returns,
  throws, spins, dangles, arith,
}
use server_coursework.Socket.Opening.{Opens, OpensOne, new_socket-OpensOne}
use server_coursework.Socket.{Os, Socket, new_client_socket}
use server_coursework.Connection.{Connection, on_socket, connect_to}

module _ {S A : Type 0} (os : Os S A) (o : Opens os) where
  -- The old descriptor is still open, and the connection has another.
  abbrev pub Leaks : Connection → Outcome Connection × S → Type 0
  Leaks c (returns d, t) =
      (o.is_open c.socket.sfd t ≡ true) × (int_eq d.socket.sfd c.socket.sfd ≡ false)
  Leaks c (throws e, t) = o.is_open c.socket.sfd t ≡ true
  Leaks c (spins, t) = ⊥
  Leaks c (dangles, t) = ⊥

  leaked :
      (c : Connection) (s : S) (r : Outcome Socket × S)
      → o.is_open c.socket.sfd s ≡ true
      → OpensOne os o s r
      → Leaks c (on_socket c r)
  leaked c s (returns k, t) was (valid, new, opens) =
      (opens c.socket.sfd ∙ ap (λ b. int_eq c.socket.sfd k.sfd || b) was ∙ ground arith, other)
    where
      other : int_eq k.sfd c.socket.sfd ≡ false
      other = elim (Bool-cases (int_eq k.sfd c.socket.sfd)) [
        | inl same ↦
            absurd
              (ground (arith, was, new, ap (λ j. o.is_open j s) (int_eq→≡ k.sfd c.socket.sfd same)))
        | inr apart ↦ apart
      ]
  leaked c s (throws e, t) was h = h c.socket.sfd ∙ was
  leaked c s (spins, t) was h = h
  leaked c s (dangles, t) was h = h

  -- `connect_to` on a connection that is open leaves its old descriptor open, and forgets it.
  pub connect_to-Leaks :
      (c : Connection) (host port : Bytes) (s : S)
      → o.is_open c.socket.sfd s ≡ true
      → Leaks c (connect_to os c host port s)
  unfolding connect_to
  connect_to-Leaks c host port s was =
      leaked c s (new_client_socket os host port s) was (new_socket-OpensOne os o host port false s)
