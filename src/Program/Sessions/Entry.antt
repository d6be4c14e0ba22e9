-- ===== src/Program/Sessions/Entry.antt =====
-- What a new client leaves alone.
use server_coursework.Base.{ℤ, ◌≡◌, refl, ◌∙◌, true, false, Option-cases, inl, inr, arith}
use server_coursework.Actions.{Action, modify, ◌>>=◌, ◌>>◌, Moves, bind-Moves}
use server_coursework.OrdMap.{lookup, insert, assign, has_key, same}
use server_coursework.OrdMap.Laws.{has_key-insert, lookup-assign, lookup-insert-other, same_refl}
use server_coursework.OrdMap.Keys.{int_Less, nat_Less}
use server_coursework.Socket.{accept_socket, Os, Socket, add_flag, o_nonblock}
use server_coursework.Connection.{default_connection, from_socket}
use server_coursework.Epoll.{Ctl}
use server_coursework.Program.{Program, Link, Unset, on_os, client_ref, new_link}
use server_coursework.Program.TcpServer.{
  client_at, accept_client, accepted, emplace_client, number_client, watch_client,
}
use server_coursework.Program.HttpServer.{connected, set_request}

module _ {K S : Type 0} where
  -- No client but `f` has come or changed, none has gone, and no bridge has changed.
  abbrev pub Entered : ℤ → Program K S → Program K S → Type 0
  Entered f p q =
      ((j : ℤ) → same f j ≡ false → lookup j q.clients ≡ lookup j p.clients)
      × (has_key f p.clients ≡ true → has_key f q.clients ≡ true)
      × (q.con_map ≡ p.con_map)

  Entered-refl : (f : ℤ) (p : Program K S) → Entered f p p
  Entered-refl f p = (λ j other. refl, λ here. here, refl)

  Entered-trans : (f : ℤ) (p q r : Program K S) → Entered f p q → Entered f q r → Entered f p r
  Entered-trans f p q r h k =
      (λ j other. k.0 j other ∙ h.0 j other, λ here. k.1 (h.1 here), k.2 ∙ h.2)

  abbrev Enters : {B : Type 0} → ℤ → Action (Program K S) B → Type 0
  Enters f m = Moves (Entered f) m

  bind-Enters :
      {B C : Type 0} (f : ℤ) (m : Action (Program K S) B) (g : B → Action (Program K S) C)
      → Enters f m
      → ((b : B) → Enters f (g b))
      → Enters f (m >>= g)
  bind-Enters f m g h k p = bind-Moves (Entered f) (Entered-trans f) m g h k p

  client_ref-Enters : (f c : ℤ) → Enters f (client_ref c)
  unfolding client_ref
  client_ref-Enters f c p = elim (Option-cases (lookup c p.clients)) [
    | inl away ↦ rw (away, client_ref) (Entered-refl f p)
    | inr (k, found) ↦ rw (found, client_ref) (Entered-refl f p)
  ]

  inserted :
      (f : ℤ) (k : Link) (p : Program K S)
      → Entered f p (record p { clients = insert f k p.clients })
  inserted f k p = (
    λ j other. lookup-insert-other j f k p.clients other,
    λ here. has_key-insert f k p.clients,
    refl,
  )

  assigned :
      (f : ℤ) (k : Link) (p : Program K S)
      → Entered f p (record p { clients = assign f k p.clients })
  assigned f k p = (
    λ j other. lookup-assign j f k p.clients ∙ ground (arith, other),
    λ here. ground (arith, lookup-assign f f k p.clients, same_refl f),
    refl,
  )

module _ {K S A : Type 0} ⦃ctl : Ctl K⦄ (os : Os S A) (unset : Unset) where
  emplace_client-Entered :
      (f : ℤ) (temp : Socket) (p : Program K S) → Entered f p (emplace_client os unset f temp p)
  unfolding emplace_client
  emplace_client-Entered f temp p = elim (Option-cases (lookup f p.clients)) [
    | inl away ↦
        rw (away, emplace_client)
          (inserted f (new_link (from_socket unset.number unset.flag temp).0) p)
    | inr (k, found) ↦ rw (found, emplace_client) (Entered-refl f p)
  ]

  client_at-Enters : (f : ℤ) → Enters {K = K} f (client_at os unset f)
  unfolding client_at
  client_at-Enters f p = elim (Option-cases (lookup f p.clients)) [
    | inl away ↦
        rw (away, client_at)
          (bind-Enters f (on_os (default_connection os unset.number)) _ (λ q. Entered-refl f q)
            (λ c q. inserted f (new_link c) q) p)
    | inr (k, found) ↦ rw (found, client_at) (Entered-refl f p)
  ]

  connected-Enters : (f : ℤ) → Enters {K = K} {S = S} f (connected f)
  unfolding connected set_request
  connected-Enters f =
      bind-Enters f (client_ref f) _ (client_ref-Enters f f) λ con u. Entered-refl f u

  -- The last steps for a client that has its number.
  abbrev numbered : ℤ → Link → Action (Program K S) Unit
  numbered f k =
      on_os (add_flag os k.connection.socket o_nonblock)
      >> (modify (watch_client os f k) >> connected f)

  numbered-Enters : (f : ℤ) (k : Link) → Enters f (numbered f k)
  unfolding watch_client
  numbered-Enters f k =
      bind-Enters f (on_os (add_flag os k.connection.socket o_nonblock)) _ (λ u. Entered-refl f u)
        λ _ u. connected-Enters f (watch_client os f k u)

  abbrev greeted : ℤ → Action (Program K S) Unit
  greeted f = client_at os unset f >>= λ k. modify (number_client f k) >> numbered f k

  greeted-Enters : (f : ℤ) → Enters f (greeted f)
  unfolding number_client
  greeted-Enters f = bind-Enters f (client_at os unset f) _ (client_at-Enters f) λ k u.
      Entered-trans f u (number_client f k u) (numbered f k (number_client f k u)).1
        (assigned f _ u) (numbered-Enters f k (number_client f k u))

  pub accept_client-Entered :
      (server_fd : ℤ) (p : Program K S)
      → Entered (os.accept server_fd p.os).0 p (accept_client os unset connected server_fd p).1
  unfolding accept_client accepted accept_socket
  accept_client-Entered server_fd p =
      let f = (os.accept server_fd p.os).0 in
      let temp : Socket = record { is_server = false; sfd = f } in
      let q = record p { os = (os.accept server_fd p.os).1 } in
      Entered-trans f p (emplace_client os unset f temp q)
        (greeted f (emplace_client os unset f temp q)).1 (emplace_client-Entered f temp q)
        (greeted-Enters f (emplace_client os unset f temp q))
