-- ===== src/Program/Safety/Accept.antt =====
-- A new client.
use server_coursework.Base.{
  int_eq→≡, ℤ, negsuc, ◌≡◌, refl, ap, ◌∙◌, false, none, some, Option-cases, Bool-cases, inl, inr,
  arith, returns, int_eq, ◌||◌,
}
use server_coursework.Actions.{Action, ◌>>=◌, ◌>>◌, modify, Ends, chain-Ends}
use server_coursework.OrdMap.{lookup, insert, assign, same}
use server_coursework.OrdMap.Laws.{lookup-assign, IsSorted, same_refl, lookup-insert}
use server_coursework.OrdMap.Keys.{int_Less, nat_Less}
use server_coursework.Socket.{
  change_flags, destroy, move_socket, Os, Socket, accept_socket, add_flag, o_nonblock,
}
use server_coursework.Socket.Opening.{Opens}
use server_coursework.Connection.{from_socket}
use server_coursework.Epoll.{Ctl}
use server_coursework.Program.{Program, Link, Unset, fd_of, new_link, on_os, client_ref}
use server_coursework.Program.TcpServer.{
  client_at, accept_client, accepted, emplace_client, number_client, watch_client, add_one,
}
use server_coursework.Program.HttpServer.{connected, set_request}
use server_coursework.Program.Safety.{IsSafe}
use server_coursework.Program.Safety.Steady.{Alike, steady-IsSafe, on_os-Ends, add_flag-IsQuiet}
use server_coursework.Program.Safety.Grow.{not_client, joined, joined-IsSafe}

-- The client that the server makes of a socket.
abbrev made : Unset → Socket → Link
made unset temp = new_link (from_socket unset.number unset.flag temp).0

abbrev numbered : ℤ → Link → Link
numbered n k = record k { connection = record k.connection { id = n } }

module _ {K S A : Type 0} ⦃ctl : Ctl K⦄ (os : Os S A) (unset : Unset) (o : Opens os) where
  -- The callback of the listening socket behind `accept`.
  abbrev welcome : Socket → Action (Program K S) Unit
  welcome temp = do
    modify (emplace_client os unset temp.sfd temp)
    k ← client_at os unset temp.sfd
    modify (number_client temp.sfd k)
    on_os (add_flag os k.connection.socket o_nonblock)
    modify (watch_client os temp.sfd k)
    connected temp.sfd

  -- The last steps, for the client `k`.
  abbrev settled : ℤ → Link → Action (Program K S) Unit
  settled f k =
      on_os (add_flag os k.connection.socket o_nonblock)
      >> (modify (watch_client os f k) >> connected f)

  emplace_client-new :
      (temp : Socket) (p : Program K S)
      → lookup temp.sfd p.clients ≡ none
      → emplace_client os unset temp.sfd temp p
        ≡ record p { clients = insert temp.sfd (made unset temp) p.clients }
  unfolding emplace_client
  emplace_client-new temp p new = rw (new, emplace_client) refl

  emplace_client-old :
      (temp : Socket) (p : Program K S) {k : Link}
      → lookup temp.sfd p.clients ≡ some k
      → emplace_client os unset temp.sfd temp p ≡ record p { os = (destroy os temp p.os).1 }
  unfolding emplace_client
  emplace_client-old temp p found = rw (found, emplace_client) refl

  client_at-some :
      (f : ℤ) (p : Program K S) {k : Link}
      → lookup f p.clients ≡ some k
      → client_at os unset f p ≡ (returns k, p)
  unfolding client_at
  client_at-some f p found = rw (found, client_at) refl

  welcome-new :
      (temp : Socket) (p : Program K S)
      → IsSorted p.clients
      → lookup temp.sfd p.clients ≡ none
      → welcome temp p
        ≡ settled temp.sfd (made unset temp) (record p {
          clients =
              assign temp.sfd
                (numbered p.id_counter (made unset temp))
                (insert temp.sfd (made unset temp) p.clients);
          id_counter = add_one p.id_counter;
        })
  unfolding number_client
  welcome-new temp p sorted new =
      rw
        (
          emplace_client-new temp p new,
          client_at-some temp.sfd
              (record p { clients = insert temp.sfd (made unset temp) p.clients }) here,
        )
        refl
    where
      here : lookup temp.sfd (insert temp.sfd (made unset temp) p.clients) ≡ some (made unset temp)
      here = ground (
        arith,
        lookup-insert temp.sfd temp.sfd (made unset temp) p.clients sorted,
        same_refl temp.sfd,
        new,
      )

  welcome-old :
      (temp : Socket) (p : Program K S) {k : Link}
      → lookup temp.sfd p.clients ≡ some k
      → welcome temp p
        ≡ settled temp.sfd k (record p {
          clients = assign temp.sfd (numbered p.id_counter k) p.clients;
          id_counter = add_one p.id_counter;
          os = (destroy os temp p.os).1;
        })
  unfolding number_client
  welcome-old temp p found =
      rw
        (
          emplace_client-old temp p found,
          client_at-some temp.sfd (record p { os = (destroy os temp p.os).1 }) found,
        )
        refl

  -- No flag can be set on a socket that is not valid.
  settled_invalid-Ends :
      (f : ℤ) (k : Link) (p : Program K S) (Q : Unit → Program K S → Type 0)
      → fd_of k ≡ negsuc 0
      → Ends Q (λ q. Unit) (settled f k p)
  unfolding add_flag change_flags
  settled_invalid-Ends f k p Q invalid = rw (unset_flags, add_flag, change_flags) tt
    where
      unset_flags : os.get_flags (fd_of k) p.os ≡ none
      unset_flags = ap (λ fd. os.get_flags fd p.os) invalid ∙ o.no_flags p.os

  module _ (temp : Socket) (p : Program K S) (h : IsSafe o p)
      (shut : o.is_open temp.sfd p.os ≡ false) (s : S)
      (opens : (j : ℤ) → o.is_open j s ≡ (int_eq j temp.sfd || o.is_open j p.os)) where
    abbrev entered : S → Program K S
    entered t = record p {
      clients =
          assign temp.sfd (numbered p.id_counter (made unset temp))
            (insert temp.sfd (made unset temp) p.clients);
      id_counter = add_one p.id_counter;
      os = t;
    }

    watched-Ends :
        (t : S)
        → Alike os o s t
        → Ends
            (λ _. IsSafe o)
            (λ q. Unit)
            ((modify (watch_client os temp.sfd (made unset temp)) >> connected temp.sfd)
              (entered t))
    unfolding watch_client connected client_ref set_request from_socket move_socket
    watched-Ends t same =
        rw (here, client_ref)
          (steady-IsSafe o
            (joined o p h temp.sfd shut t opened (numbered p.id_counter (made unset temp))
              (made unset temp) (add_one p.id_counter) _)
            _ t
            (joined-IsSafe o p h temp.sfd shut t opened (numbered p.id_counter (made unset temp))
              (made unset temp) (add_one p.id_counter) _ refl)
            (λ j. refl))
      where
        opened : (j : ℤ) → o.is_open j t ≡ (int_eq j temp.sfd || o.is_open j p.os)
        opened j = same j ∙ opens j

        here :
            lookup temp.sfd (
              assign temp.sfd
                (numbered p.id_counter (made unset temp))
                (insert temp.sfd (made unset temp) p.clients))
            ≡ some (numbered p.id_counter (made unset temp))
        here =
            lookup-assign temp.sfd temp.sfd _ (insert temp.sfd (made unset temp) p.clients)
            ∙ ground (arith, same_refl temp.sfd)

    settled-Ends : Ends (λ _. IsSafe o) (λ q. Unit) (settled temp.sfd (made unset temp) (entered s))
    settled-Ends =
        let k = (made unset temp).connection.socket in
        chain-Ends
          (λ _ q.
            Ends (λ _. IsSafe o) (λ u. Unit)
              ((modify (watch_client os temp.sfd (made unset temp)) >> connected temp.sfd) q))
          (λ _. IsSafe o) (λ q. Unit) (on_os (add_flag os k o_nonblock) (entered s)) _
          (on_os-Ends o
            (λ _ q.
              Ends (λ _. IsSafe o) (λ u. Unit)
                ((modify (watch_client os temp.sfd (made unset temp)) >> connected temp.sfd) q))
            (λ q. Unit) (add_flag os k o_nonblock) (entered s)
            (add_flag-IsQuiet os o k o_nonblock s) (λ _ t same. watched-Ends t same) (λ t same. tt))
          (λ _ q done. done)

  -- Nothing comes of a socket that is not valid but an exception.
  welcome_invalid-Ends :
      (temp : Socket) (p : Program K S) (s : S)
      → IsSafe o p
      → temp.sfd ≡ negsuc 0
      → Ends (λ _. IsSafe o) (λ q. Unit) (welcome temp (record p { os = s }))
  unfolding from_socket
  welcome_invalid-Ends temp p s h invalid = elim (Option-cases (lookup temp.sfd p.clients)) [
    | inl new ↦
        rw (welcome-new temp (record p { os = s }) h.clients_sorted new)
          (settled_invalid-Ends temp.sfd (made unset temp) _ (λ _. IsSafe o) invalid)
    | inr (k, found) ↦ rw (welcome-old temp (record p { os = s }) found) (
        settled_invalid-Ends temp.sfd k _ (λ _. IsSafe o)
          ((h.client_keys temp.sfd k found).0 ∙ invalid))
  ]

  pub accept_client-Ends :
      (server_fd : ℤ) (p : Program K S)
      → IsSafe o p
      → Ends (λ _. IsSafe o) (λ q. Unit) (accept_client os unset connected server_fd p)
  unfolding accept_client accepted accept_socket
  accept_client-Ends server_fd p h = elim (Bool-cases (int_eq temp.sfd (negsuc 0))) [
    | inl invalid ↦ welcome_invalid-Ends temp p s h (int_eq→≡ temp.sfd (negsuc 0) invalid)
    | inr valid ↦
        let shut = o.accept_new server_fd p.os valid in
        rw
          (welcome-new temp (record p { os = s }) h.clients_sorted (not_client o p h temp.sfd shut))
          (settled-Ends temp p h shut s (λ j. o.accept-opens server_fd p.os j valid))
  ]
    where
      temp : Socket
      temp = record { is_server = false; sfd = (os.accept server_fd p.os).0 }

      s : S
      s = (os.accept server_fd p.os).1
