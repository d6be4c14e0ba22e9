-- ===== src/Program/Safety/Fresh.antt =====
-- A bridge that is new, and its first query.
use server_coursework.Base.{
  ℤ, ◌≡◌, refl, sym, subst, true, false, ◌||◌, none, some, Option-cases, ◌⊎◌, inl, inr, int_eq,
  arith, Bytes, codes, Outcome, returns, throws, spins, dangles,
}
use server_coursework.Actions.{chain, pure, modify, Ends}
use server_coursework.OrdMap.{lookup, insert, has_key, same}
use server_coursework.OrdMap.Laws.{same_refl, lookup-insert}
use server_coursework.OrdMap.Keys.{int_Less, nat_Less}
use server_coursework.Socket.{Os, Socket, new_client_socket}
use server_coursework.Socket.Opening.{Opens, OpensOne, new_socket-OpensOne}
use server_coursework.Connection.{new_connection, of_socket, on_socket}
use server_coursework.Epoll.{Ctl}
use server_coursework.Request.{Request}
use server_coursework.Request
use server_coursework.Response
use server_coursework.Program.{Program, Link, Unset, fd_of, new_link, bridge_ref}
use server_coursework.Program.HttpConnection.{query, send_request, start_bridge, set_alive, link_to}
use server_coursework.Program.Proxy.{emplace_bridge}
use server_coursework.Program.Safety.{IsSafe}
use server_coursework.Program.Safety.Steady.{set_alive-some, send-Ends, steady-IsSafe}
use server_coursework.Program.Safety.Grow.{linked-IsSafe}

module _ {K S A : Type 0} ⦃ctl : Ctl K⦄ {os : Os S A} (o : Opens os) where
  -- A safe state in which `c` is a client.
  abbrev pub Known : ℤ → Program K S → Type 0
  Known c p = IsSafe o p × (has_key c p.clients ≡ true)

  -- A client has a new bridge that has not been used.
  pub record IsFresh (c : ℤ) (p : Program K S) : Type 0 where
    pub before : Program K S
    pub host : Bytes
    pub new : Link
    pub made : p ≡ record before { con_map = insert c (host, new) before.con_map; os = p.os }
    pub safe : IsSafe o before
    pub known : has_key c before.clients ≡ true
    pub single : lookup c before.con_map ≡ none
    pub unused : new.is_alive ≡ false
    pub shut : o.is_open (fd_of new) before.os ≡ false
    pub opens : (j : ℤ) → o.is_open j p.os ≡ (int_eq j (fd_of new) || o.is_open j before.os)

  abbrev pub IsReady : ℤ → Program K S → Type 0
  IsReady c p = Known c p ⊎ IsFresh c p

  abbrev pub IsBridged : ℤ → Program K S → Type 0
  IsBridged c p = (Known c p × (has_key c p.con_map ≡ true)) ⊎ IsFresh c p

module _ {K S A : Type 0} ⦃ctl : Ctl K⦄ (os : Os S A) (unset : Unset) (o : Opens os) where
  -- The rest of `emplace_bridge`, by what its socket came to.
  abbrev pub emplaced :
      ℤ → Bytes → Program K S → Outcome Socket × S → Outcome {0} Unit × Program K S
  emplaced c host p r =
      let made =
        on_socket (of_socket unset.number (record { is_server = false; sfd = ℤ.negsuc 0 })) r in
      chain (chain (made.0, record p { os = made.1 }) (λ k. pure (new_link k)))
        (λ k. modify (λ q. record q { con_map = insert c (host, k) q.con_map }))

  emplaced-Ends :
      (c : ℤ) (host : Bytes) (p : Program K S) (r : Outcome Socket × S)
      → Known o c p
      → lookup c p.con_map ≡ none
      → OpensOne os o p.os r
      → Ends (λ _. IsFresh o c) (IsSafe o) (emplaced c host p r)
  emplaced-Ends c host p (returns k, s) h single opened = record {
    before = p;
    host = host;
    new = new_link (record { id = unset.number; socket = k });
    made = refl;
    safe = h.0;
    known = h.1;
    single = single;
    unused = refl;
    shut = opened.1;
    opens = opened.2;
  }
  emplaced-Ends c host p (throws e, s) h single same = steady-IsSafe o p p.request_map s h.0 same
  emplaced-Ends c host p (spins, s) h single opened = tt
  emplaced-Ends c host p (dangles, s) h single opened = opened

  pub emplace_bridge-Ends :
      (c : ℤ) (host : Bytes) (p : Program K S)
      → Known o c p
      → lookup c p.con_map ≡ none
      → Ends (λ _. IsFresh o c) (IsSafe o) (emplace_bridge os unset c host p)
  unfolding emplace_bridge link_to new_connection
  emplace_bridge-Ends c host p h single =
      emplaced-Ends c host p (new_client_socket os host (codes "http") p.os) h single
        (new_socket-OpensOne os o host (codes "http") false p.os)

  -- A request is sent, over a bridge that is in use or new.
  send_request-Ends :
      (k : Link) (request : Request) (p : Program K S)
      → IsSafe o p
      → Ends (λ _. IsSafe o) (IsSafe o) (send_request os k request p)
  unfolding send_request
  send_request-Ends k request p h = send-Ends o k.connection (Request.commit request) p h

  query_used-Ends :
      (c : ℤ) (request : Request) (p : Program K S)
      → IsSafe o p
      → has_key c p.con_map ≡ true
      → Ends (λ _. IsSafe o) (IsSafe o) (query os unset c request p)
  unfolding query bridge_ref
  query_used-Ends c request p h here = elim (Option-cases (lookup c p.con_map)) [
    | inl away ↦ ground (arith, here, away)
    | inr (entry, found) ↦
        rw (found, query, bridge_ref, h.alive c entry found) (send_request-Ends entry.1 request p h)
  ]

  pub query-unused :
      (c : ℤ) (request : Request) (p : Program K S) (host : Bytes) (k : Link)
      → lookup c p.con_map ≡ some (host, k)
      → k.is_alive ≡ false
      → query os unset c request p
        ≡ send_request os k request (set_alive c true (start_bridge os unset c k p))
  unfolding query bridge_ref
  query-unused c request p host k found unused = rw (found, query, bridge_ref, unused) refl

  -- The first query of a new bridge.
  query_new-Ends :
      (c : ℤ) (request : Request) (q : Program K S) (host : Bytes) (w : Link) (s : S)
      → Known o c q
      → lookup c q.con_map ≡ none
      → w.is_alive ≡ false
      → o.is_open (fd_of w) q.os ≡ false
      → ((j : ℤ) → o.is_open j s ≡ (int_eq j (fd_of w) || o.is_open j q.os))
      → Ends
          (λ _. IsSafe o)
          (IsSafe o)
          (query os unset c request (record q { con_map = insert c (host, w) q.con_map; os = s }))
  unfolding start_bridge
  query_new-Ends c request q host w s h single unused shut opens =
      rw
        (
          query-unused c request (record q { con_map = insert c (host, w) q.con_map; os = s }) host
              w here unused,
          set_alive-some c true
              (start_bridge os unset c w
                (record q { con_map = insert c (host, w) q.con_map; os = s }))
              host w here,
        )
        (send_request-Ends w request _ (
          linked-IsSafe o q h.0 (fd_of w) shut s opens c host (record w { is_alive = true }) w
            (Response.fresh unset.number) _ refl refl single h.1))
    where
      here : lookup c (insert c (host, w) q.con_map) ≡ some (host, w)
      here =
          ground
            (arith, lookup-insert c c (host, w) q.con_map h.0.con_map_sorted, same_refl c, single)

  pub query-Ends :
      (c : ℤ) (request : Request) (p : Program K S)
      → IsBridged o c p
      → Ends (λ _. IsSafe o) (IsSafe o) (query os unset c request p)
  query-Ends c request p (inl (h, here)) = query_used-Ends c request p h.0 here
  query-Ends c request p (inr f) =
      subst (λ u. Ends (λ _. IsSafe o) (IsSafe o) (query os unset c request u)) (sym f.made)
        (query_new-Ends c request f.before f.host f.new p.os (f.safe, f.known) f.single f.unused
          f.shut f.opens)
