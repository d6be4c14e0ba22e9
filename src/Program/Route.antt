-- ===== src/Program/Route.antt =====
-- A request on its way from the client to the host.
use server_coursework.Base.{
  ℤ, ◌≡◌, refl, ◌∙◌, true, false, none, some, Option-cases, Bool-cases, ◌⊎◌, inl, inr, arith, Bytes,
  codes, bytes_eq, bytes_eq→≡, Outcome, returns, throws, spins, dangles,
}
use server_coursework.Actions.{Ends, chain-Ends, Ends-map}
use server_coursework.OrdMap.{lookup, assign}
use server_coursework.OrdMap.Laws.{
  IsSorted, same_refl, lookup-insert, lookup-erase, lookup-assign, erase-IsSorted, insert-IsSorted,
}
use server_coursework.OrdMap.Keys.{int_Less, nat_Less}
use server_coursework.Socket.{Os, Socket, new_client_socket}
use server_coursework.Socket.Opening.{Opens, OpensOne, new_socket-OpensOne}
use server_coursework.Connection.{new_connection, send_data}
use server_coursework.Epoll.{Ctl}
use server_coursework.Request.{Request}
use server_coursework.Request
use server_coursework.Program.{Program, Link, Unset, fd_of, new_link, bridge_ref}
use server_coursework.Program.TcpServer.{unwatch}
use server_coursework.Program.HttpConnection.{query, send_request, start_bridge, link_to}
use server_coursework.Program.Proxy.{
  bridge_at, emplace_bridge, erase_bridge, replace_bridge, ensure_bridge, relay, host_of,
}
use server_coursework.Program.Safety.Steady.{IsQuiet, send-IsQuiet, set_alive-some}
use server_coursework.Program.Safety.Fresh.{emplaced, query-unused}
use server_coursework.Program.Safety.Drop.{unbridged, erase_bridge-unbridged}

module _ {K S : Type 0} where
  -- The bridge of `c`, which leads to `host`.
  abbrev IsTo : ℤ → Bytes → Program K S → Type 0
  IsTo c host p = (k : Link) × (lookup c p.con_map ≡ some (host, k))

  -- No bridge of `c`, or one that leads to `host`.
  abbrev IsNear : ℤ → Bytes → Program K S → Type 0
  IsNear c host p = IsSorted p.con_map × ((lookup c p.con_map ≡ none) ⊎ IsTo c host p)

  abbrev IsMade : ℤ → Bytes → Program K S → Type 0
  IsMade c host p = IsSorted p.con_map × IsTo c host p

module _ {K S A : Type 0} (os : Os S A) where
  -- `c` has a bridge in use, which leads to `host`; the last thing done was to write `text` to it.
  abbrev pub IsRouted : ℤ → Bytes → Bytes → Program K S → Type 0
  IsRouted c host text q =
      (k : Link) × (s : S) × (lookup c q.con_map ≡ some (host, k))
      × (k.is_alive ≡ true)
      × (send_data os k.connection text s ≡ (returns tt, q.os))

module _ {K S A : Type 0} ⦃ctl : Ctl K⦄ (os : Os S A) (unset : Unset) (o : Opens os) where
  abbrev Any : Program K S → Type 0
  Any q = Unit

  emplaced-IsTo :
      (c : ℤ) (host : Bytes) (p : Program K S) (r : Outcome Socket × S)
      → IsSorted p.con_map
      → lookup c p.con_map ≡ none
      → OpensOne os o p.os r
      → Ends (λ _. IsMade c host) Any (emplaced os unset o c host p r)
  emplaced-IsTo c host p (returns k, s) sorted away opened =
      let made : Bytes × Link = (host, new_link (record { id = unset.number; socket = k })) in
      (
        insert-IsSorted c made p.con_map sorted,
        (made.1, ground (arith, lookup-insert c c made p.con_map sorted, same_refl c, away)),
      )
  emplaced-IsTo c host p (throws e, s) sorted away opened = tt
  emplaced-IsTo c host p (spins, s) sorted away opened = tt
  emplaced-IsTo c host p (dangles, s) sorted away opened = opened

  emplace_bridge-IsTo :
      (c : ℤ) (host : Bytes) (p : Program K S)
      → IsSorted p.con_map
      → lookup c p.con_map ≡ none
      → Ends (λ _. IsMade c host) Any (emplace_bridge os unset c host p)
  unfolding emplace_bridge link_to new_connection
  emplace_bridge-IsTo c host p sorted away =
      emplaced-IsTo c host p (new_client_socket os host (codes "http") p.os) sorted away
        (new_socket-OpensOne os o host (codes "http") false p.os)

  replace_bridge-IsNear :
      (c : ℤ) (host : Bytes) (p : Program K S)
      → IsSorted p.con_map
      → Ends (λ _. IsNear c host) Any (replace_bridge os unset c host p)
  unfolding replace_bridge
  replace_bridge-IsNear c host p sorted = elim (Option-cases (lookup c p.con_map)) [
    | inl away ↦ rw (away, replace_bridge) (sorted, inl away)
    | inr ((old, k), found) ↦ elim (Bool-cases (bytes_eq old host)) [
      | inl here ↦
          rw (found, here, replace_bridge)
            (sorted, inr (k, ground (arith, found, bytes_eq→≡ old host here)))
      | inr other ↦ rw (found, other, replace_bridge) (replaced k found)
    ]
  ]
    where
      replaced :
          {old : Bytes} (k : Link)
          → lookup c p.con_map ≡ some (old, k)
          → Ends
              (λ _. IsNear c host)
              Any
              (emplace_bridge os unset c host (erase_bridge os c (unwatch (fd_of k) p)))
      replaced k found = rw (erase_bridge-unbridged o p c found) (
          Ends-map (λ _. IsMade c host) (λ _. IsNear c host) Any Any
            (emplace_bridge os unset c host (unbridged o c k p))
            (emplace_bridge-IsTo c host (unbridged o c k p) (erase-IsSorted c p.con_map sorted)
              (ground (arith, lookup-erase c c p.con_map, same_refl c)))
            (λ _ q m. (m.0, inr m.1)) (λ q u. u))

  ensure_bridge-IsTo :
      (c : ℤ) (host : Bytes) (p : Program K S)
      → IsNear c host p
      → Ends (λ _. IsTo c host) Any (ensure_bridge os unset c host p)
  unfolding ensure_bridge
  ensure_bridge-IsTo c host p (sorted, inl away) =
      rw (away, ensure_bridge)
        (Ends-map (λ _. IsMade c host) (λ _. IsTo c host) Any Any (emplace_bridge os unset c host p)
          (emplace_bridge-IsTo c host p sorted away) (λ _ q m. m.1) (λ q u. u))
  ensure_bridge-IsTo c host p (sorted, inr (k, found)) = rw (found, ensure_bridge) (k, found)

  sent-IsRouted :
      (c : ℤ) (host text : Bytes) (p : Program K S) (k : Link) (r : Outcome {0} Unit × S)
      → lookup c p.con_map ≡ some (host, k)
      → k.is_alive ≡ true
      → IsQuiet os o p.os r
      → send_data os k.connection text p.os ≡ r
      → Ends (λ _. IsRouted os c host text) Any (r.0, record p { os = r.1 })
  sent-IsRouted c host text p k (returns _, s) found living quiet sent =
      (k, p.os, found, living, sent)
  sent-IsRouted c host text p k (throws e, s) found living quiet sent = tt
  sent-IsRouted c host text p k (spins, s) found living quiet sent = tt
  sent-IsRouted c host text p k (dangles, s) found living quiet sent = quiet

  query-IsRouted :
      (c : ℤ) (host : Bytes) (request : Request) (p : Program K S)
      → IsTo c host p
      → Ends (λ _. IsRouted os c host (Request.commit request)) Any (query os unset c request p)
  unfolding query bridge_ref send_request start_bridge
  query-IsRouted c host request p (k, found) = elim (Bool-cases k.is_alive) [
    | inl living ↦
        rw (found, query, bridge_ref, living)
          (sent-IsRouted c host (Request.commit request) p k _ found living
            (send-IsQuiet os o k.connection.socket (Request.commit request) p.os) refl)
    | inr unused ↦
        rw
          (
            query-unused os unset o c request p host k found unused,
            set_alive-some c true (start_bridge os unset c k p) host k (started found),
          )
          (sent-IsRouted c host (Request.commit request) (used k) (record k { is_alive = true }) _
            (in_use k) refl (send-IsQuiet os o k.connection.socket (Request.commit request) p.os)
            refl)
  ]
    where
      -- The bridge is in use.
      used : Link → Program K S
      used k =
          let q = start_bridge os unset c k p in
          record q { con_map = assign c (host, record k { is_alive = true }) q.con_map }

      started :
          {k : Link}
          → lookup c p.con_map ≡ some (host, k)
          → lookup c (start_bridge os unset c k p).con_map ≡ some (host, k)
      started found = found

      in_use : (k : Link) → lookup c (used k).con_map ≡ some (host, record k { is_alive = true })
      in_use k =
          lookup-assign c c (host, record k { is_alive = true }) p.con_map
          ∙ ground (arith, same_refl c)

  bridge_at-IsTo :
      (c : ℤ) (host : Bytes) (p : Program K S)
      → IsTo c host p
      → Ends (λ _. IsTo c host) Any (bridge_at os unset c p)
  unfolding bridge_at
  bridge_at-IsTo c host p (k, found) = rw (found, bridge_at) (k, found)

  -- When a request has been passed on without an exception, with the bridges in the order of their
  -- clients before, its client has one bridge, in use, to the host that the request names, and the last
  -- thing done was to write the request to it. No object that is gone is used.
  pub relay-IsRouted :
      (c : ℤ) (request : Request) (p : Program K S)
      → IsSorted p.con_map
      → Ends
          (λ _. IsRouted os c (host_of request) (Request.commit request))
          (λ q. Unit)
          (relay os unset c request p)
  unfolding relay
  relay-IsRouted c request p sorted =
      let host = host_of request in
      chain-Ends (λ _. IsNear c host) _ _ (replace_bridge os unset c host p) _
        (replace_bridge-IsNear c host p sorted)
        λ _ q near.
          chain-Ends (λ _. IsTo c host) _ _ (ensure_bridge os unset c host q) _
            (ensure_bridge-IsTo c host q near)
            λ _ u to.
              chain-Ends (λ _. IsTo c host) _ _ (bridge_at os unset c u) _
                (bridge_at-IsTo c host u to) λ _ v there. query-IsRouted c host request v there
