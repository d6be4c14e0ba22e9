-- ===== src/Program/Safety/Relay.antt =====
-- A request that is passed on to its host.
use server_coursework.Base.{
  ℤ, ◌≡◌, ap, true, none, some, Option-cases, Bool-cases, inl, inr, arith, Bytes, bytes_eq,
}
use server_coursework.Actions.{Ends-map, pure, Ends, chain-Ends, recover-Ends}
use server_coursework.OrdMap.{lookup, has_key}
use server_coursework.OrdMap.Laws.{same_refl, lookup-insert, lookup-erase}
use server_coursework.OrdMap.Keys.{int_Less, nat_Less}
use server_coursework.Socket.{Os}
use server_coursework.Socket.Opening.{Opens}
use server_coursework.Epoll.{Ctl}
use server_coursework.Request.{Request}
use server_coursework.Program.TcpServer.{unwatch}
use server_coursework.Program.{client_ref, Program, Link, Unset, fd_of}
use server_coursework.Program.Proxy.{
  bridge_at, erase_bridge, emplace_bridge, replace_bridge, ensure_bridge, relay, on_request,
  host_of,
}
use server_coursework.Program.Safety.{IsSafe}
use server_coursework.Program.Safety.Drop.{unbridged, erase_bridge-unbridged, unbridged-IsSafe}
use server_coursework.Program.Safety.Fresh.{
  Known, IsFresh, IsReady, IsBridged, emplace_bridge-Ends, query-Ends,
}

module _ {K S A : Type 0} ⦃ctl : Ctl K⦄ (os : Os S A) (unset : Unset) (o : Opens os) where
  emplaced-IsReady :
      (c : ℤ) (host : Bytes) (p : Program K S)
      → Known o c p
      → lookup c p.con_map ≡ none
      → Ends (λ _. IsReady o c) (IsSafe o) (emplace_bridge os unset c host p)
  emplaced-IsReady c host p h single =
      Ends-map (λ _. IsFresh o c) (λ _. IsReady o c) (IsSafe o) (IsSafe o)
        (emplace_bridge os unset c host p) (emplace_bridge-Ends os unset o c host p h single)
        (λ _ q f. inr f) (λ q safe. safe)

  replace_bridge-Ends :
      (c : ℤ) (host : Bytes) (p : Program K S)
      → Known o c p
      → Ends (λ _. IsReady o c) (IsSafe o) (replace_bridge os unset c host p)
  unfolding replace_bridge
  replace_bridge-Ends c host p h = elim (Option-cases (lookup c p.con_map)) [
    | inl away ↦ rw (away, replace_bridge) (inl h)
    | inr ((old, k), found) ↦ elim (Bool-cases (bytes_eq old host)) [
      | inl same_host ↦ rw (found, same_host, replace_bridge) (inl h)
      | inr other ↦ rw (found, other, replace_bridge) (replaced k found)
    ]
  ]
    where
      replaced :
          {old : Bytes} (k : Link)
          → lookup c p.con_map ≡ some (old, k)
          → Ends
              (λ _. IsReady o c)
              (IsSafe o)
              (emplace_bridge os unset c host (erase_bridge os c (unwatch (fd_of k) p)))
      replaced k found = rw (erase_bridge-unbridged o p c found) (
          emplaced-IsReady c host (unbridged o c k p) (unbridged-IsSafe o p c h.0 found, h.1)
            (ground (arith, lookup-erase c c p.con_map, same_refl c)))

  ensure_bridge-Ends :
      (c : ℤ) (host : Bytes) (p : Program K S)
      → IsReady o c p
      → Ends (λ _. IsBridged o c) (IsSafe o) (ensure_bridge os unset c host p)
  unfolding ensure_bridge
  ensure_bridge-Ends c host p (inl h) = elim (Option-cases (lookup c p.con_map)) [
    | inl away ↦
        rw (away, ensure_bridge)
          (Ends-map (λ _. IsFresh o c) (λ _. IsBridged o c) (IsSafe o) (IsSafe o)
            (emplace_bridge os unset c host p) (emplace_bridge-Ends os unset o c host p h away)
            (λ _ q f. inr f) (λ q safe. safe))
    | inr (entry, found) ↦ rw (found, ensure_bridge) (inl (h, ground (arith, found)))
  ]
  ensure_bridge-Ends c host p (inr f) = rw (bridged, ensure_bridge) (inr f)
    where
      bridged : lookup c p.con_map ≡ some (f.host, f.new)
      bridged = ground (
        arith,
        ap (λ q. lookup c q.con_map) f.made,
        lookup-insert c c (f.host, f.new) f.before.con_map f.safe.con_map_sorted,
        same_refl c,
        f.single,
      )

  bridged-has_key : (c : ℤ) (p : Program K S) → IsBridged o c p → has_key c p.con_map ≡ true
  bridged-has_key c p (inl (h, here)) = here
  bridged-has_key c p (inr f) = ground (
    arith,
    ap (λ q. lookup c q.con_map) f.made,
    lookup-insert c c (f.host, f.new) f.before.con_map f.safe.con_map_sorted,
    same_refl c,
    f.single,
  )

  bridge_at-Ends :
      (c : ℤ) (p : Program K S)
      → IsBridged o c p
      → Ends (λ _. IsBridged o c) (IsSafe o) (bridge_at os unset c p)
  unfolding bridge_at
  bridge_at-Ends c p bridged = elim (Option-cases (lookup c p.con_map)) [
    | inl away ↦ absurd (ground (arith, bridged-has_key c p bridged, away))
    | inr (entry, found) ↦ rw (found, bridge_at) bridged
  ]

  relay-Ends :
      (c : ℤ) (request : Request) (p : Program K S)
      → Known o c p
      → Ends (λ _. IsSafe o) (IsSafe o) (relay os unset c request p)
  unfolding relay
  relay-Ends c request p h =
      chain-Ends (λ _. IsReady o c) _ _ (replace_bridge os unset c (host_of request) p) _
        (replace_bridge-Ends c (host_of request) p h)
        λ _ q ready.
          chain-Ends (λ _. IsBridged o c) _ _ (ensure_bridge os unset c (host_of request) q) _
            (ensure_bridge-Ends c (host_of request) q ready)
            λ _ u bridged.
              chain-Ends (λ _. IsBridged o c) _ _ (bridge_at os unset c u) _
                (bridge_at-Ends c u bridged) λ _ v there. query-Ends os unset o c request v there

  pub on_request-Ends :
      (c : ℤ) (request : Request) (p : Program K S)
      → Known o c p
      → Ends (λ _. IsSafe o) (IsSafe o) (on_request os unset c request p)
  unfolding on_request client_ref
  on_request-Ends c request p h = elim (Option-cases (lookup c p.clients)) [
    | inl away ↦ ground (arith, h.1, away)
    | inr (k, found) ↦
        rw (found, on_request, client_ref, (h.0.client_keys c k found).0)
          (recover-Ends (λ _. IsSafe o) (IsSafe o) (IsSafe o) (relay os unset c request p) (pure tt)
            (relay-Ends c request p h) (λ q safe. safe))
  ]
