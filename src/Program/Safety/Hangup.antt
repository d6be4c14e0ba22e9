-- ===== src/Program/Safety/Hangup.antt =====
-- The end of a bridge, and of a client.
use server_coursework.Base.{
  ℕ, ℤ, ◌≡◌, refl, ◌∙◌, subst, true, false, none, some, Option-cases, inl, inr, arith,
  if◌then◌else◌, Bytes, returns,
}
use server_coursework.Actions.{Ends}
use server_coursework.OrdMap.{lookup, erase, assign, has_key, same}
use server_coursework.OrdMap.Laws.{same_refl, lookup-erase, lookup-assign, erase-assign}
use server_coursework.OrdMap.Keys.{int_Less, nat_Less}
use server_coursework.Socket.{Os}
use server_coursework.Socket.Opening.{Opens}
use server_coursework.Epoll.{Ctl, remove_socket}
use server_coursework.Epoll.Watch.{lookup-remove_socket}
use server_coursework.Program.{Program, Link, bridge, Unset, fd_of, client_ref, bridge_ref}
use server_coursework.Program.HttpConnection.{bridge_disconnect}
use server_coursework.Program.Proxy.{disconnection_handler, bridge_at}
use server_coursework.Program.Safety.{bridge_fd, IsSafe}
use server_coursework.Program.Safety.Steady.{set_alive-some}
use server_coursework.Program.Safety.Drop.{
  IsLeft, unbridged, unclient, erase_bridge-unbridged, disconnect_client-unclient, unbridged-IsSafe,
  unclient-IsSafe, unanswered-IsSafe,
}

module _ {K S A : Type 0} ⦃ctl : Ctl K⦄ (os : Os S A) (unset : Unset) (o : Opens os) where
  hung_up :
      (p : Program K S) (con : Link) {host : Bytes} {k : Link}
      → lookup (fd_of con) p.clients ≡ some con
      → lookup (fd_of con) p.con_map ≡ some (host, k)
      → disconnection_handler os unset (fd_of con) p
        ≡ (returns tt, unclient o (fd_of con) (unbridged o (fd_of con) k p))
  unfolding disconnection_handler client_ref bridge_at
  hung_up p con {k} found bridged =
      rw
        (
          found,
          disconnection_handler,
          client_ref,
          bridged,
          bridge_at,
          erase_bridge-unbridged o p (fd_of con) bridged,
          disconnect_client-unclient o (unbridged o (fd_of con) k p) con found,
        )
        refl

  disconnection_handler-lem :
      (p : Program K S) (c : ℤ) (con : Link) {host : Bytes} {k : Link}
      → lookup c p.clients ≡ some con
      → fd_of con ≡ c
      → lookup c p.con_map ≡ some (host, k)
      → disconnection_handler os unset c p ≡ (returns tt, unclient o c (unbridged o c k p))
  disconnection_handler-lem p c con {host} {k} found own bridged =
      subst
        (λ d.
          lookup d p.clients ≡ some con
          → lookup d p.con_map ≡ some (host, k)
          → disconnection_handler os unset d p ≡ (returns tt, unclient o d (unbridged o d k p)))
        own (hung_up p con) found bridged

  -- The end of a bridge: it goes, its client goes, and its response goes.
  abbrev pub closed_bridge : ℤ → ℕ → Link → Program K S → Program K S
  closed_bridge c address k p = record (unclient o c (unbridged o c k p)) {
    responses = erase address p.responses;
  }

  pub bridge_disconnect-lem :
      (p : Program K S) (c : ℤ) (address : ℕ) (con : Link) {host : Bytes} {k : Link}
      → lookup c p.clients ≡ some con
      → fd_of con ≡ c
      → lookup c p.con_map ≡ some (host, k)
      → bridge_disconnect (disconnection_handler os unset c) c address p
        ≡ (returns tt, closed_bridge c address k p)
  unfolding bridge_disconnect bridge_ref
  bridge_disconnect-lem p c address con {host} {k} found own bridged =
      rw
        (
          bridged,
          bridge_disconnect,
          bridge_ref,
          set_alive-some c false p host k bridged,
          disconnection_handler-lem
              (record p { con_map = assign c (host, record k { is_alive = false }) p.con_map }) c
              con {host = host} {k = record k { is_alive = false }} found own
              (lookup-assign c c (host, record k { is_alive = false }) p.con_map
                ∙ ground (arith, same_refl c)),
          erase-assign c (host, record k { is_alive = false }) p.con_map,
        )
        refl

  closed_bridge_gone :
      (c : ℤ) (address : ℕ) (p : Program K S) {host : Bytes} {k : Link} (j : ℤ)
      → IsSafe o p
      → lookup c p.con_map ≡ some (host, k)
      → lookup j (closed_bridge c address k p).epoll.handlers
        ≡ (if same c j then none else if same (fd_of k) j then none else lookup j p.epoll.handlers)
  closed_bridge_gone c address p {k} j h bridged = ground (
    arith,
    (lookup-remove_socket p.epoll h.consistent (fd_of k)).0 j,
    (lookup-remove_socket (remove_socket p.epoll (fd_of k))
          (unbridged-IsSafe o p c h bridged).consistent c).0
        j,
  )

  closed_bridge-IsSafe :
      (f c : ℤ) (address : ℕ) (p : Program K S) {con : Link} {host : Bytes} {k : Link}
      → IsSafe o p
      → lookup f p.epoll.handlers ≡ some (bridge c address)
      → fd_of k ≡ f
      → lookup c p.clients ≡ some con
      → lookup c p.con_map ≡ some (host, k)
      → IsSafe o (closed_bridge c address k p)
  closed_bridge-IsSafe f c address p {k} h mine same_fd found bridged =
      unanswered-IsSafe o (unclient o c (unbridged o c k p)) address
        (unclient-IsSafe o (unbridged o c k p) c (unbridged-IsSafe o p c h bridged) found
          (lookup-erase c c p.con_map ∙ ground (arith, same_refl c)))
        (λ g d e. ground (
          arith,
          closed_bridge_gone c address p g h bridged,
          e,
          h.own_response f g c d address mine,
          same_fd,
          same_refl f,
        ))

  pub bridge_disconnect-Ends :
      (f c : ℤ) (address : ℕ) (p : Program K S)
      → IsSafe o p
      → lookup f p.epoll.handlers ≡ some (bridge c address)
      → Ends
          (λ _. IsLeft o f)
          (λ q. Unit)
          (bridge_disconnect (disconnection_handler os unset c) c address p)
  bridge_disconnect-Ends f c address p h mine = elim (Option-cases (lookup c p.clients)) [
    | inl away ↦ ground (arith, owned, away)
    | inr (con, found) ↦ elim (Option-cases (lookup c p.con_map)) [
      | inl away ↦ ground (arith, owned, away)
      | inr ((host, k), bridged) ↦
          let own : fd_of k ≡ f = ground (arith, owned, bridged) in
          rw (bridge_disconnect-lem p c address con found (h.client_keys c con found).0 bridged) (
            closed_bridge-IsSafe f c address p h mine own found bridged,
            closed_bridge_gone c address p f h bridged ∙ ground (arith, own, same_refl f),
          )
    ]
  ]
    where
      owned :
          (bridge_fd (lookup c p.con_map) ≡ some f)
          × (has_key c p.clients ≡ true)
          × (has_key address p.responses ≡ true)
      owned = h.bridge_handlers f c address mine
