-- ===== src/Program/Sessions/Frames.antt =====
-- What the callbacks leave alone: the clients, and the bridges of all clients but one.
use server_coursework.Base.{
  [], ℕ, ℤ, ◌≡◌, refl, sym, ◌∙◌, subst, Bool, true, not, Option, none, some, Option-cases,
  Bool-cases, inl, inr, arith, Bytes, codes, bytes_eq, if◌then◌else◌,
}
use server_coursework.Actions.{Action, pure, modify, ◌>>=◌, Moves, bind-Moves, attempt-Moves}
use server_coursework.OrdMap.{lookup, same}
use server_coursework.OrdMap.Laws.{lookup-erase, lookup-assign, lookup-insert-other}
use server_coursework.OrdMap.Keys.{int_Less, nat_Less}
use server_coursework.Socket.{Os}
use server_coursework.Epoll.{Ctl}
use server_coursework.Request.{Request}
use server_coursework.Connection.{default_connection, new_connection}
use server_coursework.Program.{new_link, Program, Link, Unset, fd_of, on_os, client_ref, bridge_ref}
use server_coursework.Program.TcpServer.{unwatch}
use server_coursework.Program.HttpConnection.{
  query, send_request, start_bridge, set_alive, link_to, response_ref,
}
use server_coursework.Program.HttpServer.{request_at, set_request, client_checked}
use server_coursework.Program.Proxy.{
  bridge_at, emplace_bridge, erase_bridge, replace_bridge, ensure_bridge, relay, on_request,
  host_of,
}

-- Whose bridges are left alone.
abbrev pub spares : Option ℤ → ℤ → Bool
spares none j = true
spares (some c) j = not (same c j)

module _ {K S : Type 0} where
  -- Each client stands under its own descriptor.
  abbrev pub IsKeyed : Program K S → Type 0
  IsKeyed p = (c : ℤ) (k : Link) → lookup c p.clients ≡ some k → fd_of k ≡ c

  abbrev pub Framed : Option ℤ → Program K S → Program K S → Type 0
  Framed c p q =
      IsKeyed p
      → (q.clients ≡ p.clients)
        × ((j : ℤ) → spares c j ≡ true → lookup j q.con_map ≡ lookup j p.con_map)

  pub Framed-trans :
      (c : Option ℤ) (p q r : Program K S) → Framed c p q → Framed c q r → Framed c p r
  Framed-trans c p q r h k keyed =
      let first = h keyed in
      let second =
        k (
          subst (λ m. (d : ℤ) (l : Link) → lookup d m ≡ some l → fd_of l ≡ d) (sym first.0)
            keyed) in
      (second.0 ∙ first.0, λ j s. second.1 j s ∙ first.1 j s)

  abbrev pub Frames : {B : Type 0} → Option ℤ → Action (Program K S) B → Type 0
  Frames c m = Moves (Framed c) m

  pub bind-Frames :
      {B C : Type 0} (c : Option ℤ) (m : Action (Program K S) B) (f : B → Action (Program K S) C)
      → Frames c m
      → ((b : B) → Frames c (f b))
      → Frames c (m >>= f)
  bind-Frames c m f h k p = bind-Moves (Framed c) (Framed-trans c) m f h k p

  pub client_ref-Frames : (c : Option ℤ) (fd : ℤ) → Frames c (client_ref fd)
  unfolding client_ref
  client_ref-Frames c fd p = elim (Option-cases (lookup fd p.clients)) [
    | inl away ↦ rw (away, client_ref) (λ keyed. (refl, λ j s. refl))
    | inr (k, found) ↦ rw (found, client_ref) (λ keyed. (refl, λ j s. refl))
  ]

  pub client_checked-Frames : (c : Option ℤ) (fd : ℤ) → Frames c (client_checked fd)
  unfolding client_checked
  client_checked-Frames c fd p = elim (Option-cases (lookup fd p.clients)) [
    | inl away ↦ rw (away, client_checked) (λ keyed. (refl, λ j s. refl))
    | inr (k, found) ↦ rw (found, client_checked) (λ keyed. (refl, λ j s. refl))
  ]

  pub bridge_ref-Frames : (c : Option ℤ) (fd : ℤ) → Frames c (bridge_ref fd)
  unfolding bridge_ref
  bridge_ref-Frames c fd p = elim (Option-cases (lookup fd p.con_map)) [
    | inl away ↦ rw (away, bridge_ref) (λ keyed. (refl, λ j s. refl))
    | inr (k, found) ↦ rw (found, bridge_ref) (λ keyed. (refl, λ j s. refl))
  ]

  pub response_ref-Frames : (c : Option ℤ) (address : ℕ) → Frames c (response_ref address)
  unfolding response_ref
  response_ref-Frames c address p = elim (Option-cases (lookup address p.responses)) [
    | inl away ↦ rw (away, response_ref) (λ keyed. (refl, λ j s. refl))
    | inr (k, found) ↦ rw (found, response_ref) (λ keyed. (refl, λ j s. refl))
  ]

  pub request_at-Frames : (c : Option ℤ) (fd : ℤ) → Frames c (request_at fd)
  unfolding request_at set_request
  request_at-Frames c fd p = elim (Option-cases (lookup fd p.request_map)) [
    | inl away ↦ rw (away, request_at) (λ keyed. (refl, λ j s. refl))
    | inr (k, found) ↦ rw (found, request_at) (λ keyed. (refl, λ j s. refl))
  ]

  set_alive-Framed : (c : ℤ) (b : Bool) (p : Program K S) → Framed (some c) p (set_alive c b p)
  unfolding set_alive
  set_alive-Framed c b p = elim (Option-cases (lookup c p.con_map)) [
    | inl away ↦ rw (away, set_alive) (λ keyed. (refl, λ j s. refl))
    | inr ((host, k), found) ↦
        rw (found, set_alive)
          (λ keyed. (
            refl,
            λ j s.
                lookup-assign j c (host, record k { is_alive = b }) p.con_map ∙ ground (arith, s),
          ))
  ]

module _ {K S A : Type 0} ⦃ctl : Ctl K⦄ (os : Os S A) where
  erase_bridge-Framed :
      (c f : ℤ) (p : Program K S) → Framed (some c) p (erase_bridge os c (unwatch f p))
  unfolding erase_bridge unwatch
  erase_bridge-Framed c f p = elim (Option-cases (lookup c p.con_map)) [
    | inl away ↦ rw (away, erase_bridge) (λ keyed. (refl, λ j s. refl))
    | inr ((host, k), found) ↦
        rw (found, erase_bridge)
          (λ keyed. (refl, λ j s. lookup-erase j c p.con_map ∙ ground (arith, s)))
  ]

module _ {K S A : Type 0} ⦃ctl : Ctl K⦄ (os : Os S A) (unset : Unset) where
  emplace_bridge-Frames :
      (c : ℤ) (host : Bytes) → Frames {K = K} (some c) (emplace_bridge os unset c host)
  unfolding emplace_bridge link_to
  emplace_bridge-Frames c host =
      bind-Frames (some c) (link_to os unset host) _
        (bind-Frames (some c) (on_os (new_connection os unset.number host (codes "http"))) _
          (λ p keyed. (refl, λ j s. refl)) (λ k p keyed. (refl, λ j s. refl)))
        (λ k p keyed.
          (refl, λ j s. lookup-insert-other j c (host, k) p.con_map (ground (arith, s))))

  replace_bridge-Frames :
      (c : ℤ) (host : Bytes) → Frames {K = K} (some c) (replace_bridge os unset c host)
  unfolding replace_bridge
  replace_bridge-Frames c host p = elim (Option-cases (lookup c p.con_map)) [
    | inl away ↦ rw (away, replace_bridge) (λ keyed. (refl, λ j s. refl))
    | inr ((old, k), found) ↦ elim (Bool-cases (bytes_eq old host)) [
      | inl here ↦ rw (found, here, replace_bridge) (λ keyed. (refl, λ j s. refl))
      | inr other ↦
          rw (found, other, replace_bridge)
            (Framed-trans (some c) p (erase_bridge os c (unwatch (fd_of k) p))
              (emplace_bridge os unset c host (erase_bridge os c (unwatch (fd_of k) p))).1
              (erase_bridge-Framed os c (fd_of k) p)
              (emplace_bridge-Frames c host (erase_bridge os c (unwatch (fd_of k) p))))
    ]
  ]

  ensure_bridge-Frames :
      (c : ℤ) (host : Bytes) → Frames {K = K} (some c) (ensure_bridge os unset c host)
  unfolding ensure_bridge
  ensure_bridge-Frames c host p = elim (Option-cases (lookup c p.con_map)) [
    | inl away ↦ rw (away, ensure_bridge) (emplace_bridge-Frames c host p)
    | inr (entry, found) ↦ rw (found, ensure_bridge) (λ keyed. (refl, λ j s. refl))
  ]

  query-Frames : (c : ℤ) (request : Request) → Frames {K = K} (some c) (query os unset c request)
  unfolding query send_request start_bridge
  query-Frames c request = bind-Frames (some c) (bridge_ref c) _ (bridge_ref-Frames (some c) c) λ k.
      bind-Frames (some c)
        (if k.is_alive
          then pure tt
          else modify (λ p. set_alive c true (start_bridge os unset c k p)))
        _ (started k) (λ _ p keyed. (refl, λ j s. refl))
    where
      started :
          (k : Link)
          → Frames {K = K} (some c) (
              if k.is_alive
              then pure tt
              else modify (λ p. set_alive c true (start_bridge os unset c k p)))
      started k p = elim (Bool-cases k.is_alive) [
        | inl living ↦ rw living (λ keyed. (refl, λ j s. refl))
        | inr unused ↦ rw unused (set_alive-Framed c true (start_bridge os unset c k p))
      ]

  bridge_at-Frames : (c : ℤ) → Frames {K = K} (some c) (bridge_at os unset c)
  unfolding bridge_at
  bridge_at-Frames c p = elim (Option-cases (lookup c p.con_map)) [
    | inl away ↦
        rw (away, bridge_at)
          (bind-Frames (some c) (on_os (default_connection os unset.number)) _
            (λ q keyed. (refl, λ j s. refl))
            (λ k q keyed.
              (refl, λ j s. lookup-insert-other j c ([], new_link k) q.con_map (ground (arith, s))))
            p)
    | inr (entry, found) ↦ rw (found, bridge_at) (λ keyed. (refl, λ j s. refl))
  ]

  relay-Frames : (c : ℤ) (request : Request) → Frames {K = K} (some c) (relay os unset c request)
  unfolding relay
  relay-Frames c request =
      bind-Frames (some c) (replace_bridge os unset c (host_of request)) _
        (replace_bridge-Frames c (host_of request))
        λ _.
          bind-Frames (some c) (ensure_bridge os unset c (host_of request)) _
            (ensure_bridge-Frames c (host_of request))
            λ _.
              bind-Frames (some c) (bridge_at os unset c) _ (bridge_at-Frames c)
                λ _. query-Frames c request

  pub on_request-Frames :
      (c : ℤ) (request : Request) → Frames {K = K} (some c) (on_request os unset c request)
  unfolding on_request client_ref
  on_request-Frames c request p keyed = elim (Option-cases (lookup c p.clients)) [
    | inl away ↦ rw (away, on_request, client_ref) (refl, λ j s. refl)
    | inr (k, found) ↦
        rw (found, on_request, client_ref, keyed c k found)
          (attempt-Moves (Framed (some c)) (Framed-trans (some c)) (relay os unset c request)
            (pure tt) (relay-Frames c request) (λ q keyed. (refl, λ j s. refl)) p keyed)
  ]
