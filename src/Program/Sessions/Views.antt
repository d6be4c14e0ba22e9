-- ===== src/Program/Sessions/Views.antt =====
-- What the frames come to for the sessions.
use server_coursework.Base.{
  Bool-cases, subst, ℕ, ℤ, ◌≡◌, refl, sym, ap, ◌∙◌, Bool, true, false, Option, none, some,
  Option-cases, inl, inr, arith, Bytes,
}
use server_coursework.OrdMap.{lookup, erase, has_key, same}
use server_coursework.OrdMap.Laws.{lookup-erase, same_refl, same_iff}
use server_coursework.OrdMap.Keys.{int_Less, nat_Less}
use server_coursework.Socket.{Os}
use server_coursework.Socket.Opening.{Opens}
use server_coursework.Program.{Program, Link, Handler, listener, client, bridge, fd_of}
use server_coursework.Program.Safety.{IsSafe, owner, listens, bridge_fd}
use server_coursework.Epoll.{Event}
use server_coursework.Epoll.Courses.{is_closing, is_income}
use server_coursework.Program.Sessions.{
  Session, known, view, view_of, is_client, belongs, IsStranger, Step, Step-idle, Step-client,
  Step-entry, Step-left,
}
use server_coursework.Program.Sessions.Frames.{Framed}
use server_coursework.Program.Sessions.Entry.{Entered}

module _ {K S : Type 0} (p q : Program K S) where
  view-same :
      (j : ℤ)
      → lookup j q.clients ≡ lookup j p.clients
      → lookup j q.con_map ≡ lookup j p.con_map
      → view q j ≡ view p j
  view-same j e f = ap (λ k. view_of k (lookup j q.con_map)) e ∙ ap (view_of (lookup j p.clients)) f

  -- The session of `c` is over, and no other has changed.
  abbrev pub Gone : ℤ → Type 0
  Gone c = ((j : ℤ) → same c j ≡ false → view q j ≡ view p j) × (view q c ≡ none)

  pub erased-Gone :
      (c : ℤ)
      → q.clients ≡ erase c p.clients
      → ((j : ℤ) → same c j ≡ false → lookup j q.con_map ≡ lookup j p.con_map)
      → Gone c
  erased-Gone c clients maps = (
    λ j other.
        view-same j
          (ap (λ m. lookup j m) clients ∙ lookup-erase j c p.clients ∙ ground (arith, other))
          (maps j other),
    ap (λ k. view_of k (lookup c q.con_map)) gone,
  )
    where
      gone : lookup c q.clients ≡ none
      gone = ap (λ m. lookup c m) clients ∙ lookup-erase c c p.clients ∙ ground (arith, same_refl c)

abbrev found_in : Option Link → Bool
found_in none = false
found_in (some k) = true

has_key-found_in : (x : Option Link) → (elim x [ none ↦ false | some k ↦ true ]) ≡ found_in x
has_key-found_in none = refl
has_key-found_in (some k) = refl

known-view_of : (x : Option Link) (m : Option (Bytes × Link)) → known (view_of x m) ≡ found_in x
known-view_of none m = refl
known-view_of (some k) none = refl
known-view_of (some k) (some (host, b)) = refl

is_client-view :
    {K S : Type 0} (p : Program K S) (c : ℤ) → is_client (view p) c ≡ has_key c p.clients
is_client-view p c = known-view_of _ _ ∙ sym (has_key-found_in (lookup c p.clients))

-- A client that is there stays as it is, whatever object stands for it.
view_kept :
    (x y : Option Link) (m : Option (Bytes × Link))
    → found_in x ≡ true
    → found_in y ≡ true
    → view_of y m ≡ view_of x m
view_kept none y m h k = absurd (ground (arith, h))
view_kept (some x) none m h k = absurd (ground (arith, k))
view_kept (some x) (some y) none h k = refl
view_kept (some x) (some y) (some (host, b)) h k = refl

view_new : (y : Option Link) → found_in y ≡ true → view_of y none ≡ some none
view_new none h = absurd (ground (arith, h))
view_new (some y) h = refl

owner-bridge :
    (x : Option Handler) (c : ℤ) → owner x ≡ some c → (address : ℕ) × (x ≡ some (bridge c address))
owner-bridge none c e = absurd (ground (arith, e))
owner-bridge (some listener) c e = absurd (ground (arith, e))
owner-bridge (some client) c e = absurd (ground (arith, e))
owner-bridge (some (bridge d address)) c e = (address, ground (arith, e))

-- Only a client has a bridge.
bridge_client :
    {K S A : Type 0} {os : Os S A} (o : Opens os) (p : Program K S) (c : ℤ) {host : Bytes}
    {k : Link}
    → IsSafe o p
    → lookup c p.con_map ≡ some (host, k)
    → has_key c p.clients ≡ true
bridge_client o p c {k} h bridged =
    let mine =
      owner-bridge (lookup (fd_of k) p.epoll.handlers) c
        (h.bridges c (fd_of k) (ground (arith, bridged))) in
    (h.bridge_handlers (fd_of k) c mine.0 mine.1).1

-- A client's own descriptor belongs to it.
belongs_self : (x : Option Session) (c : ℤ) → known x ≡ true → belongs x c c ≡ true
belongs_self none c h = absurd (ground (arith, h))
belongs_self (some none) c h = same_refl c
belongs_self (some (some (host, b))) c h = ground (arith, same_refl c)

-- So does that of its bridge.
belongs_bridge :
    (x : Option Link) (m : Option (Bytes × Link)) (c f : ℤ)
    → found_in x ≡ true
    → bridge_fd m ≡ some f
    → belongs (view_of x m) c f ≡ true
belongs_bridge none m c f h e = absurd (ground (arith, h))
belongs_bridge (some k) none c f h e = absurd (ground (arith, e))
belongs_bridge (some k) (some (host, b)) c f h e = ground (arith, e, same_refl f)

-- A descriptor of no client and no bridge.
belongs_none :
    (x : Option Link) (m : Option (Bytes × Link)) (c f : ℤ)
    → (found_in x ≡ true → same c f ≡ false)
    → ((b : ℤ) → bridge_fd m ≡ some b → same b f ≡ false)
    → belongs (view_of x m) c f ≡ false
belongs_none none m c f h k = refl
belongs_none (some y) none c f h k = h refl
belongs_none (some y) (some (host, b)) c f h k = ground (arith, h refl, k (fd_of b) refl)

module _ {K S A : Type 0} {os : Os S A} (o : Opens os) (p : Program K S) (h : IsSafe o p) where
  pub client-belongs : (c : ℤ) → has_key c p.clients ≡ true → belongs (view p c) c c ≡ true
  client-belongs c found = belongs_self (view p c) c (is_client-view p c ∙ found)

  pub bridge-belongs :
      (c f : ℤ) (address : ℕ)
      → lookup f p.epoll.handlers ≡ some (bridge c address)
      → belongs (view p c) c f ≡ true
  bridge-belongs c f address mine =
      let here = h.bridge_handlers f c address mine in
      belongs_bridge (lookup c p.clients) (lookup c p.con_map) c f
        (sym (has_key-found_in (lookup c p.clients)) ∙ here.1) here.0

  -- A descriptor that is not watched, or is the listening one, belongs to no client.
  pub listens-IsStranger :
      (f : ℤ) → listens (lookup f p.epoll.handlers) ≡ true → IsStranger (view p) f
  listens-IsStranger f none_here c =
      belongs_none (lookup c p.clients) (lookup c p.con_map) c f not_client not_bridge
    where
      not_client : found_in (lookup c p.clients) ≡ true → same c f ≡ false
      not_client found = elim (Option-cases (lookup c p.clients)) [
        | inl away ↦ absurd (ground (arith, found, away))
        | inr (k, here) ↦ elim (Bool-cases (same c f)) [
          | inl it ↦ absurd (
              ground (
                arith,
                none_here,
                subst (λ d. lookup d p.epoll.handlers ≡ some client) ((same_iff c f).0 it)
                    (h.client_keys c k here).1,
              ))
          | inr other ↦ other
        ]
      ]

      not_bridge : (b : ℤ) → bridge_fd (lookup c p.con_map) ≡ some b → same b f ≡ false
      not_bridge b e = elim (Bool-cases (same b f)) [
        | inl it ↦
            let mine = owner-bridge (lookup f p.epoll.handlers) c (
              subst (λ d. owner (lookup d p.epoll.handlers) ≡ some c) ((same_iff b f).0 it)
                (h.bridges c b e)) in
            absurd (ground (arith, none_here, mine.1))
        | inr other ↦ other
      ]

module _ {K S A : Type 0} {os : Os S A} (o : Opens os) (p q : Program K S) (h : IsSafe o p) where
  module _ (event : Event) where
    pub Framed-Step :
        is_income event ≡ true
        → has_key event.fd p.clients ≡ true
        → Framed (some event.fd) p q
        → Step event (view p) (view q)
    Framed-Step income was f =
        let (clients, maps) = f (λ d k e. (h.client_keys d k e).0) in
        Step-client (view p) (view q)
          (λ j other.
            view-same p q j (ap (λ m. lookup j m) clients) (maps j (ground (arith, other))))
          income (is_client-view p event.fd ∙ was)
          (is_client-view q event.fd ∙ ap (λ m. has_key event.fd m) clients ∙ was)

    pub Framed-idle : is_income event ≡ true → Framed none p q → Step event (view p) (view q)
    Framed-idle income f =
        let (clients, maps) = f (λ d k e. (h.client_keys d k e).0) in
        Step-idle income (λ j. view-same p q j (ap (λ m. lookup j m) clients) (maps j refl))

    pub Entered-Step :
        (f : ℤ)
        → is_income event ≡ true
        → IsStranger (view p) event.fd
        → Entered f p q
        → Step event (view p) (view q)
    Entered-Step f income strange e =
        Step-entry (view p) (view q) f
          (λ j other. view-same p q j (e.0 j other) (ap (λ m. lookup j m) e.2)) income strange
          (λ old.
            ap (view_of (lookup f q.clients)) (ap (λ m. lookup f m) e.2)
            ∙ view_kept (lookup f p.clients) (lookup f q.clients) (lookup f p.con_map)
                (sym (known-view_of _ (lookup f p.con_map)) ∙ old)
                (sym (has_key-found_in (lookup f q.clients))
                  ∙ e.1 (sym (is_client-view p f) ∙ old)))
          (λ new here.
            ap (view_of (lookup f q.clients)) (ap (λ m. lookup f m) e.2 ∙ single new)
            ∙ view_new (lookup f q.clients) (sym (known-view_of _ (lookup f q.con_map)) ∙ here))
      where
        single : is_client (view p) f ≡ false → lookup f p.con_map ≡ none
        single new = elim (Option-cases (lookup f p.con_map)) [
          | inl away ↦ away
          | inr ((host, k), found) ↦
              absurd (ground (arith, bridge_client o p f h found, is_client-view p f, new))
        ]

    -- A client that is gone has left.
    pub Gone-Step :
        (c : ℤ)
        → is_closing event ≡ true
        → belongs (view p c) c event.fd ≡ true
        → Gone p q c
        → Step event (view p) (view q)
    Gone-Step c closing mine g = Step-left (view p) (view q) c g.0 closing mine g.1
