-- ===== src/Program/Sessions.antt =====
-- What the program promises, as one sees it from outside: which clients there are, and the host and the
-- descriptor of the bridge that each has, and what each event may do to them.
pub mod Frames
pub mod Income
pub mod Entry
pub mod Views
pub mod Refinement
pub mod Runs
use server_coursework.Base.{
  ap, Bool-cases, subst, not, ℤ, ◌≡◌, refl, sym, ◌∙◌, Bool, true, false, ◌||◌, Option, none, some,
  inl, inr, Bytes, if◌then◌else◌, arith,
}
use std.Path.{fun_ext}
use server_coursework.OrdMap.{lookup, same}
use server_coursework.OrdMap.Laws.{same_iff}
use server_coursework.OrdMap.Keys.{int_Less}
use server_coursework.Epoll.{Event}
use server_coursework.Epoll.Courses.{is_closing, is_income}
use server_coursework.Program.{Program, Link, fd_of}

-- A client without a bridge, or the host and the descriptor of its bridge.
abbrev pub Session : Type 0
Session = Option (Bytes × ℤ)

-- For each descriptor, the session of the client that it is, if it is one.
abbrev pub View : Type 0
View = ℤ → Option Session

abbrev pub view_of : Option Link → Option (Bytes × Link) → Option Session
view_of none entry = none
view_of (some k) none = some none
view_of (some k) (some (host, b)) = some (some (host, fd_of b))

abbrev pub view : {K S : Type 0} → Program K S → View
view p c = view_of (lookup c p.clients) (lookup c p.con_map)

abbrev pub put : ℤ → Option Session → View → View
put c x v j = if same c j then x else v j

abbrev pub known : Option Session → Bool
known none = false
known (some x) = true

abbrev pub is_client : View → ℤ → Bool
is_client v c = known (v c)

-- Whether a descriptor is that of the client `c`, or of its bridge.
abbrev pub belongs : Option Session → ℤ → ℤ → Bool
belongs none c f = false
belongs (some none) c f = same c f
belongs (some (some (host, b))) c f = same c f || same b f

abbrev pub IsStranger : View → ℤ → Type 0
IsStranger v f = (c : ℤ) → belongs (v c) c f ≡ false

-- What an event may do. When the descriptor of a client or of its bridge is closed, this client leaves.
-- When bytes come in from a client, it may be given a bridge or lose the one it has. A new client joins
-- where a descriptor that belongs to no client has income. In all else nothing changes.
pub data Step (event : Event) (v : View) : View → Type 0 where
  leaves :
      (c : ℤ)
      → is_closing event ≡ true
      → belongs (v c) c event.fd ≡ true
      → Step event v (put c none v)
  asks :
      (host : Bytes) (b : ℤ)
      → is_income event ≡ true
      → is_client v event.fd ≡ true
      → Step event v (put event.fd (some (some (host, b))) v)
  fails :
      is_income event ≡ true
      → is_client v event.fd ≡ true
      → Step event v (put event.fd (some none) v)
  joins :
      (c : ℤ)
      → is_income event ≡ true
      → IsStranger v event.fd
      → is_client v c ≡ false
      → Step event v (put c (some none) v)
  idles : (is_closing event ≡ true → IsStranger v event.fd) → Step event v v

pub Step-same :
    {event : Event} {v u w : View} → Step event v u → ((j : ℤ) → w j ≡ u j) → Step event v w
Step-same {event} {v} step alike = subst (λ t. Step event v t) (fun_ext (λ j. sym (alike j))) step

-- An event that is not a closing one may change nothing.
pub Step-idle :
    {event : Event} {v w : View} → is_income event ≡ true → ((j : ℤ) → w j ≡ v j) → Step event v w
Step-idle income alike =
    Step-same (idles (λ closing. absurd (ground (arith, income, closing)))) alike

module _ (v w : View) (c : ℤ) (others : (j : ℤ) → same c j ≡ false → w j ≡ v j) where
  -- One session has become `x`.
  put_here : (x : Option Session) → w c ≡ x → (j : ℤ) → w j ≡ put c x v j
  put_here x here j = elim (Bool-cases (same c j)) [
    | inl it ↦ rw it (ap w (sym ((same_iff c j).0 it)) ∙ here)
    | inr other ↦ rw other (others j other)
  ]

  unchanged : {x : Option Session} → v c ≡ x → w c ≡ x → (j : ℤ) → w j ≡ v j
  unchanged {x} was here j = elim (Bool-cases (same c j)) [
    | inl it ↦ subst (λ i. w i ≡ v i) ((same_iff c j).0 it) (here ∙ sym was)
    | inr other ↦ others j other
  ]

  -- The client `c` has left.
  pub Step-left :
      {event : Event}
      → is_closing event ≡ true
      → belongs (v c) c event.fd ≡ true
      → w c ≡ none
      → Step event v w
  Step-left closing mine here = Step-same (leaves c closing mine) (put_here none here)

  by_entry :
      {event : Event} (x y : Option Session)
      → v c ≡ x
      → w c ≡ y
      → is_income event ≡ true
      → IsStranger v event.fd
      → (is_client v c ≡ true → w c ≡ v c)
      → (is_client v c ≡ false → is_client w c ≡ true → w c ≡ some none)
      → Step event v w
  by_entry none none was here income strange old new = Step-idle income (unchanged was here)
  by_entry none (some y) was here income strange old new =
      Step-same (joins c income strange (ground (arith, was)))
        (put_here (some none) (new (ground (arith, was)) (ground (arith, here))))
  by_entry (some x) y was here income strange old new =
      Step-idle income (unchanged was (old (ground (arith, was)) ∙ was))

  -- A client may have come.
  pub Step-entry :
      {event : Event}
      → is_income event ≡ true
      → IsStranger v event.fd
      → (is_client v c ≡ true → w c ≡ v c)
      → (is_client v c ≡ false → is_client w c ≡ true → w c ≡ some none)
      → Step event v w
  Step-entry = by_entry (v c) (w c) refl refl

module _ {event : Event} (v w : View) (others : (j : ℤ) → same event.fd j ≡ false → w j ≡ v j) where
  by_session :
      (y : Option Session)
      → w event.fd ≡ y
      → is_income event ≡ true
      → is_client v event.fd ≡ true
      → is_client w event.fd ≡ true
      → Step event v w
  by_session none here income was kept = absurd (ground (arith, here, kept))
  by_session (some none) here income was kept =
      Step-same (fails income was) (put_here v w event.fd others (some none) here)
  by_session (some (some (host, b))) here income was kept =
      Step-same (asks host b income was) (put_here v w event.fd others (some (some (host, b))) here)

  -- Bytes have come in from a client.
  pub Step-client :
      is_income event ≡ true
      → is_client v event.fd ≡ true
      → is_client w event.fd ≡ true
      → Step event v w
  Step-client = by_session (w event.fd) refl
