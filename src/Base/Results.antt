-- ===== src/Base/Results.antt =====
-- What a call does: it returns, throws, never comes back, or uses an object that is gone.
use mathlib.Core.Path.{◌≡◌, refl}
use mathlib.Core.Logic.{◌≢◌, ◌⊎◌, inl, inr}

-- The exceptions that the program's calls of the standard library throw.
pub data Exception : Type 0 where
  out_of_range invalid_argument runtime_error length_error : Exception

-- `spins` stands for a loop that goes on without end, and `dangles` for the use of a reference or a
-- pointer whose object is gone, behind which anything may happen.
pub data Outcome {ℓ} (A : Type ℓ) : Type ℓ where
  returns : A → Outcome A
  throws : Exception → Outcome A
  spins : Outcome A
  dangles : Outcome A

infixl 5 ◌>>=◌
abbrev pub ◌>>=◌ {ℓ κ} : {A : Type ℓ} {B : Type κ} → Outcome A → (A → Outcome B) → Outcome B
returns a >>= f = f a
throws e >>= f = throws e
spins >>= f = spins
dangles >>= f = dangles

-- Inversion of a bind that returns.
pub >>=-eq-returns {ℓ κ} :
    {A : Type ℓ} {B : Type κ} (m : Outcome A) (f : A → Outcome B) {b : B}
    → (m >>= f) ≡ returns b
    → (a : A) × (m ≡ returns a) × (f a ≡ returns b)
>>=-eq-returns (returns a) f h = (a, refl, h)
>>=-eq-returns (throws e) f h = cc
>>=-eq-returns spins f h = cc
>>=-eq-returns dangles f h = cc

pub Outcome-cases {ℓ} :
    {A : Type ℓ} (m : Outcome A)
    → ((a : A) × (m ≡ returns a)) ⊎ ((e : Exception) × (m ≡ throws e)) ⊎ (m ≡ spins) ⊎ (m ≡ dangles)
Outcome-cases (returns a) = inl (a, refl)
Outcome-cases (throws e) = inr (inl (e, refl))
Outcome-cases spins = inr (inr (inl refl))
Outcome-cases dangles = inr (inr (inr refl))

-- The call comes back, and what it returns is as `P` says.
abbrev pub Ensures {ℓ} : {A : Type ℓ} → (A → Type 0) → Outcome A → Type 0
Ensures P (returns a) = P a
Ensures P (throws e) = Unit
Ensures P spins = ⊥
Ensures P dangles = ⊥

-- The call returns or throws.
abbrev pub ComesBack {ℓ} : {A : Type ℓ} → Outcome A → Type 0
ComesBack = Ensures (λ a. Unit)

pub Ensures-bind {ℓ κ} :
    {A : Type ℓ} {B : Type κ} (P : B → Type 0) (m : Outcome A) (f : A → Outcome B)
    → ComesBack m
    → ((a : A) → m ≡ returns a → Ensures P (f a))
    → Ensures P (m >>= f)
Ensures-bind P (returns a) f h k = k a refl
Ensures-bind P (throws e) f h k = tt
Ensures-bind P spins f h k = h
Ensures-bind P dangles f h k = h

pub Ensures-ne-spins {ℓ} : {A : Type ℓ} (P : A → Type 0) (m : Outcome A) → Ensures P m → m ≢ spins
Ensures-ne-spins P (returns a) h e = cc
Ensures-ne-spins P (throws x) h e = cc
Ensures-ne-spins P spins h e = absurd h
Ensures-ne-spins P dangles h e = absurd h

pub Ensures-ComesBack {ℓ} :
    {A : Type ℓ} (P : A → Type 0) (m : Outcome A) → Ensures P m → ComesBack m
Ensures-ComesBack P (returns a) h = tt
Ensures-ComesBack P (throws x) h = tt
Ensures-ComesBack P spins h = h
Ensures-ComesBack P dangles h = h

pub Ensures-map {ℓ κ} :
    {A : Type ℓ} {B : Type κ} (P : B → Type 0) (m : Outcome A) (g : A → B)
    → Ensures (λ a. P (g a)) m
    → Ensures P (m >>= λ a. returns (g a))
Ensures-map P (returns a) g h = h
Ensures-map P (throws e) g h = h
Ensures-map P spins g h = h
Ensures-map P dangles g h = h

-- A step of a chain that is known to return.
pub returns-bind {ℓ κ} :
    {A : Type ℓ} {B : Type κ} {m : Outcome A} {a : A} (f : A → Outcome B) {r : Outcome B}
    → m ≡ returns a
    → f a ≡ r
    → (m >>= f) ≡ r
returns-bind {m = returns x} f e h = cc
returns-bind {m = throws x} f e h = absurd (cc)
returns-bind {m = spins} f e h = absurd (cc)
returns-bind {m = dangles} f e h = absurd (cc)

pub throws-bind {ℓ κ} :
    {A : Type ℓ} {B : Type κ} {m : Outcome A} {e : Exception} (f : A → Outcome B)
    → m ≡ throws e
    → (m >>= f) ≡ throws e
throws-bind {m = returns x} f h = absurd (cc)
throws-bind {m = throws x} f h = cc
throws-bind {m = spins} f h = absurd (cc)
throws-bind {m = dangles} f h = absurd (cc)

pub returns-injective {ℓ} : {A : Type ℓ} {a b : A} → returns a ≡ returns b → a ≡ b
returns-injective e = cc

pub Ensures-weaken {ℓ} :
    {A : Type ℓ} (P Q : A → Type 0) (m : Outcome A)
    → ((a : A) → P a → Q a)
    → Ensures P m
    → Ensures Q m
Ensures-weaken P Q (returns a) k h = k a h
Ensures-weaken P Q (throws e) k h = h
Ensures-weaken P Q spins k h = h
Ensures-weaken P Q dangles k h = h

-- The call uses no object that is gone, and what it returns, if it does, is as `P` says.
abbrev pub Secures {ℓ} : {A : Type ℓ} → (A → Type 0) → Outcome A → Type 0
Secures P (returns a) = P a
Secures P (throws e) = Unit
Secures P spins = Unit
Secures P dangles = ⊥

pub Secures-bind {ℓ κ} :
    {A : Type ℓ} {B : Type κ} (P : A → Type 0) (Q : B → Type 0) (m : Outcome A) (f : A → Outcome B)
    → Secures P m
    → ((a : A) → P a → Secures Q (f a))
    → Secures Q (m >>= f)
Secures-bind P Q (returns a) f h k = k a h
Secures-bind P Q (throws e) f h k = h
Secures-bind P Q spins f h k = h
Secures-bind P Q dangles f h k = h

pub Secures-map {ℓ} :
    {A : Type ℓ} (P Q : A → Type 0) (m : Outcome A)
    → Secures P m
    → ((a : A) → P a → Q a)
    → Secures Q m
Secures-map P Q (returns a) h k = k a h
Secures-map P Q (throws e) h k = h
Secures-map P Q spins h k = h
Secures-map P Q dangles h k = h

-- What is true of a made value whatever it is made of.
pub Secures-made {ℓ κ} :
    {A : Type ℓ} {B : Type κ} (P Q : B → Type 0) (m : Outcome A) (g : A → B)
    → Secures P (m >>= λ a. returns (g a))
    → ((a : A) → Q (g a))
    → Secures (λ b. P b × Q b) (m >>= λ a. returns (g a))
Secures-made P Q (returns a) g h k = (h, k a)
Secures-made P Q (throws e) g h k = h
Secures-made P Q spins g h k = h
Secures-made P Q dangles g h k = h

-- The call uses no object that is gone.
abbrev pub IsSound {ℓ} : {A : Type ℓ} → Outcome A → Type 0
IsSound = Secures (λ a. Unit)

pub IsSound-bind {ℓ κ} :
    {A : Type ℓ} {B : Type κ} (m : Outcome A) (f : A → Outcome B)
    → IsSound m
    → ((a : A) → IsSound (f a))
    → IsSound (m >>= f)
IsSound-bind m f h k = Secures-bind (λ a. Unit) (λ b. Unit) m f h λ a u. k a
