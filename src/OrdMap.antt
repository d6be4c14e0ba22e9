-- ===== src/OrdMap.antt =====
-- `std::map`: entries in the order of their keys. The order is an instance.
pub mod Laws
pub mod Rebuild
pub mod Keys
use server_coursework.Base.{
  ℕ, ◌≡◌, Bool, true, false, not, ◌&&◌, Option, none, some, List, [], ◌∷◌, if◌then◌else◌, ltb,
  Bytes, ◌==◌, ◌||◌, arith,
}

-- `operator<` of the keys, with the laws that `std::map` asks of it.
pub record Less {ℓ} (K : Type ℓ) : Type ℓ where
  pub less : K → K → Bool
  pub irrefl : (a : K) → less a a ≡ false
  pub trans : (a b c : K) → less a b ≡ true → less b c ≡ true → less a c ≡ true
  pub total : (a b : K) → less a b ≡ false → less b a ≡ false → a ≡ b

abbrev pub OrdMap : Type 0 → Type 0 → Type 0
OrdMap K V = List (K × V)

module _ {K : Type 0} ⦃o : Less K⦄ where
  -- Two keys are one to the map if neither is in front of the other.
  abbrev pub same : K → K → Bool
  same a b = not (o.less a b) && not (o.less b a)

module _ {K V : Type 0} ⦃o : Less K⦄ where
  -- `m.find(k)`
  unfoldable pub lookup : K → OrdMap K V → Option V
  lookup k [] = none
  lookup k ((j, w) ∷ m) = if same j k then some w else lookup k m

  -- `m.find(k) != m.end()`
  abbrev pub has_key : K → OrdMap K V → Bool
  has_key k m = elim (lookup k m) [ none ↦ false | some _ ↦ true ]

  -- `m[k] = v`
  unfoldable pub assign : K → V → OrdMap K V → OrdMap K V
  assign k v [] = (k, v) ∷ []
  assign k v ((j, w) ∷ m) =
      if o.less k j
      then (k, v) ∷ (j, w) ∷ m
      else if o.less j k
      then (j, w) ∷ assign k v m
      else (j, v) ∷ m

  -- `m.insert(make_pair(k, v))` and `m.emplace(k, v)`: an entry that is there stays.
  unfoldable pub insert : K → V → OrdMap K V → OrdMap K V
  insert k v [] = (k, v) ∷ []
  insert k v ((j, w) ∷ m) =
      if o.less k j
      then (k, v) ∷ (j, w) ∷ m
      else if o.less j k
      then (j, w) ∷ insert k v m
      else (j, w) ∷ m

  -- `m.erase(k)`
  unfoldable pub erase : K → OrdMap K V → OrdMap K V
  erase k [] = []
  erase k ((j, w) ∷ m) = if same j k then erase k m else (j, w) ∷ erase k m
