-- ===== src/OrdMap/Laws.antt =====
-- What each operation does to each key, and that the entries stay in order.
use mathlib.Core.Logic.{◌↔◌}
use server_coursework.Base.{false, ◌≡◌, refl, true, none, some, [], ◌∷◌, if◌then◌else◌, arith, All}
use server_coursework.OrdMap.{has_key, Less, OrdMap, same, lookup, assign, insert, erase}

module _ {K : Type 0} ⦃o : Less K⦄ where
  pub same_iff : (a b : K) → (same a b ≡ true) ↔ (a ≡ b)
  same_iff a b = ground (arith, o.total a b, o.irrefl a)

  pub same_refl : (a : K) → same a a ≡ true
  same_refl a = rw (o.irrefl a)

module _ {K V : Type 0} ⦃o : Less K⦄ where
  pub lookup-assign :
      (j k : K) (v : V) (m : OrdMap K V)
      → lookup j (assign k v m) ≡ (if same k j then some v else lookup j m)
  unfolding lookup assign
  lookup-assign j k v [] = refl
  lookup-assign j k v ((i, w) ∷ m) = ground (
    arith,
    same_iff k j,
    same_iff i k,
    same_iff i j,
    o.total i k,
    o.irrefl i,
    o.irrefl k,
    lookup-assign j k v m,
  )

  pub lookup-erase :
      (j k : K) (m : OrdMap K V) → lookup j (erase k m) ≡ (if same k j then none else lookup j m)
  unfolding lookup erase
  lookup-erase j k [] = ground arith
  lookup-erase j k ((i, w) ∷ m) =
      ground (arith, same_iff k j, same_iff i k, same_iff i j, same_iff j k, lookup-erase j k m)

  -- Every key of the map is behind `k`.
  abbrev pub Above : K → OrdMap K V → Type 0
  Above k = All (λ e. o.less k e.0 ≡ true)

  abbrev pub IsSorted : OrdMap K V → Type 0
  IsSorted [] = Unit
  IsSorted ((k, v) ∷ m) = Above k m × IsSorted m

  Above-trans : (j k : K) (m : OrdMap K V) → o.less j k ≡ true → Above k m → Above j m
  Above-trans j k [] h a = tt
  Above-trans j k ((i, w) ∷ m) h a = (o.trans j k i h a.0, Above-trans j k m h a.1)

  assign-Above :
      (j k : K) (v : V) (m : OrdMap K V) → o.less j k ≡ true → Above j m → Above j (assign k v m)
  unfolding assign
  assign-Above j k v [] h a = (h, tt)
  assign-Above j k v ((i, w) ∷ m) h a = ground (arith, assign-Above j k v m h a.1)

  pub assign-IsSorted : (k : K) (v : V) (m : OrdMap K V) → IsSorted m → IsSorted (assign k v m)
  unfolding assign
  assign-IsSorted k v [] s = (tt, tt)
  assign-IsSorted k v ((i, w) ∷ m) s =
      ground (arith, assign-IsSorted k v m s.1, Above-trans k i m, assign-Above i k v m)

  insert-Above :
      (j k : K) (v : V) (m : OrdMap K V) → o.less j k ≡ true → Above j m → Above j (insert k v m)
  unfolding insert
  insert-Above j k v [] h a = (h, tt)
  insert-Above j k v ((i, w) ∷ m) h a = ground (arith, insert-Above j k v m h a.1)

  lookup-Above : (k : K) (m : OrdMap K V) → Above k m → lookup k m ≡ none
  unfolding lookup
  lookup-Above k [] a = refl
  lookup-Above k ((i, w) ∷ m) a = ground (arith, same_iff i k, o.irrefl i, lookup-Above k m a.1)

  pub lookup-insert :
      (j k : K) (v : V) (m : OrdMap K V)
      → IsSorted m
      → lookup j (insert k v m)
        ≡ (if same k j then elim (lookup k m) [ none ↦ some v | some w ↦ some w ] else lookup j m)
  unfolding lookup insert
  lookup-insert j k v [] s = refl
  lookup-insert j k v ((i, w) ∷ m) s = ground (
    arith,
    same_iff k j,
    same_iff i k,
    same_iff i j,
    o.total i k,
    o.irrefl i,
    o.irrefl k,
    lookup-Above k m,
    Above-trans k i m,
    lookup-insert j k v m s.1,
  )

  pub insert-IsSorted : (k : K) (v : V) (m : OrdMap K V) → IsSorted m → IsSorted (insert k v m)
  unfolding insert
  insert-IsSorted k v [] s = (tt, tt)
  insert-IsSorted k v ((i, w) ∷ m) s =
      ground (arith, insert-IsSorted k v m s.1, Above-trans k i m, insert-Above i k v m)

  erase-Above : (j k : K) (m : OrdMap K V) → Above j m → Above j (erase k m)
  unfolding erase
  erase-Above j k [] a = tt
  erase-Above j k ((i, w) ∷ m) a = ground (arith, erase-Above j k m a.1)

  pub erase-IsSorted : (k : K) (m : OrdMap K V) → IsSorted m → IsSorted (erase k m)
  unfolding erase
  erase-IsSorted k [] s = tt
  erase-IsSorted k ((i, w) ∷ m) s = ground (arith, erase-IsSorted k m s.1, erase-Above i k m s.0)

  pub erase-none : (k : K) (m : OrdMap K V) → lookup k m ≡ none → erase k m ≡ m
  unfolding lookup erase
  erase-none k [] e = refl
  erase-none k ((i, w) ∷ m) e = ground (arith, erase-none k m)

  -- Erasing a key that was new takes the map back.
  pub erase-insert :
      (k : K) (v : V) (m : OrdMap K V) → lookup k m ≡ none → erase k (insert k v m) ≡ m
  unfolding lookup insert erase
  erase-insert k v [] e = ground (arith, same_refl k)
  erase-insert k v ((i, w) ∷ m) e = ground (arith, same_refl k, erase-none k m, erase-insert k v m)

  pub erase-assign : (k : K) (v : V) (m : OrdMap K V) → erase k (assign k v m) ≡ erase k m
  unfolding assign erase
  erase-assign k v [] = ground (arith, same_refl k)
  erase-assign k v ((i, w) ∷ m) = ground (arith, same_refl k, erase-assign k v m)

  -- Writing over an entry and writing the old value again takes the map back.
  pub assign-assign :
      (k : K) (v w : V) (m : OrdMap K V)
      → IsSorted m
      → lookup k m ≡ some v
      → assign k v (assign k w m) ≡ m
  unfolding assign lookup
  assign-assign k v w [] s e = absurd (ground (arith, e))
  assign-assign k v w ((i, u) ∷ m) s e = ground (
    arith,
    e,
    o.irrefl k,
    same_iff i k,
    assign-assign k v w m s.1,
    lookup-Above k m,
    Above-trans k i m,
    s.0,
  )

  pub lookup-insert-other :
      (j k : K) (v : V) (m : OrdMap K V) → same k j ≡ false → lookup j (insert k v m) ≡ lookup j m
  unfolding lookup insert
  lookup-insert-other j k v [] other = ground (arith, other)
  lookup-insert-other j k v ((i, w) ∷ m) other =
      ground (arith, other, lookup-insert-other j k v m other)

  pub has_key-insert : (k : K) (v : V) (m : OrdMap K V) → has_key k (insert k v m) ≡ true
  unfolding lookup insert
  has_key-insert k v [] = ground (arith, same_refl k)
  has_key-insert k v ((i, w) ∷ m) =
      ground (arith, same_refl k, o.irrefl k, same_iff i k, has_key-insert k v m)
