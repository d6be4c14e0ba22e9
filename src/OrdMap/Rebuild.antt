-- ===== src/OrdMap/Rebuild.antt =====
-- A map built anew from its entries in order.
use server_coursework.Base.{
  ◌≡◌, refl, sym, ◌∙◌, true, [], ◌∷◌, ◌++◌, append_assoc, append-nil, arith,
}
use server_coursework.OrdMap.{Less, OrdMap, assign, insert}
use server_coursework.OrdMap.Laws.{Above, IsSorted}

module _ {K V : Type 0} ⦃o : Less K⦄ where
  -- `m[k] = v` for each entry in turn.
  unfoldable pub assign_all : OrdMap K V → OrdMap K V → OrdMap K V
  assign_all acc [] = acc
  assign_all acc ((k, v) ∷ m) = assign_all (assign k v acc) m

  Above-key :
      (j k : K) (v : V) (acc m : OrdMap K V) → Above j (acc ++ (k, v) ∷ m) → o.less j k ≡ true
  Above-key j k v [] m a = a.0
  Above-key j k v (e ∷ acc) m a = Above-key j k v acc m a.1

  pub assign-last :
      (k : K) (v : V) (acc m : OrdMap K V)
      → IsSorted (acc ++ (k, v) ∷ m)
      → assign k v acc ≡ acc ++ (k, v) ∷ []
  unfolding assign
  assign-last k v [] m s = refl
  assign-last k v ((j, w) ∷ acc) m s =
      ground
        (arith, Above-key j k v acc m s.0, o.trans j k j, o.irrefl j, assign-last k v acc m s.1)

  pub insert-last :
      (k : K) (v : V) (acc m : OrdMap K V)
      → IsSorted (acc ++ (k, v) ∷ m)
      → insert k v acc ≡ acc ++ (k, v) ∷ []
  unfolding insert
  insert-last k v [] m s = refl
  insert-last k v ((j, w) ∷ acc) m s =
      ground
        (arith, Above-key j k v acc m s.0, o.trans j k j, o.irrefl j, insert-last k v acc m s.1)

  assign_all-append : (acc m : OrdMap K V) → IsSorted (acc ++ m) → assign_all acc m ≡ acc ++ m
  unfolding assign_all
  assign_all-append acc [] s = sym (append-nil acc)
  assign_all-append acc ((k, v) ∷ m) s = rw (assign-last k v acc m s) (
      assign_all-append (acc ++ (k, v) ∷ []) m (rw (append_assoc acc ((k, v) ∷ []) m) s)
      ∙ append_assoc acc ((k, v) ∷ []) m)

  -- Writing the entries of a map in order into an empty map gives the map.
  pub assign_all_sorted : (m : OrdMap K V) → IsSorted m → assign_all [] m ≡ m
  assign_all_sorted m s = assign_all-append [] m s

  -- `m.insert(make_pair(k, v))` for each entry in turn.
  unfoldable pub insert_all : OrdMap K V → OrdMap K V → OrdMap K V
  insert_all acc [] = acc
  insert_all acc ((k, v) ∷ m) = insert_all (insert k v acc) m

  insert_all-append : (acc m : OrdMap K V) → IsSorted (acc ++ m) → insert_all acc m ≡ acc ++ m
  unfolding insert_all
  insert_all-append acc [] s = sym (append-nil acc)
  insert_all-append acc ((k, v) ∷ m) s = rw (insert-last k v acc m s) (
      insert_all-append (acc ++ (k, v) ∷ []) m (rw (append_assoc acc ((k, v) ∷ []) m) s)
      ∙ append_assoc acc ((k, v) ∷ []) m)

  pub insert_all_sorted : (m : OrdMap K V) → IsSorted m → insert_all [] m ≡ m
  insert_all_sorted m s = insert_all-append [] m s
