-- ===== src/Text/Find.antt =====
-- `std::string::find` and `substr`, with `npos` where there is no match.
use mathlib.Core.Option
use server_coursework.Base.{
  ℕ, suc, ◌+◌, ◌≤◌, ◌<◌, ◌≡◌, refl, ◌⊎◌, inl, inr, Bool, true, false, ◌&&◌, Option, none, some, [],
  ◌∷◌, ◌++◌, arith, ltb, ◌==◌, if◌then◌else◌, Option-cases, Bytes, length, take, drop, Lacks,
  Outcome, returns, throws, out_of_range, npos,
}

pub starts_with : Bytes → Bytes → Bool
starts_with [] s = true
starts_with (p ∷ pat) [] = false
starts_with (p ∷ pat) (c ∷ s) = p == c && starts_with pat s

-- The first position at which the pattern stands.
pub find? : Bytes → Bytes → Option ℕ
unfolding starts_with
find? pat [] = if starts_with pat [] then some 0 else none
find? pat (c ∷ s) = if starts_with pat (c ∷ s) then some 0 else Option.map suc (find? pat s)

-- `s.find(pat)`
unfoldable pub find : Bytes → Bytes → ℕ
unfolding find?
find s pat = elim (find? pat s) [ none ↦ npos | some n ↦ n ]

-- `s.substr(at, n)`
unfoldable pub substr : Bytes → ℕ → ℕ → Outcome Bytes
substr s at n = if ltb (length s) at then throws out_of_range else returns (take n (drop at s))

-- `s.substr(at)`
unfoldable pub substr_from : Bytes → ℕ → Outcome Bytes
substr_from s at = if ltb (length s) at then throws out_of_range else returns (drop at s)

pub starts_with-append : (pat s : Bytes) → starts_with pat (pat ++ s) ≡ true
unfolding starts_with
starts_with-append [] s = refl
starts_with-append (p ∷ pat) s = ground (arith, starts_with-append pat s)

starts_with-within : (pat s t : Bytes) → starts_with pat s ≡ true → starts_with pat (s ++ t) ≡ true
unfolding starts_with
starts_with-within [] s t h = refl
starts_with-within (p ∷ pat) [] t h = cc
starts_with-within (p ∷ pat) (c ∷ s) t h = ground (arith, starts_with-within pat s t)

starts_with-length : (pat s : Bytes) → starts_with pat s ≡ true → length pat ≤ length s
unfolding starts_with
starts_with-length [] s h = omega arith
starts_with-length (p ∷ pat) [] h = absurd (cc)
starts_with-length (p ∷ pat) (c ∷ s) h = ground (arith, starts_with-length pat s)

-- The match lies within the text.
pub find?-bound :
    (p : ℕ) (pat s : Bytes) {n : ℕ} → find? (p ∷ pat) s ≡ some n → n + suc (length pat) ≤ length s
unfolding find?
find?-bound p pat [] h = absurd (cc)
find?-bound p pat (c ∷ s) h = elim (Option-cases (find? (p ∷ pat) s)) [
  | inl missing ↦ ground (arith, starts_with-length (p ∷ pat) (c ∷ s))
  | inr (k, found) ↦ ground (arith, starts_with-length (p ∷ pat) (c ∷ s), find?-bound p pat s found)
]

-- Text shorter than the pattern holds no match.
find?_short : (p : ℕ) (pat s : Bytes) → length s < suc (length pat) → find? (p ∷ pat) s ≡ none
find?_short p pat s short = elim (Option-cases (find? (p ∷ pat) s)) [
  | inl missing ↦ missing
  | inr (k, found) ↦ absurd (omega (arith, find?-bound p pat s found))
]

starts_with_longer :
    (pat s t : Bytes)
    → starts_with pat s ≡ false
    → starts_with pat (s ++ t) ≡ true
    → length s < length pat
unfolding starts_with
starts_with_longer [] s t h g = absurd (cc)
starts_with_longer (p ∷ pat) [] t h g = omega arith
starts_with_longer (p ∷ pat) (c ∷ s) t h g = ground (arith, starts_with_longer pat s t)

-- Text added behind changes the result only where there was no match.
find?-within_or_none :
    (p : ℕ) (pat s t : Bytes)
    → (find? (p ∷ pat) (s ++ t) ≡ find? (p ∷ pat) s) ⊎ (find? (p ∷ pat) s ≡ none)
unfolding find?
find?-within_or_none p pat [] t = inr refl
find?-within_or_none p pat (c ∷ s) t = ground (
  arith,
  starts_with-within (p ∷ pat) (c ∷ s) t,
  starts_with_longer (p ∷ pat) (c ∷ s) t,
  find?_short p pat s,
  find?-within_or_none p pat s t,
)

pub find?-append_within :
    (p : ℕ) (pat s t : Bytes) {n : ℕ}
    → find? (p ∷ pat) s ≡ some n
    → find? (p ∷ pat) (s ++ t) ≡ some n
find?-append_within p pat s t h = ground (arith, find?-within_or_none p pat s t)

-- Behind text without the pattern's first byte the pattern is found where it stands.
pub find?-behind :
    (a : Bytes) (c : ℕ) (pat s : Bytes)
    → Lacks c a
    → find? (c ∷ pat) (a ++ ((c ∷ pat) ++ s)) ≡ some (length a)
unfolding find?
find?-behind [] c pat s h = ground (arith, starts_with-append pat s)
find?-behind (x ∷ a) c pat s (hx, ha) = ground (arith, find?-behind a c pat s ha)

-- Text without the pattern's first byte holds no match.
pub find?-Lacks : (a : Bytes) (c : ℕ) (pat : Bytes) → Lacks c a → find? (c ∷ pat) a ≡ none
unfolding find?
find?-Lacks [] c pat h = refl
find?-Lacks (x ∷ a) c pat (hx, ha) = ground (arith, find?-Lacks a c pat ha)
