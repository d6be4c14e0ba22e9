-- ===== src/Message/Line.antt =====
-- `int next = unparsed.find("\r\n")`: where the first line ends.
use server_coursework.Base.{
  ℕ, ◌+◌, ◌^◌, ◌≤◌, ◌<◌, ◌≡◌, refl, ◌⊎◌, inl, inr, none, some, ◌++◌, [], ◌∷◌, arith, Option-cases,
  Bytes, length, ℤ, pos, negsuc, npos, int_of_size, Lacks,
}
use server_coursework.Text.Find.{
  find?, find, find?-bound, find?-append_within, find?-behind, find?-Lacks,
}
use server_coursework.Message.{crlf}

-- A text whose positions are `int` values.
abbrev pub Fits : Bytes → Type 0
Fits s = length s < 2 ^ 31

abbrev pub next_of : Bytes → ℤ
next_of s = int_of_size (find s crlf)

int_of_small : (n : ℕ) → n < 2 ^ 31 → int_of_size n ≡ pos n
int_of_small n h = ground arith

pub next-some : (s : Bytes) {n : ℕ} → Fits s → find? crlf s ≡ some n → next_of s ≡ pos n
unfolding find
next-some s {n} fits h = rw (h, find) (int_of_small n (omega (arith, find?-bound 13 (10 ∷ []) s h)))

pub next-none : (s : Bytes) → find? crlf s ≡ none → next_of s ≡ negsuc 0
unfolding find
next-none s h = rw (h, find) refl

pub next-behind :
    (a s : Bytes)
    → Lacks 13 a
    → Fits (a ++ (crlf ++ s))
    → next_of (a ++ (crlf ++ s)) ≡ pos (length a)
next-behind a s h fits = next-some _ fits (find?-behind a 13 (10 ∷ []) s h)

pub next-Lacks : (a : Bytes) → Lacks 13 a → next_of a ≡ negsuc 0
next-Lacks a h = next-none a (find?-Lacks a 13 (10 ∷ []) h)

pub next-cases :
    (s : Bytes)
    → Fits s
    → ((n : ℕ) × (find? crlf s ≡ some n) × (next_of s ≡ pos n) × (n + 2 ≤ length s))
      ⊎ ((find? crlf s ≡ none) × (next_of s ≡ negsuc 0))
next-cases s fits = elim (Option-cases (find? crlf s)) [
  | inl missing ↦ inr (missing, next-none s missing)
  | inr (n, found) ↦ inl (n, found, next-some s fits found, find?-bound 13 (10 ∷ []) s found)
]

-- Text added behind leaves a line that has ended as it is.
pub next-append_within :
    (s t : Bytes) {n : ℕ} → Fits (s ++ t) → find? crlf s ≡ some n → next_of (s ++ t) ≡ pos n
next-append_within s t fits h = next-some (s ++ t) fits (find?-append_within 13 (10 ∷ []) s t h)

-- A position in the text, or none.
pub find-cases : (s : Bytes) → Fits s → (find s crlf + 2 ≤ length s) ⊎ (find s crlf ≡ npos)
unfolding find
find-cases s fits = elim (Option-cases (find? crlf s)) [
  | inl missing ↦ inr (rw (missing, find) refl)
  | inr (n, found) ↦ inl (rw (found, find) (find?-bound 13 (10 ∷ []) s found))
]
