-- ===== src/Text/Cut.antt =====
-- How `find` and `substr` together cut a text at a delimiter.
use server_coursework.Base.{
  ℕ, suc, ◌+◌, ◌^◌, ◌≤◌, ◌<◌, ◌≡◌, ap, ◌∙◌, ◌∷◌, ◌++◌, append_assoc, arith, Bytes, length, drop,
  take-append, drop-append, take_all, length-append, Lacks, returns, throws, out_of_range, npos,
  add_size,
}
use server_coursework.Text.Find.{find, substr, substr_from, find?-behind, find?-Lacks}

pub find-behind :
    (a : Bytes) (c : ℕ) (pat s : Bytes)
    → Lacks c a
    → find (a ++ ((c ∷ pat) ++ s)) (c ∷ pat) ≡ length a
unfolding find
find-behind a c pat s h = rw (find?-behind a c pat s h, find)

pub find-Lacks : (a : Bytes) (c : ℕ) (pat : Bytes) → Lacks c a → find a (c ∷ pat) ≡ npos
unfolding find
find-Lacks a c pat h = rw (find?-Lacks a c pat h, find)

pub substr-prefix : (a s : Bytes) → substr (a ++ s) 0 (length a) ≡ returns a
unfolding substr
substr-prefix a s = rw (take-append a s) (ground arith)

pub substr-npos : (s : Bytes) → length s < 2 ^ 31 → substr s 0 npos ≡ returns s
unfolding substr
substr-npos s h = rw (take_all npos s (omega arith)) (ground arith)

pub substr_from_within :
    (s : Bytes) (at : ℕ) → at ≤ length s → substr_from s at ≡ returns (drop at s)
unfolding substr_from
substr_from_within s at h = ground arith

pub substr_from_beyond :
    (s : Bytes) (at : ℕ) → length s < at → substr_from s at ≡ throws out_of_range
unfolding substr_from
substr_from_beyond s at h = ground arith

-- `s.substr(0, s.find(d))` is the text in front of the delimiter.
pub substr-find :
    (a : Bytes) (c : ℕ) (pat s : Bytes)
    → Lacks c a
    → substr (a ++ ((c ∷ pat) ++ s)) 0 (find (a ++ ((c ∷ pat) ++ s)) (c ∷ pat)) ≡ returns a
substr-find a c pat s h = rw (find-behind a c pat s h) (substr-prefix a _)

pub drop-two : (a b s : Bytes) → drop (length a + length b) (a ++ (b ++ s)) ≡ s
drop-two a b s = rw (← length-append a b, ← append_assoc a b s) (drop-append (a ++ b) s)

-- `s.substr(s.find(d) + d.length())` is the text behind the delimiter.
pub substr_from-find :
    (a : Bytes) (c : ℕ) (pat s : Bytes)
    → Lacks c a
    → length (a ++ ((c ∷ pat) ++ s)) < 2 ^ 31
    → substr_from
        (a ++ ((c ∷ pat) ++ s))
        (add_size (find (a ++ ((c ∷ pat) ++ s)) (c ∷ pat)) (suc (length pat)))
      ≡ returns s
substr_from-find a c pat s h fits =
    rw (find-behind a c pat s h) (
      rw sum (substr_from_within _ _ (omega (arith, l1, l2)) ∙ ap returns (drop-two a (c ∷ pat) s)))
  where
    l1 : length (a ++ ((c ∷ pat) ++ s)) ≡ length a + length ((c ∷ pat) ++ s)
    l1 = length-append a ((c ∷ pat) ++ s)

    l2 : length ((c ∷ pat) ++ s) ≡ suc (length pat) + length s
    l2 = length-append (c ∷ pat) s

    sum : add_size (length a) (suc (length pat)) ≡ length a + length (c ∷ pat)
    sum = omega (arith, l1, l2)
