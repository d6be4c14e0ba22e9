-- ===== src/Response/Sizes.antt =====
-- The lines of sizes that `commit` writes, as `stoul` reads them.
use server_coursework.Base.{
  ℕ, zero, suc, ◌<◌, ◌≡◌, refl, ap, ◌∙◌, Bool, true, false, not, ◌&&◌, [], ◌∷◌, arith, ◌==◌,
  Bool-cases, inl, inr, Bytes, codes, Lacks, Outcome, returns, throws, spins, dangles,
}
use server_coursework.Text.Number.{stoul}
use server_coursework.Response.Commit.{int_to_hex, chunk_size}
use server_coursework.Response.Chunks.{IsSize}

lacks_return : Bytes → Bool
lacks_return [] = true
lacks_return (c ∷ s) = not (c == 13) && lacks_return s

lacks_return-Lacks : (s : Bytes) → lacks_return s ≡ true → Lacks 13 s
unfolding lacks_return
lacks_return-Lacks [] e = tt
lacks_return-Lacks (c ∷ s) e = (ground arith, lacks_return-Lacks s (ground arith))

reads_as : ℕ → Outcome ℕ → Bool
reads_as n (returns m) = m == n
reads_as n (throws e) = false
reads_as n spins = false
reads_as n dangles = false

reads_as-returns : (n : ℕ) (o : Outcome ℕ) → reads_as n o ≡ true → o ≡ returns n
unfolding reads_as
reads_as-returns n (returns m) e = ap returns (ground arith)
reads_as-returns n (throws x) e = absurd (ground arith)
reads_as-returns n spins e = absurd (ground arith)
reads_as-returns n dangles e = absurd (ground arith)

size_line : ℕ → Bool
unfolding lacks_return reads_as stoul int_to_hex
size_line n = lacks_return (int_to_hex 8 n) && reads_as n (stoul (int_to_hex 8 n))

size_lines : ℕ → Bool
unfolding size_line
size_lines zero = true
size_lines (suc n) = size_line n && size_lines n

below : (k n : ℕ) → size_lines k ≡ true → n < k → size_line n ≡ true
unfolding size_lines
below zero n e h = absurd (omega arith)
below (suc k) n e h = elim (Bool-cases (n == k)) [
  | inl same ↦ ap size_line {x = n} {y = k} (ground arith) ∙ here
  | inr other ↦ below k n there (ground arith)
]
  where
    here : size_line k ≡ true
    here = ground arith

    there : size_lines k ≡ true
    there = ground arith

hundred : size_lines 100 ≡ true
unfolding size_lines
hundred = refl

-- The remainder's line reads as the remainder.
pub rest-IsSize : (n : ℕ) → n < 100 → IsSize (int_to_hex 8 n) n
unfolding size_line
rest-IsSize n h =
    let e = below 100 n hundred h in
    record {
      one_line = lacks_return-Lacks (int_to_hex 8 n) (ground arith);
      reads = reads_as-returns n (stoul (int_to_hex 8 n)) (ground arith);
    }

pub zero-IsSize : IsSize (codes "0") 0
unfolding stoul
zero-IsSize = record { one_line = omega arith; reads = refl }

pub full-IsSize : IsSize (int_to_hex 4 chunk_size) chunk_size
unfolding int_to_hex stoul
full-IsSize = record { one_line = omega arith; reads = refl }
