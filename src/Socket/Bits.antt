-- ===== src/Socket/Bits.antt =====
-- `|` and `^` of two `int`s that are not negative, bit by bit.
use server_coursework.Base.{
  ℕ, zero, suc, ◌+◌, ◌*◌, ◌/◌, ◌%◌, ◌^◌, ◌<◌, ◌≡◌, ap, ◌∙◌, arith, if◌then◌else◌, ◌==◌,
}

unfoldable pub or_bits : ℕ → ℕ → ℕ → ℕ
or_bits zero a b = 0
or_bits (suc width) a b = (if a % 2 + b % 2 == 0 then 0 else 1) + 2 * or_bits width (a / 2) (b / 2)

unfoldable pub xor_bits : ℕ → ℕ → ℕ → ℕ
xor_bits zero a b = 0
xor_bits (suc width) a b = (a % 2 + b % 2) % 2 + 2 * xor_bits width (a / 2) (b / 2)

-- The same flag twice changes nothing.
pub xor_bits_twice : (width a b : ℕ) → a < 2 ^ width → xor_bits width (xor_bits width a b) b ≡ a
unfolding xor_bits
xor_bits_twice zero a b h = omega arith
xor_bits_twice (suc width) a b h =
    ap (λ n. (x % 2 + b % 2) % 2 + 2 * xor_bits width n (b / 2)) half
    ∙ omega (arith, xor_bits_twice width (a / 2) (b / 2) (omega (arith, h)))
  where
    x : ℕ
    x = xor_bits (suc width) a b

    half : x / 2 ≡ xor_bits width (a / 2) (b / 2)
    half = omega arith

-- A bit of the result.
abbrev pub bit : ℕ → ℕ → ℕ
bit zero a = a % 2
bit (suc place) a = bit place (a / 2)

pub bit-xor_bits :
    (place width a b : ℕ)
    → place < width
    → bit place (xor_bits width a b) ≡ (bit place a + bit place b) % 2
unfolding xor_bits
bit-xor_bits place zero a b h = absurd (omega arith)
bit-xor_bits zero (suc width) a b h = omega arith
bit-xor_bits (suc place) (suc width) a b h =
    ap (bit place) (omega arith) ∙ bit-xor_bits place width (a / 2) (b / 2) (omega arith)
