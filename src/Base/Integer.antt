-- ===== src/Base/Integer.antt =====
-- Signed values, and the conversions between the widths that the program uses.
use Prim.Native.Nat.{ℕ, ◌+◌, ◌-◌, ◌%◌, ◌^◌}
use mathlib.Core.Path.{◌≡◌, ap}
use mathlib.Core.Bool.{Bool, true, false}
use native.Mathlib.Omega.{arith}
use server_coursework.Base.Tests.{ltb, ◌==◌, if◌then◌else◌}

-- `negsuc n` is -(n + 1).
pub data ℤ : Type 0 where
  pos : ℕ → ℤ
  negsuc : ℕ → ℤ

-- `std::size_t` has 64 bits, and `int` and `unsigned int` have 32.
abbrev pub size_mod : ℕ
size_mod = 2 ^ 64

abbrev pub word_mod : ℕ
word_mod = 2 ^ 32

-- `std::string::npos`
abbrev pub npos : ℕ
npos = 2 ^ 64 - 1

-- `a + b` in `std::size_t`
abbrev pub add_size : ℕ → ℕ → ℕ
add_size a b = (a + b) % size_mod

-- `(int) n`
abbrev pub int_of_size : ℕ → ℤ
int_of_size n =
    if ltb (n % word_mod) (2 ^ 31) then pos (n % word_mod) else negsuc (word_mod - 1 - n % word_mod)

-- `(std::size_t) z` for an `int` z
abbrev pub size_of_int : ℤ → ℕ
size_of_int (pos n) = n
size_of_int (negsuc n) = size_mod - 1 - n

-- `-n`
abbrev pub negate : ℕ → ℤ
negate n = elim n [ ℕ.zero ↦ pos 0 | ℕ.suc k ↦ negsuc k ]

-- `z + 2` in `int`, below the largest value
abbrev pub add_two : ℤ → ℤ
add_two (pos n) = pos (n + 2)
add_two (negsuc n) = elim n [
  | ℕ.zero ↦ pos 1
  | ℕ.suc m ↦ elim m [ ℕ.zero ↦ pos 0 | ℕ.suc k ↦ negsuc k ]
]

-- `==` of two `int`s
abbrev pub int_eq : ℤ → ℤ → Bool
int_eq (pos a) (pos b) = a == b
int_eq (negsuc a) (negsuc b) = a == b
int_eq _ _ = false

pub int_eq→≡ : (a b : ℤ) → int_eq a b ≡ true → a ≡ b
int_eq→≡ (pos a) (pos b) e = ap pos (ground arith)
int_eq→≡ (negsuc a) (negsuc b) e = ap negsuc (ground arith)
int_eq→≡ (pos a) (negsuc b) e = absurd (cc)
int_eq→≡ (negsuc a) (pos b) e = absurd (cc)

pub int_eq_refl : (a : ℤ) → int_eq a a ≡ true
int_eq_refl (pos a) = ground arith
int_eq_refl (negsuc a) = ground arith
