-- ===== src/Text/Number.antt =====
-- `std::stoi`, `std::stoul(…, 16)` and `std::to_string`.
use server_coursework.Base.{
  ℕ, zero, suc, ◌+◌, ◌-◌, ◌*◌, ◌/◌, ◌%◌, ◌^◌, ◌≡◌, refl, Bool, true, false, ◌&&◌, ◌||◌, Option,
  none, some, [], ◌∷◌, ltb, leb, ◌==◌, if◌then◌else◌, Bytes, codes, Outcome, returns, throws,
  out_of_range, invalid_argument, ℤ, pos, negsuc, negate, size_mod,
}

-- `std::isspace`
unfoldable pub is_space : ℕ → Bool
is_space c = c == 32 || (leb 9 c && leb c 13)

skip_space : Bytes → Bytes
unfolding is_space
skip_space [] = []
skip_space (c ∷ s) = if is_space c then skip_space s else c ∷ s

-- The value of a letter or a digit; other bytes are above every base.
symbol : ℕ → ℕ
symbol c =
    if leb b'0' c && leb c b'9'
    then c - b'0'
    else if leb b'a' c && leb c b'z'
    then c - b'a' + 10
    else if leb b'A' c && leb c b'Z'
    then c - b'A' + 10
    else 255

digit? : ℕ → ℕ → Option ℕ
unfolding symbol
digit? base c = if ltb (symbol c) base then some (symbol c) else none

-- The value of the digits at the front, behind the value `n`.
scan : ℕ → ℕ → Bytes → ℕ
unfolding digit?
scan base n [] = n
scan base n (c ∷ s) = elim (digit? base c) [ none ↦ n | some d ↦ scan base (n * base + d) s ]

magnitude : ℕ → Bytes → Option ℕ
unfolding scan
magnitude base [] = none
magnitude base (c ∷ s) = elim (digit? base c) [ none ↦ none | some d ↦ some (scan base d s) ]

-- Whether there is a minus, and what is behind the sign.
sign : Bytes → Bool × Bytes
sign [] = (false, [])
sign (c ∷ s) = if c == b'-' then (true, s) else if c == b'+' then (false, s) else (false, c ∷ s)

-- `0x` counts only in front of a digit.
skip_prefix : Bytes → Bytes
unfolding digit?
skip_prefix (z ∷ x ∷ c ∷ s) =
    if z == b'0' && (x == b'x' || x == b'X')
    then elim (digit? 16 c) [ none ↦ z ∷ x ∷ c ∷ s | some d ↦ c ∷ s ]
    else z ∷ x ∷ c ∷ s
skip_prefix s = s

int_in_range : Bool → ℕ → Outcome ℤ
int_in_range true n = if leb n (2 ^ 31) then returns (negate n) else throws out_of_range
int_in_range false n = if ltb n (2 ^ 31) then returns (pos n) else throws out_of_range

long_in_range : Bool → ℕ → Outcome ℕ
long_in_range negative n =
    if ltb n size_mod
    then returns (if negative then (size_mod - n) % size_mod else n)
    else throws out_of_range

-- `std::stoi(s)`
unfoldable pub stoi : Bytes → Outcome ℤ
unfolding skip_space magnitude sign int_in_range
stoi s =
    let signed = sign (skip_space s) in
    elim (magnitude 10 signed.1) [
      | none ↦ throws invalid_argument
      | some n ↦ int_in_range signed.0 n
    ]

-- `std::stoul(s, nullptr, 16)`
unfoldable pub stoul : Bytes → Outcome ℕ
unfolding skip_space magnitude sign skip_prefix long_in_range
stoul s =
    let signed = sign (skip_space s) in
    elim (magnitude 16 (skip_prefix signed.1)) [
      | none ↦ throws invalid_argument
      | some n ↦ long_in_range signed.0 n
    ]

symbol_of : ℕ → ℕ
symbol_of d = if ltb d 10 then b'0' + d else b'a' + d - 10

-- The digits of `n` in front of `out`; the fuel is above `n`.
digits : ℕ → ℕ → ℕ → Bytes → Bytes
unfolding symbol_of
digits zero base n out = out
digits (suc fuel) base n out = elim (ltb n base) [
  | true ↦ symbol_of n ∷ out
  | false ↦ digits fuel base (n / base) (symbol_of (n % base) ∷ out)
]

-- `std::to_string(z)`
unfoldable pub to_string : ℤ → Bytes
unfolding digits
to_string (pos n) = digits (suc n) 10 n []
to_string (negsuc n) = b'-' ∷ digits (suc (suc n)) 10 (suc n) []

-- `stream << std::hex << n`
unfoldable pub to_hex : ℕ → Bytes
unfolding digits
to_hex n = digits (suc n) 16 n []

numbers_read :
    (stoi (codes " -42;") ≡ returns (negsuc 41))
    × (stoi (codes "2147483648") ≡ throws out_of_range)
    × (stoi (codes "-2147483648") ≡ returns (negsuc 2147483647))
    × (stoi (codes "x") ≡ throws invalid_argument)
    × (stoul (codes "0x1F") ≡ returns 31)
    × (stoul (codes "0x") ≡ returns 0)
    × (stoul (codes "-1") ≡ returns (2 ^ 64 - 1))
    × (stoul [] ≡ throws invalid_argument)
unfolding stoi stoul
numbers_read = (refl, refl, refl, refl, refl, refl, refl, refl)

numbers_written : (to_string (pos 2014) ≡ codes "2014") × (to_hex 255 ≡ codes "ff")
unfolding to_string to_hex
numbers_written = (refl, refl)
