-- ===== src/OrdMap/Keys.antt =====
-- The keys that the program uses: strings, compared byte by byte, and descriptors.
use server_coursework.Base.{
  ℕ, ◌≡◌, refl, Bool, true, false, ◌&&◌, ◌||◌, [], ◌∷◌, arith, ltb, ◌==◌, Bytes, ℤ, pos, negsuc, ap,
}
use server_coursework.OrdMap.{Less}

-- `std::string::operator<`
unfoldable pub bytes_less : Bytes → Bytes → Bool
bytes_less a [] = false
bytes_less [] (y ∷ b) = true
bytes_less (x ∷ a) (y ∷ b) = ltb x y || (x == y && bytes_less a b)

pub bytes_less_irrefl : (a : Bytes) → bytes_less a a ≡ false
unfolding bytes_less
bytes_less_irrefl [] = refl
bytes_less_irrefl (x ∷ a) = ground (arith, bytes_less_irrefl a)

pub bytes_less_trans :
    (a b c : Bytes) → bytes_less a b ≡ true → bytes_less b c ≡ true → bytes_less a c ≡ true
unfolding bytes_less
bytes_less_trans a b [] p q = cc
bytes_less_trans a [] (z ∷ c) p q = cc
bytes_less_trans [] (y ∷ b) (z ∷ c) p q = refl
bytes_less_trans (x ∷ a) (y ∷ b) (z ∷ c) p q = ground (arith, bytes_less_trans a b c)

pub bytes_less_total : (a b : Bytes) → bytes_less a b ≡ false → bytes_less b a ≡ false → a ≡ b
unfolding bytes_less
bytes_less_total [] [] p q = refl
bytes_less_total [] (y ∷ b) p q = cc
bytes_less_total (x ∷ a) [] p q = cc
bytes_less_total (x ∷ a) (y ∷ b) p q = ground (arith, bytes_less_total a b)

instance abbrev pub bytes_Less : Less Bytes
bytes_Less = record {
  less = bytes_less;
  irrefl = bytes_less_irrefl;
  trans = bytes_less_trans;
  total = bytes_less_total;
}

-- `<` of two `int`s
abbrev pub int_less : ℤ → ℤ → Bool
int_less (pos a) (pos b) = ltb a b
int_less (pos a) (negsuc b) = false
int_less (negsuc a) (pos b) = true
int_less (negsuc a) (negsuc b) = ltb b a

pub int_less_irrefl : (a : ℤ) → int_less a a ≡ false
int_less_irrefl (pos a) = ground arith
int_less_irrefl (negsuc a) = ground arith

pub int_less_trans : (a b c : ℤ) → int_less a b ≡ true → int_less b c ≡ true → int_less a c ≡ true
int_less_trans (pos a) (pos b) (pos c) p q = ground arith
int_less_trans (pos a) (pos b) (negsuc c) p q = cc
int_less_trans (pos a) (negsuc b) c p q = cc
int_less_trans (negsuc a) b (pos c) p q = refl
int_less_trans (negsuc a) (pos b) (negsuc c) p q = cc
int_less_trans (negsuc a) (negsuc b) (negsuc c) p q = ground arith

pub int_less_total : (a b : ℤ) → int_less a b ≡ false → int_less b a ≡ false → a ≡ b
int_less_total (pos a) (pos b) p q = ap pos (ground arith)
int_less_total (pos a) (negsuc b) p q = cc
int_less_total (negsuc a) (pos b) p q = cc
int_less_total (negsuc a) (negsuc b) p q = ap negsuc (ground arith)

instance abbrev pub int_Less : Less ℤ
int_Less = record {
  less = int_less;
  irrefl = int_less_irrefl;
  trans = int_less_trans;
  total = int_less_total;
}

pub ltb_trans : (a b c : ℕ) → ltb a b ≡ true → ltb b c ≡ true → ltb a c ≡ true
ltb_trans a b c p q = ground arith

pub ltb_irrefl : (a : ℕ) → ltb a a ≡ false
ltb_irrefl a = ground arith

pub ltb_total : (a b : ℕ) → ltb a b ≡ false → ltb b a ≡ false → a ≡ b
ltb_total a b p q = ground arith

instance abbrev pub nat_Less : Less ℕ
nat_Less = record { less = ltb; irrefl = ltb_irrefl; trans = ltb_trans; total = ltb_total }
