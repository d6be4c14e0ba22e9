-- ===== src/Text/Chain.antt =====
-- Chains of string operations: each comes back, and a cut says how much it leaves.
use server_coursework.Base.{
  ℕ, ◌+◌, ◌≡◌, arith, length, length-drop, Bytes, Outcome, returns, ◌>>=◌, Ensures, Ensures-bind,
  ComesBack, ℤ,
}
use server_coursework.Text.Find.{substr, substr_from}
use server_coursework.Text.Number.{stoi, stoul}

length-substr_from :
    (s : Bytes) (at : ℕ) {t : Bytes} → substr_from s at ≡ returns t → at + length t ≡ length s
unfolding substr_from
length-substr_from s at h = ground (arith, length-drop at s)

-- `substr` and `stoi` return or throw.
substr-ComesBack : (s : Bytes) (at n : ℕ) → ComesBack (substr s at n)
unfolding substr
substr-ComesBack s at n = ground arith

substr_from-ComesBack : (s : Bytes) (at : ℕ) → ComesBack (substr_from s at)
unfolding substr_from
substr_from-ComesBack s at = ground arith

stoi-ComesBack : (s : Bytes) → ComesBack (stoi s)
unfolding stoi
stoi-ComesBack s = ground arith

stoul-ComesBack : (s : Bytes) → ComesBack (stoul s)
unfolding stoul
stoul-ComesBack s = ground arith

module _ {B : Type 0} (P : B → Type 0) where
  pub bind-substr :
      (s : Bytes) (at n : ℕ) (f : Bytes → Outcome B)
      → ((t : Bytes) → Ensures P (f t))
      → Ensures P (substr s at n >>= f)
  bind-substr s at n f k = Ensures-bind P (substr s at n) f (substr-ComesBack s at n) λ t e. k t

  pub bind-substr_from :
      (s : Bytes) (at : ℕ) (f : Bytes → Outcome B)
      → ((t : Bytes) → at + length t ≡ length s → Ensures P (f t))
      → Ensures P (substr_from s at >>= f)
  bind-substr_from s at f k =
      Ensures-bind P (substr_from s at) f (substr_from-ComesBack s at)
        λ t e. k t (length-substr_from s at e)

  pub bind-stoi :
      (s : Bytes) (f : ℤ → Outcome B) → ((z : ℤ) → Ensures P (f z)) → Ensures P (stoi s >>= f)
  bind-stoi s f k = Ensures-bind P (stoi s) f (stoi-ComesBack s) λ z e. k z

  pub bind-stoul :
      (s : Bytes) (f : ℕ → Outcome B) → ((n : ℕ) → Ensures P (f n)) → Ensures P (stoul s >>= f)
  bind-stoul s f k = Ensures-bind P (stoul s) f (stoul-ComesBack s) λ n e. k n
