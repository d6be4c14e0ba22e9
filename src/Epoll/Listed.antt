-- ===== src/Epoll/Listed.antt =====
-- The list of `fd_status`: which descriptors stand in it, and how often.
use server_coursework.Base.{
  ℕ, suc, ◌+◌, ◌-◌, ◌≡◌, ◌≤◌, refl, true, false, List, [], ◌∷◌, ◌++◌, arith, if◌then◌else◌, Bytes,
  ℤ,
}
use server_coursework.OrdMap.{same}
use server_coursework.OrdMap.Laws.{same_iff, same_refl}
use server_coursework.OrdMap.Keys.{int_Less}
use server_coursework.Epoll.{is_listed, erase_first}

-- How many entries a descriptor has.
abbrev pub count : ℤ → List (ℤ × Bytes) → ℕ
count fd [] = 0
count fd ((first, tag) ∷ rest) = if same first fd then suc (count fd rest) else count fd rest

pub is_listed-count : (fd : ℤ) (l : List (ℤ × Bytes)) → is_listed fd l ≡ false → count fd l ≡ 0
unfolding is_listed
is_listed-count fd [] e = refl
is_listed-count fd ((first, tag) ∷ rest) e = ground (arith, is_listed-count fd rest)

pub count-is_listed : (fd : ℤ) (l : List (ℤ × Bytes)) → is_listed fd l ≡ true → 1 ≤ count fd l
unfolding is_listed
count-is_listed fd [] e = absurd (cc)
count-is_listed fd ((first, tag) ∷ rest) e = ground (arith, count-is_listed fd rest)

pub count-append : (fd : ℤ) (a b : List (ℤ × Bytes)) → count fd (a ++ b) ≡ count fd a + count fd b
count-append fd [] b = omega arith
count-append fd ((first, tag) ∷ a) b = ground (arith, count-append fd a b)

pub count-erase_first :
    (fd other : ℤ) (l : List (ℤ × Bytes))
    → count other (erase_first fd l) ≡ (if same fd other then count other l - 1 else count other l)
unfolding erase_first
count-erase_first fd other [] = ground arith
count-erase_first fd other ((first, tag) ∷ rest) = ground (
  arith,
  same_iff first fd,
  same_iff first other,
  same_iff fd other,
  count-erase_first fd other rest,
)

-- An entry that was put at the end, and that is the only one, is the one that is erased.
pub erase_first-append :
    (fd : ℤ) (tag : Bytes) (l : List (ℤ × Bytes))
    → count fd l ≡ 0
    → erase_first fd (l ++ ((fd, tag) ∷ [])) ≡ l
unfolding erase_first
erase_first-append fd tag [] e = ground (arith, same_refl fd)
erase_first-append fd tag ((first, other) ∷ rest) e = ground (arith, erase_first-append fd tag rest)
