-- ===== src/Response/Trim.antt =====
-- `ltrim`, `rtrim` and `trim` of http_response.cpp.
use mathlib.Core.List.{reverse, reverse-cons, reverse-append, reverse-reverse}
use server_coursework.Base.{
  ◌≡◌, refl, sym, subst, ap, ◌∙◌, true, false, [], ◌∷◌, ◌++◌, append_assoc, Bool-cases, Bytes, All,
  All-append, if◌then◌else◌, inl, inr,
}
use server_coursework.Text.Number.{is_space}

unfoldable pub ltrim : Bytes → Bytes
unfolding is_space
ltrim [] = []
ltrim (c ∷ s) = if is_space c then ltrim s else c ∷ s

-- From the last byte on.
unfoldable pub rtrim : Bytes → Bytes
unfolding ltrim
rtrim s = reverse (ltrim (reverse s))

unfoldable pub trim : Bytes → Bytes
unfolding rtrim
trim s = ltrim (rtrim s)

abbrev pub IsBlank : Bytes → Type 0
IsBlank = All (λ c. is_space c ≡ true)

-- No white space at the front.
abbrev pub IsFlush : Bytes → Type 0
IsFlush [] = Unit
IsFlush (c ∷ s) = is_space c ≡ false

-- What is left of a text from which only white space at the front was taken.
pub record Trims (s t : Bytes) : Type 0 where
  pub front : Bytes
  pub blank : IsBlank front
  pub splits : s ≡ front ++ t
  pub flush : IsFlush t

ltrim-Trims : (s : Bytes) → Trims s (ltrim s)
unfolding ltrim
ltrim-Trims [] = record { front = []; blank = tt; splits = refl; flush = tt }
ltrim-Trims (c ∷ s) = elim (Bool-cases (is_space c)) [
  | inl space ↦
      let t = ltrim-Trims s in
      rw (space, ltrim)
        (record {
          front = c ∷ t.front;
          blank = (space, t.blank);
          splits = ap (◌∷◌ c) t.splits;
          flush = t.flush;
        })
  | inr other ↦ rw (other, ltrim) (record { front = []; blank = tt; splits = refl; flush = other })
]

reverse-IsBlank : (s : Bytes) → IsBlank s → IsBlank (reverse s)
reverse-IsBlank [] b = tt
reverse-IsBlank (c ∷ s) b =
    rw (reverse-cons c s) (All-append _ (reverse s) (c ∷ []) (reverse-IsBlank s b.1) (b.0, tt))

-- The byte at the end of a text is that at the end of what is left of it.
IsFlush-front : (a b : Bytes) → IsFlush (a ++ b) → IsFlush a
IsFlush-front [] b h = tt
IsFlush-front (c ∷ a) b h = h

ltrim_flush : (s : Bytes) → IsFlush s → ltrim s ≡ s
unfolding ltrim
ltrim_flush [] h = refl
ltrim_flush (c ∷ s) h = rw h

-- A text with no white space at either end.
abbrev pub IsTrimmed : Bytes → Type 0
IsTrimmed s = IsFlush s × IsFlush (reverse s)

pub trim_trimmed : (s : Bytes) → IsTrimmed s → trim s ≡ s
unfolding trim rtrim
trim_trimmed s (front, back) =
    ap (λ t. ltrim (reverse t)) (ltrim_flush (reverse s) back)
    ∙ ap ltrim (reverse-reverse s)
    ∙ ltrim_flush s front

-- What `trim` takes off a text.
pub record IsCut (s t : Bytes) : Type 0 where
  pub front : Bytes
  pub back : Bytes
  pub front_blank : IsBlank front
  pub back_blank : IsBlank back
  pub splits : s ≡ front ++ (t ++ back)
  pub trimmed : IsTrimmed t

-- `trim` takes white space and nothing else off both ends of a text, and leaves none there.
pub trim-IsCut : (s : Bytes) → IsCut s (trim s)
unfolding trim rtrim
trim-IsCut s =
    let b = ltrim-Trims (reverse s) in
    let f = ltrim-Trims (reverse (ltrim (reverse s))) in
    record {
      front = f.front;
      back = reverse b.front;
      front_blank = f.blank;
      back_blank = reverse-IsBlank b.front b.blank;
      splits = whole s b f;
      trimmed = (f.flush, IsFlush-front _ (reverse f.front) (subst IsFlush (turned b f) b.flush));
    }
  where
    turned :
        (b : Trims (reverse s) (ltrim (reverse s)))
        (f : Trims (reverse (ltrim (reverse s))) (ltrim (reverse (ltrim (reverse s)))))
        → ltrim (reverse s) ≡ reverse (ltrim (reverse (ltrim (reverse s)))) ++ reverse f.front
    turned b f =
        sym (reverse-reverse (ltrim (reverse s)))
        ∙ ap reverse f.splits
        ∙ reverse-append f.front (ltrim (reverse (ltrim (reverse s))))

    whole :
        (s : Bytes) (b : Trims (reverse s) (ltrim (reverse s)))
        (f : Trims (reverse (ltrim (reverse s))) (ltrim (reverse (ltrim (reverse s)))))
        → s ≡ f.front ++ (ltrim (reverse (ltrim (reverse s))) ++ reverse b.front)
    whole s b f =
        sym (reverse-reverse s)
        ∙ ap reverse b.splits
        ∙ reverse-append b.front (ltrim (reverse s))
        ∙ ap (λ x. x ++ reverse b.front) f.splits
        ∙ append_assoc f.front _ (reverse b.front)
