-- ===== src/Response/Chunks.antt =====
-- Single rounds of the loop over the chunks.
use mathlib.Core.Path.{ap₂}
use server_coursework.Base.{
  ℕ, suc, ◌+◌, ◌%◌, ◌^◌, ◌≤◌, ◌<◌, ◌≡◌, refl, ap, ◌∙◌, true, false, [], ◌∷◌, ◌++◌, arith, ◌==◌,
  if◌then◌else◌, Bytes, length, length-append, Lacks, returns, throws, out_of_range, ◌>>=◌,
  returns-bind, throws-bind, add_size, word_mod,
}
use server_coursework.Text.Find.{find, substr, substr_from}
use server_coursework.Text.Number.{stoul}
use server_coursework.Text.Cut.{
  find-behind, substr-find, substr_from-find, substr-prefix, substr_from_within, substr_from_beyond,
  drop-two,
}
use server_coursework.Message.{crlf, again, leave}
use server_coursework.Message.Line.{Fits}
use server_coursework.Response.{Response, chunk_round, sized_chunk, take_chunk, last_chunk}

-- A line from which a size is read.
pub record IsSize (digits : Bytes) (size : ℕ) : Type 0 where
  pub one_line : Lacks 13 digits
  pub reads : stoul digits ≡ returns size

-- The branches of a round.
module _ (s : Response) (size : ℕ) where
  sized_zero : size ≡ 0 → sized_chunk s size ≡ last_chunk s
  unfolding sized_chunk
  sized_zero z = ground arith

  sized_pos :
      0 < size
      → sized_chunk s size
        ≡ (substr_from s.unparsed (add_size (find s.unparsed crlf) 2) >>= take_chunk s size)
  unfolding sized_chunk
  sized_pos p = ground arith

  take_chunk_short :
      (temp : Bytes)
      → size < 2 ^ 31
      → length temp < size + 2
      → take_chunk s size temp ≡ returns (leave s)
  unfolding take_chunk
  take_chunk_short temp small short = ground arith

  take_chunk_long :
      (temp : Bytes)
      → size < 2 ^ 31
      → size + 2 ≤ length temp
      → take_chunk s size temp ≡ (
          substr temp 0 size >>= λ piece. substr_from temp (size + 2) >>= λ rest.
          returns (again (record s { body = s.body ++ piece; unparsed = rest })))
  unfolding take_chunk
  take_chunk_long temp small long =
      let sum : (size + 2) % word_mod ≡ size + 2 = omega arith in rw sum (ground arith)

module _ (r : Response) (digits : Bytes) (size : ℕ) (h : IsSize digits size) (after : Bytes)
    (fits : Fits (digits ++ (crlf ++ after))) where
  abbrev text : Bytes
  text = digits ++ (crlf ++ after)

  abbrev at_chunk : Response
  at_chunk = record r { unparsed = text }

  whole : length text ≡ length digits + suc (suc (length after))
  whole = length-append digits (crlf ++ after)

  -- The round comes down to the size that was read.
  round_sized : chunk_round at_chunk ≡ sized_chunk at_chunk (size % word_mod)
  unfolding chunk_round
  round_sized =
      ap
        (λ b.
          if b
          then returns (leave at_chunk)
          else (substr text 0 (find text crlf) >>= λ d.
              stoul d >>= λ n. sized_chunk at_chunk (n % word_mod)))
        nonempty
      ∙ returns-bind _ (substr-find digits 13 (10 ∷ []) after h.one_line)
          (returns-bind _ h.reads refl)
    where
      nonempty : (length text == 0) ≡ false
      nonempty = ground (arith, whole)

  behind_line : substr_from text (add_size (find text crlf) 2) ≡ returns after
  behind_line = substr_from-find digits 13 (10 ∷ []) after h.one_line fits

  take_here : 0 < size → size < 2 ^ 31 → chunk_round at_chunk ≡ take_chunk at_chunk size after
  take_here p small =
      round_sized
      ∙ ap (sized_chunk at_chunk) (omega arith)
      ∙ sized_pos at_chunk size p
      ∙ returns-bind _ behind_line refl

  end_here : size % word_mod ≡ 0 → chunk_round at_chunk ≡ last_chunk at_chunk
  end_here z = round_sized ∙ sized_zero at_chunk (size % word_mod) z

  -- A chunk that is all there is taken off.
  pub round_chunk :
      (piece rest : Bytes)
      → after ≡ piece ++ (crlf ++ rest)
      → size ≡ length piece
      → 0 < size
      → chunk_round at_chunk
        ≡ returns (again (record r { body = r.body ++ piece; unparsed = rest }))
  round_chunk piece rest e n p =
      take_here p small
      ∙ take_chunk_long at_chunk size after small (omega (arith, long))
      ∙ returns-bind _ (ap₂ (λ t k. substr t 0 k) e n ∙ substr-prefix piece (crlf ++ rest)) (
          returns-bind _
            (ap₂ (λ t k. substr_from t (k + 2)) e n
              ∙ substr_from_within (piece ++ (crlf ++ rest)) (length piece + 2)
                  (omega (arith, length-append piece (crlf ++ rest)))
              ∙ ap returns (drop-two piece crlf rest))
            refl)
    where
      long : length after ≡ length piece + suc (suc (length rest))
      long = ap length e ∙ length-append piece (crlf ++ rest)

      small : size < 2 ^ 31
      small = omega (arith, long, whole)

  -- A chunk that is not all there is left for later.
  pub round_waits :
      0 < size
      → size < 2 ^ 31
      → length after < size + 2
      → chunk_round at_chunk ≡ returns (leave at_chunk)
  round_waits p small short = take_here p small ∙ take_chunk_short at_chunk size after small short

  -- The size 0 ends the body, and takes the two bytes behind its line with it.
  pub round_last :
      (rest : Bytes)
      → after ≡ crlf ++ rest
      → size % word_mod ≡ 0
      → chunk_round at_chunk ≡ returns (leave (record r { unparsed = rest; body_parsed = true }))
  unfolding last_chunk
  round_last rest e z =
      end_here z
      ∙ returns-bind _
          (ap (λ n. substr_from text (add_size n 4))
              (find-behind digits 13 (10 ∷ []) after h.one_line)
            ∙ ap (substr_from text) (omega (arith, whole))
            ∙ ap (λ t. substr_from (digits ++ (crlf ++ t)) (length digits + 4)) e
            ∙ substr_from_within (digits ++ (crlf ++ (crlf ++ rest))) (length digits + 4)
                (omega (arith, length-append digits (crlf ++ (crlf ++ rest))))
            ∙ ap returns (drop-two digits (crlf ++ crlf) rest))
          refl

  -- If those two bytes have not come yet, the round throws.
  pub round_last_cut :
      length after < 2 → size % word_mod ≡ 0 → chunk_round at_chunk ≡ throws out_of_range
  unfolding last_chunk
  round_last_cut short z =
      end_here z
      ∙ throws-bind _ (
          ap (λ n. substr_from text (add_size n 4))
            (find-behind digits 13 (10 ∷ []) after h.one_line)
          ∙ ap (substr_from text) (omega (arith, whole))
          ∙ substr_from_beyond text (length digits + 4) (omega (arith, whole)))
