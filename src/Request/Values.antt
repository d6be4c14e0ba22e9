-- ===== src/Request/Values.antt =====
-- What a header line means to `parse`, whatever its shape.
use server_coursework.Base.{
  ℕ, suc, ◌+◌, ◌≡◌, refl, ap, ◌∙◌, [], ◌∷◌, ◌++◌, arith, Bytes, length, length-append, sym, subst,
  Lacks, Outcome, returns, throws, out_of_range, ◌>>=◌, returns-bind, throws-bind, add_size, npos,
}
use server_coursework.Text.Find.{find, substr, substr_from}
use server_coursework.Text.Cut.{
  find-behind, find-Lacks, substr-npos, substr_from_within, substr_from_beyond, substr-find,
  drop-two,
}
use server_coursework.Message.{crlf, colon, Round, again}
use server_coursework.Message.Line.{Fits, next_of}
use server_coursework.Request.{Request, parse_line, add_header}
use server_coursework.Request.Lines.{parse_line-cut, line-Fits}

-- The value that stands behind a colon: one byte is passed over, whatever it is.
abbrev pub behind_colon {ℓ} : {B : Type ℓ} → (Bytes → Outcome B) → Bytes → Outcome B
behind_colon enter [] = throws out_of_range
behind_colon enter (c ∷ value) = enter value

module _ (r : Request) (c : ℕ) (cs rest : Bytes) (one_line : Lacks 13 (c ∷ cs))
    (fits : Fits ((c ∷ cs) ++ (crlf ++ rest))) where
  -- A header line with no colon is entered whole as a name, and without its first byte as the value.
  pub parse_line_no_colon :
      Lacks 58 (c ∷ cs)
      → parse_line
          (next_of ((c ∷ cs) ++ (crlf ++ rest)))
          (record r { unparsed = (c ∷ cs) ++ (crlf ++ rest) })
        ≡ returns (again (add_header (record r { unparsed = rest }) (c ∷ cs) cs))
  parse_line_no_colon h =
      parse_line-cut r c cs rest one_line fits
      ∙ returns-bind _ (ap (substr (c ∷ cs) 0) none_found ∙ substr-npos (c ∷ cs) short) (
          returns-bind _
            (ap (λ n. substr_from (c ∷ cs) (add_size n 2)) none_found
              ∙ substr_from_within (c ∷ cs) 1 (omega arith))
            refl)
    where
      short : Fits (c ∷ cs)
      short = line-Fits r c cs rest one_line fits

      none_found : find (c ∷ cs) colon ≡ npos
      none_found = find-Lacks (c ∷ cs) 58 [] h

-- Behind the first colon.
module _ (name : Bytes) (no_colon : Lacks 58 name) where
  colon-size : (after : Bytes) → length (name ++ 58 ∷ after) ≡ length name + suc (length after)
  colon-size after = length-append name (58 ∷ after)

  colon-value :
      (after : Bytes)
      → Fits (name ++ 58 ∷ after)
      → {B : Type 0} (enter : Bytes → Outcome B)
      → (substr_from (name ++ 58 ∷ after) (add_size (find (name ++ 58 ∷ after) colon) 2) >>= enter)
        ≡ behind_colon enter after
  colon-value after fits enter =
      ap (λ n. substr_from (name ++ 58 ∷ after) n >>= enter)
        (ap (λ n. add_size n 2) (find-behind name 58 [] after no_colon) ∙ sum)
      ∙ cut after (colon-size after)
    where
      sum : add_size (length name) 2 ≡ length name + 2
      sum = omega (arith, colon-size after)

      cut :
          (after : Bytes)
          → length (name ++ 58 ∷ after) ≡ length name + suc (length after)
          → (substr_from (name ++ 58 ∷ after) (length name + 2) >>= enter)
            ≡ behind_colon enter after
      cut [] size = throws-bind enter (substr_from_beyond _ _ (omega arith))
      cut (c ∷ value) size =
          returns-bind enter
            (substr_from_within _ _ (omega arith) ∙ ap returns (drop-two name (58 ∷ c ∷ []) value))
            refl

module _ (r : Request) (name after rest : Bytes) (no_colon : Lacks 58 name) where
  abbrev entered : Bytes → Outcome (Round Request)
  entered value = returns (again (add_header (record r { unparsed = rest }) name value))

  colon_line :
      (l : Bytes)
      → l ≡ name ++ 58 ∷ after
      → Lacks 13 l
      → Fits (l ++ (crlf ++ rest))
      → parse_line (next_of (l ++ (crlf ++ rest))) (record r { unparsed = l ++ (crlf ++ rest) })
        ≡ behind_colon entered after
  colon_line [] e one_line fits =
      absurd (omega (arith, ap length e, colon-size name no_colon after))
  colon_line (c ∷ cs) e one_line fits =
      parse_line-cut r c cs rest one_line fits
      ∙ returns-bind _
          (subst (λ l. substr l 0 (find l colon) ≡ returns name) (sym e)
            (substr-find name 58 [] after no_colon))
          (subst
            (λ l.
              (substr_from l (add_size (find l colon) 2) >>= entered) ≡ behind_colon entered after)
            (sym e)
            (colon-value name no_colon after (subst Fits e (line-Fits r c cs rest one_line fits))
              entered))

  -- A header line is cut at its first colon: the name is what stands in front of it. Of what stands
  -- behind it the first byte is dropped, be it a space or not, and the rest is the value. If nothing
  -- stands behind the colon, the line throws.
  pub parse_line_colon :
      Lacks 13 (name ++ 58 ∷ after)
      → Fits ((name ++ 58 ∷ after) ++ (crlf ++ rest))
      → parse_line
          (next_of ((name ++ 58 ∷ after) ++ (crlf ++ rest)))
          (record r { unparsed = (name ++ 58 ∷ after) ++ (crlf ++ rest) })
        ≡ behind_colon entered after
  parse_line_colon = colon_line (name ++ 58 ∷ after) refl
