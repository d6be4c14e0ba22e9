-- ===== src/Response/Lines.antt =====
-- Reading what `commit_headers` of a response has written: the title, and one header line.
use server_coursework.Base.{
  ℕ, zero, suc, ◌+◌, ◌<◌, ◌≡◌, refl, sym, subst, ap, ◌∙◌, Bool, true, false, not, ◌&&◌, [], ◌∷◌,
  ◌++◌, append_assoc, arith, Bytes, ℤ, pos, negsuc, Outcome, throws, spins, dangles, ◌==◌,
  Bool-cases, inl, inr, codes, length, length-append, Lacks, returns, ◌>>=◌, returns-bind, add_size,
}
use server_coursework.Text.Find.{find, substr, substr_from}
use server_coursework.Text.Number.{stoi, to_string}
use server_coursework.Text.Cut.{
  substr-prefix, substr_from_within, substr-find, substr_from-find, drop-two,
}
use server_coursework.OrdMap.Keys.{bytes_Less}
use server_coursework.Message.{space, crlf, colon, again}
use server_coursework.Message.Header.{IsHeader, line, line-Lacks, line-name, line-value}
use server_coursework.Message.Line.{Fits, next_of, next-behind}
use server_coursework.Response.Trim.{trim, IsTrimmed, trim_trimmed}
use server_coursework.Response.{Response, parse_title, parse_line, add_header}

-- A title that can be written on a line and read back.
pub record IsTitle (r : Response) : Type 0 where
  pub number : ℕ
  pub is_number : r.status_code.code ≡ pos number
  pub three_digits : number < 1000
  pub reason_line : Lacks 13 r.status_code.description

abbrev pub title : Response → Bytes
title r =
    codes "HTTP/1.1 "
    ++ (to_string r.status_code.code ++ (space ++ (r.status_code.description ++ crlf)))

lacks_space : Bytes → Bool
lacks_space [] = true
lacks_space (c ∷ s) = not (c == 32) && lacks_space s

lacks_space-Lacks : (s : Bytes) → lacks_space s ≡ true → Lacks 32 s
unfolding lacks_space
lacks_space-Lacks [] e = tt
lacks_space-Lacks (c ∷ s) e = (ground arith, lacks_space-Lacks s (ground arith))

reads_code : ℕ → Outcome ℤ → Bool
reads_code n (returns (pos m)) = m == n
reads_code n (returns (negsuc m)) = false
reads_code n (throws e) = false
reads_code n spins = false
reads_code n dangles = false

reads_code-returns : (n : ℕ) (o : Outcome ℤ) → reads_code n o ≡ true → o ≡ returns (pos n)
unfolding reads_code
reads_code-returns n (returns (pos m)) e = ap (λ k. returns (pos k)) {x = m} {y = n} (ground arith)
reads_code-returns n (returns (negsuc m)) e = absurd (ground arith)
reads_code-returns n (throws x) e = absurd (ground arith)
reads_code-returns n spins e = absurd (ground arith)
reads_code-returns n dangles e = absurd (ground arith)

code_word : ℕ → Bool
unfolding lacks_space reads_code stoi to_string
code_word n = lacks_space (to_string (pos n)) && reads_code n (stoi (to_string (pos n)))

code_words : ℕ → Bool
unfolding code_word
code_words zero = true
code_words (suc n) = code_word n && code_words n

below : (k n : ℕ) → code_words k ≡ true → n < k → code_word n ≡ true
unfolding code_words
below zero n e h = absurd (omega arith)
below (suc k) n e h = elim (Bool-cases (n == k)) [
  | inl same ↦ ap code_word {x = n} {y = k} (ground arith) ∙ here
  | inr other ↦ below k n there (ground arith)
]
  where
    here : code_word k ≡ true
    here = ground arith

    there : code_words k ≡ true
    there = ground arith

thousand : code_words 1000 ≡ true
unfolding code_words
thousand = refl

-- A line is taken off, and cut at its first colon.
module _ (r : Response) (c : ℕ) (cs rest : Bytes) (one_line : Lacks 13 (c ∷ cs))
    (fits : Fits ((c ∷ cs) ++ (crlf ++ rest))) where
  abbrev text : Bytes
  text = (c ∷ cs) ++ (crlf ++ rest)

  whole : length text ≡ suc (length cs) + suc (suc (length rest))
  whole = length-append (c ∷ cs) (crlf ++ rest)

  cut_rest : substr_from text (suc (length cs) + 2) ≡ returns rest
  cut_rest =
      substr_from_within text (length (c ∷ cs) + 2) (omega (arith, whole))
      ∙ ap returns (drop-two (c ∷ cs) crlf rest)

  pub parse_line-cut : parse_line (next_of text) (record r { unparsed = text }) ≡ (
      substr (c ∷ cs) 0 (find (c ∷ cs) colon) >>= λ name.
      substr_from (c ∷ cs) (add_size (find (c ∷ cs) colon) 2) >>= λ value.
      returns (again (add_header (record r { unparsed = rest }) name (trim value))))
  unfolding parse_line
  parse_line-cut =
      ap (λ z. parse_line z (record r { unparsed = text }))
        (next-behind (c ∷ cs) rest one_line fits)
      ∙ returns-bind _ (substr-prefix (c ∷ cs) (crlf ++ rest)) (returns-bind _ cut_rest refl)

  pub line-Fits : Fits (c ∷ cs)
  line-Fits = omega (arith, whole)

module _ (r : Response) (name value rest : Bytes) (h : IsHeader name value)
    (t : IsTrimmed value) where
  cut_header :
      (l : Bytes)
      → l ≡ line name value
      → Fits (l ++ (crlf ++ rest))
      → parse_line (next_of (l ++ (crlf ++ rest))) (record r { unparsed = l ++ (crlf ++ rest) })
        ≡ returns (again (add_header (record r { unparsed = rest }) name value))
  cut_header [] e fits =
      absurd (omega (arith, ap length e, length-append name (codes ": " ++ value)))
  cut_header (c ∷ cs) e fits =
      let one_line = subst (Lacks 13) (sym e) (line-Lacks name value h) in
      parse_line-cut r c cs rest one_line fits
      ∙ returns-bind _
          (subst (λ l. substr l 0 (find l colon) ≡ returns name) (sym e) (line-name name value h))
          (returns-bind _
            (subst (λ l. substr_from l (add_size (find l colon) 2) ≡ returns value) (sym e)
              (line-value name value h (subst Fits e (line-Fits r c cs rest one_line fits))))
            (ap (λ v. returns (again (add_header (record r { unparsed = rest }) name v)))
              (trim_trimmed value t)))

  -- One header line is taken off, and its value is entered under its name.
  pub parse_line-line :
      Fits (line name value ++ (crlf ++ rest))
      → parse_line
          (next_of (line name value ++ (crlf ++ rest)))
          (record r { unparsed = line name value ++ (crlf ++ rest) })
        ≡ returns (again (add_header (record r { unparsed = rest }) name value))
  parse_line-line fits = cut_header (line name value) refl fits

-- The title is taken off.
pub parse_title-title :
    (r s : Response) (rest : Bytes)
    → IsTitle r
    → Fits (title r ++ rest)
    → parse_title (record s { unparsed = title r ++ rest })
      ≡ returns (record s {
        status_code = r.status_code;
        http_version = codes "HTTP/1.1";
        unparsed = rest;
        title_parsed = true;
      })
unfolding parse_title
parse_title-title r s rest h fits =
    ap (λ t. parse_title (record s { unparsed = t })) flat
    ∙ returns-bind _ (substr-find m 32 [] after_m (omega arith)) (
        returns-bind _ (substr_from-find m 32 [] after_m (omega arith) fits_m) (
          returns-bind _ (substr-find u 32 [] after_u word) (
            returns-bind _ number_read (
              returns-bind _ (substr_from-find u 32 [] after_u word fits_u) (
                returns-bind _ (substr-find v 13 (10 ∷ []) rest h.reason_line) (
                  returns-bind _ (substr_from-find v 13 (10 ∷ []) rest h.reason_line fits_v)
                    refl))))))
  where
    m : Bytes
    m = codes "HTTP/1.1"

    u : Bytes
    u = to_string r.status_code.code

    v : Bytes
    v = r.status_code.description

    checked : code_word h.number ≡ true
    checked = below 1000 h.number thousand h.three_digits

    word : Lacks 32 u
    word =
        rw h.is_number (
          lacks_space-Lacks (to_string (pos h.number))
            (unfold code_word in ground (arith, checked)))

    number_read : stoi u ≡ returns r.status_code.code
    number_read = rw h.is_number (
        reads_code-returns h.number (stoi (to_string (pos h.number)))
          (unfold code_word in ground (arith, checked)))

    after_u : Bytes
    after_u = v ++ (crlf ++ rest)

    after_m : Bytes
    after_m = u ++ (space ++ after_u)

    flat : title r ++ rest ≡ m ++ (space ++ after_m)
    flat = simp append_assoc

    fits_m : Fits (m ++ (space ++ after_m))
    fits_m = subst Fits flat fits

    fits_u : Fits after_m
    fits_u = omega (arith, fits_m, length-append m (space ++ after_m))

    fits_v : Fits after_u
    fits_v = omega (arith, fits_u, length-append u (space ++ after_u))
