-- ===== src/Request/Lines.antt =====
-- Reading what `commit_headers` has written: the title, and one header line.
use server_coursework.Base.{
  ℕ, suc, ◌+◌, ◌≡◌, refl, sym, subst, ap, ◌∙◌, true, [], ◌∷◌, ◌++◌, append_assoc, arith, Bytes,
  codes, length, length-append, Lacks, returns, ◌>>=◌, returns-bind, add_size,
}
use server_coursework.Text.Find.{find, substr, substr_from}
use server_coursework.Text.Cut.{
  substr-prefix, substr_from_within, substr-find, substr_from-find, drop-two,
}
use server_coursework.OrdMap.Keys.{bytes_Less}
use server_coursework.Message.{space, crlf, colon, again}
use server_coursework.Message.Header.{IsHeader, line, line-Lacks, line-name, line-value}
use server_coursework.Message.Line.{Fits, next_of, next-behind}
use server_coursework.Request.{Request, parse_title, parse_line, add_header}

-- A title that can be written on a line and read back.
pub record IsTitle (r : Request) : Type 0 where
  pub method_word : Lacks 32 r.request_method.description
  pub url_word : Lacks 32 r.url
  pub version_line : Lacks 13 r.http_version

abbrev pub title : Request → Bytes
title r = r.request_method.description ++ (space ++ (r.url ++ (space ++ (r.http_version ++ crlf))))

-- A line is taken off, and cut at its first colon.
module _ (r : Request) (c : ℕ) (cs rest : Bytes) (one_line : Lacks 13 (c ∷ cs))
    (fits : Fits ((c ∷ cs) ++ (crlf ++ rest))) where
  abbrev text : Bytes
  text = (c ∷ cs) ++ (crlf ++ rest)

  whole : length text ≡ suc (length cs) + suc (suc (length rest))
  whole = length-append (c ∷ cs) (crlf ++ rest)

  cut_rest : substr_from text (suc (length cs) + 2) ≡ returns rest
  cut_rest =
      substr_from_within text (length (c ∷ cs) + 2) (omega (arith, whole))
      ∙ ap returns (drop-two (c ∷ cs) crlf rest)

  pub parse_line-cut : parse_line (next_of text) (record r { unparsed = text }) ≡ (
      substr (c ∷ cs) 0 (find (c ∷ cs) colon) >>= λ name.
      substr_from (c ∷ cs) (add_size (find (c ∷ cs) colon) 2) >>= λ value.
      returns (again (add_header (record r { unparsed = rest }) name value)))
  unfolding parse_line
  parse_line-cut =
      ap (λ z. parse_line z (record r { unparsed = text }))
        (next-behind (c ∷ cs) rest one_line fits)
      ∙ returns-bind _ (substr-prefix (c ∷ cs) (crlf ++ rest)) (returns-bind _ cut_rest refl)

  pub line-Fits : Fits (c ∷ cs)
  line-Fits = omega (arith, whole)

module _ (r : Request) (name value rest : Bytes) (h : IsHeader name value) where
  cut_header :
      (l : Bytes)
      → l ≡ line name value
      → Fits (l ++ (crlf ++ rest))
      → parse_line (next_of (l ++ (crlf ++ rest))) (record r { unparsed = l ++ (crlf ++ rest) })
        ≡ returns (again (add_header (record r { unparsed = rest }) name value))
  cut_header [] e fits =
      absurd (omega (arith, ap length e, length-append name (codes ": " ++ value)))
  cut_header (c ∷ cs) e fits =
      let one_line = subst (Lacks 13) (sym e) (line-Lacks name value h) in
      parse_line-cut r c cs rest one_line fits
      ∙ returns-bind _
          (subst (λ l. substr l 0 (find l colon) ≡ returns name) (sym e) (line-name name value h))
          (returns-bind _
            (subst (λ l. substr_from l (add_size (find l colon) 2) ≡ returns value) (sym e)
              (line-value name value h (subst Fits e (line-Fits r c cs rest one_line fits))))
            refl)

  -- One header line is taken off, and its value is entered under its name.
  pub parse_line-line :
      Fits (line name value ++ (crlf ++ rest))
      → parse_line
          (next_of (line name value ++ (crlf ++ rest)))
          (record r { unparsed = line name value ++ (crlf ++ rest) })
        ≡ returns (again (add_header (record r { unparsed = rest }) name value))
  parse_line-line fits = cut_header (line name value) refl fits

-- The title is taken off.
pub parse_title-title :
    (r s : Request) (rest : Bytes)
    → IsTitle r
    → Fits (title r ++ rest)
    → parse_title (record s { unparsed = title r ++ rest })
      ≡ returns (record s {
        request_method = r.request_method;
        url = r.url;
        http_version = r.http_version;
        unparsed = rest;
        title_parsed = true;
      })
unfolding parse_title
parse_title-title r s rest h fits =
    ap (λ t. parse_title (record s { unparsed = t })) flat
    ∙ returns-bind _ (substr-find m 32 [] after_m h.method_word) (
        returns-bind _ (substr_from-find m 32 [] after_m h.method_word fits_m) (
          returns-bind _ (substr-find u 32 [] after_u h.url_word) (
            returns-bind _ (substr_from-find u 32 [] after_u h.url_word fits_u) (
              returns-bind _ (substr-find v 13 (10 ∷ []) rest h.version_line) (
                returns-bind _ (substr_from-find v 13 (10 ∷ []) rest h.version_line fits_v)
                  refl)))))
  where
    m : Bytes
    m = r.request_method.description

    u : Bytes
    u = r.url

    v : Bytes
    v = r.http_version

    after_u : Bytes
    after_u = v ++ (crlf ++ rest)

    after_m : Bytes
    after_m = u ++ (space ++ after_u)

    flat : title r ++ rest ≡ m ++ (space ++ after_m)
    flat = simp append_assoc

    fits_m : Fits (m ++ (space ++ after_m))
    fits_m = rw flat at fits

    fits_u : Fits after_m
    fits_u = omega (arith, fits_m, length-append m (space ++ after_m))

    fits_v : Fits after_u
    fits_v = omega (arith, fits_u, length-append u (space ++ after_u))
