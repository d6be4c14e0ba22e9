-- ===== src/Response/RoundTrip.antt =====
-- What `append_data` makes of the text that `commit` of a response writes.
use server_coursework.Base.{
  ◌≡◌, refl, subst, codes, ℤ, ap, ◌∙◌, true, false, [], ◌∷◌, ◌++◌, append_assoc, arith, Bytes,
  length-append, returns, ◌>>=◌, returns-bind,
}
use server_coursework.Text.Cut.{substr_from_within}
use server_coursework.OrdMap.{OrdMap, insert}
use server_coursework.OrdMap.Laws.{IsSorted, insert-IsSorted}
use server_coursework.OrdMap.Rebuild.{insert_all, insert_all_sorted}
use server_coursework.OrdMap.Keys.{bytes_Less}
use server_coursework.Message.{crlf, again}
use server_coursework.Message.Header.{IsHeader, line, AllHeaders, print_headers, print_headers-cons}
use server_coursework.Message.Line.{Fits, next-behind}
use server_coursework.Response.{
  Response, fresh, parse_line, parse_header, parse_body, parse, append_data, add_header, receive,
}
use server_coursework.Response.Commit.{commit_headers}
use server_coursework.Response.Rounds.{round-title, round-header}
use server_coursework.Response.Termination.{ready, parse-again, parse-body_stage}
use server_coursework.Response.Trim.{IsTrimmed}
use server_coursework.Response.ChunkLoop.{IsWellFormed, fresh-IsWellFormed}
use server_coursework.Response.Lines.{IsTitle, title, parse_title-title, parse_line-line}

-- Behind the title, with `text` to be read.
abbrev at_headers : Response → OrdMap Bytes Bytes → Bytes → Response
at_headers r hs text = record r {
  http_version = codes "HTTP/1.1";
  headers = hs;
  unparsed = text;
  title_parsed = true;
  headers_parsed = false;
  body_parsed = false;
}

-- Behind the empty line.
abbrev pub at_body : Response → OrdMap Bytes Bytes → Bytes → Response
at_body r hs text = record r {
  http_version = codes "HTTP/1.1";
  headers = hs;
  unparsed = text;
  title_parsed = true;
  headers_parsed = true;
  body_parsed = false;
}

at_headers-IsWellFormed :
    (r : Response) (hs : OrdMap Bytes Bytes) (text : Bytes)
    → IsSorted hs
    → IsWellFormed (at_headers r hs text)
at_headers-IsWellFormed r hs text v = record {
  title_first = λ _. refl;
  headers_first = λ e. cc;
  sorted = v;
}

empty_line :
    (r : Response) (hs : OrdMap Bytes Bytes) (rest : Bytes)
    → IsSorted hs
    → Fits (crlf ++ rest)
    → parse (at_headers r hs (crlf ++ rest)) ≡ parse (at_body r hs rest)
unfolding parse_header parse_line
empty_line r hs rest v fits =
    parse-again (at_headers r hs (crlf ++ rest))
      (ready (at_headers-IsWellFormed r hs _ v) refl fits) _
      (round-header (at_headers r hs (crlf ++ rest)) refl refl
        ∙ ap (λ z. parse_line z (at_headers r hs (crlf ++ rest))) (next-behind [] rest tt fits)
        ∙ returns-bind _ (substr_from_within (crlf ++ rest) 2 (omega arith)) refl)

one_line :
    (r : Response) (hs : OrdMap Bytes Bytes) (name value later : Bytes)
    → IsSorted hs
    → IsHeader name value
    → IsTrimmed value
    → Fits (line name value ++ (crlf ++ later))
    → parse (at_headers r hs (line name value ++ (crlf ++ later)))
      ≡ parse (at_headers r (insert name value hs) later)
unfolding parse_header add_header
one_line r hs name value later v h t fits =
    parse-again (at_headers r hs (line name value ++ (crlf ++ later)))
      (ready (at_headers-IsWellFormed r hs _ v) refl fits) _
      (round-header (at_headers r hs (line name value ++ (crlf ++ later))) refl refl
        ∙ parse_line-line (at_headers r hs []) name value later h t fits)

-- No value has white space at an end.
abbrev pub AllTrimmed : OrdMap Bytes Bytes → Type 0
AllTrimmed [] = Unit
AllTrimmed ((name, value) ∷ m) = IsTrimmed value × AllTrimmed m

header_lines :
    (r : Response) (m hs : OrdMap Bytes Bytes) (rest : Bytes)
    → IsSorted hs
    → AllHeaders m
    → AllTrimmed m
    → Fits (print_headers m ++ (crlf ++ rest))
    → parse (at_headers r hs (print_headers m ++ (crlf ++ rest)))
      ≡ parse (at_body r (insert_all hs m) rest)
unfolding print_headers insert_all
header_lines r [] hs rest v all trimmed fits = empty_line r hs rest v fits
header_lines r ((name, value) ∷ m) hs rest v (h, all) (t, trimmed) fits =
    ap (λ t. parse (at_headers r hs t)) flat
    ∙ one_line r hs name value later v h t fits_line
    ∙ header_lines r m (insert name value hs) rest (insert-IsSorted name value hs v) all trimmed
        fits_later
  where
    later : Bytes
    later = print_headers m ++ (crlf ++ rest)

    flat : print_headers ((name, value) ∷ m) ++ (crlf ++ rest) ≡ line name value ++ (crlf ++ later)
    flat = print_headers-cons name value m (crlf ++ rest)

    fits_line : Fits (line name value ++ (crlf ++ later))
    fits_line = rw flat at fits

    fits_later : Fits later
    fits_later = omega (arith, fits_line, length-append (line name value) (crlf ++ later))

-- A response that `commit_headers` writes in a form that `parse` reads back.
pub record IsPrintable (r : Response) : Type 0 where
  pub title_printable : IsTitle r
  pub headers_printable : AllHeaders r.headers
  pub trimmed : AllTrimmed r.headers
  pub sorted : IsSorted r.headers

-- The bytes that `commit_headers` writes for a printable response bring a fresh response to its
-- status code and headers, whatever bytes follow, as long as all are fewer than 2^31; those that
-- follow are left to the body.
pub append_response-commit_headers :
    (r : Response) (unset : ℤ) (rest : Bytes)
    → IsPrintable r
    → Fits (commit_headers r ++ rest)
    → append_data (fresh unset) (commit_headers r ++ rest)
      ≡ parse_body (at_body (record r { body = [] }) r.headers rest)
unfolding append_data commit_headers
append_response-commit_headers r unset rest p fits =
    ap (λ t. parse (receive (fresh unset) t)) flat
    ∙ parse-again (receive (fresh unset) text)
        (ready (fresh-IsWellFormed unset text) refl Fits-text) _
        (round-title (receive (fresh unset) text) refl
          ∙ ap (λ m. m >>= λ s. returns (again s))
              (parse_title-title r (fresh unset) lines p.title_printable Fits-text))
    ∙ header_lines (record r { body = [] }) r.headers [] rest tt p.headers_printable p.trimmed
        fits_lines
    ∙ ap (λ hs. parse (at_body (record r { body = [] }) hs rest))
        (insert_all_sorted r.headers p.sorted)
    ∙ parse-body_stage (at_body (record r { body = [] }) r.headers rest)
        (ready (record { title_first = λ _. refl; headers_first = λ _. refl; sorted = p.sorted })
          refl fits_rest)
        refl refl
  where
    lines : Bytes
    lines = print_headers r.headers ++ (crlf ++ rest)

    text : Bytes
    text = title r ++ lines

    flat : commit_headers r ++ rest ≡ text
    flat =
        append_assoc (title r) (print_headers r.headers ++ crlf) rest
        ∙ ap (λ t. title r ++ t) (append_assoc (print_headers r.headers) crlf rest)

    Fits-text : Fits text
    Fits-text = subst Fits flat fits

    fits_lines : Fits lines
    fits_lines = omega (arith, Fits-text, length-append (title r) lines)

    fits_rest : Fits rest
    fits_rest = omega (arith, fits_lines, length-append (print_headers r.headers) (crlf ++ rest))
