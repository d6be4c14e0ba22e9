-- ===== src/Request/RoundTrip.antt =====
-- What `append_data` makes of the text that `commit` writes.
use server_coursework.Base.{
  ◌≡◌, refl, ap, ◌∙◌, true, false, [], ◌∷◌, ◌++◌, append_assoc, arith, Bytes, length-append,
  returns, ◌>>=◌, returns-bind,
}
use server_coursework.Text.Cut.{substr_from_within}
use server_coursework.OrdMap.{OrdMap, assign}
use server_coursework.OrdMap.Laws.{IsSorted, assign-IsSorted}
use server_coursework.OrdMap.Rebuild.{assign_all, assign_all_sorted}
use server_coursework.OrdMap.Keys.{bytes_Less}
use server_coursework.Message.{crlf, again}
use server_coursework.Message.Header.{IsHeader, line, AllHeaders, print_headers, print_headers-cons}
use server_coursework.Message.Line.{Fits, next-behind}
use server_coursework.Request.{
  Request, fresh, parse_line, parse_header, parse_body, parse, append_data, add_header,
  commit_headers, print_headers, receive,
}
use server_coursework.Request.Rounds.{round-title, round-header}
use server_coursework.Request.Termination.{
  IsWellFormed, ready, fresh-IsWellFormed, parse-again, parse-body_stage,
}
use server_coursework.Request.Lines.{IsTitle, title, parse_title-title, parse_line-line}

-- Behind the title, with `text` to be read.
abbrev at_headers : Request → OrdMap Bytes Bytes → Bytes → Request
at_headers r hs text = record r {
  headers = hs;
  unparsed = text;
  title_parsed = true;
  headers_parsed = false;
  body_parsed = false;
}

-- Behind the empty line.
abbrev pub at_body : Request → OrdMap Bytes Bytes → Bytes → Request
at_body r hs text = record r {
  headers = hs;
  unparsed = text;
  title_parsed = true;
  headers_parsed = true;
  body_parsed = false;
}

at_headers-IsWellFormed :
    (r : Request) (hs : OrdMap Bytes Bytes) (text : Bytes)
    → IsSorted hs
    → IsWellFormed (at_headers r hs text)
at_headers-IsWellFormed r hs text v = record {
  title_first = λ _. refl;
  headers_first = λ e. cc;
  sorted = v;
}

empty_line :
    (r : Request) (hs : OrdMap Bytes Bytes) (rest : Bytes)
    → IsSorted hs
    → Fits (crlf ++ rest)
    → parse (at_headers r hs (crlf ++ rest)) ≡ parse (at_body r hs rest)
unfolding parse_header parse_line
empty_line r hs rest v fits =
    parse-again (at_headers r hs (crlf ++ rest))
      (ready (at_headers-IsWellFormed r hs _ v) refl fits) _
      (round-header (at_headers r hs (crlf ++ rest)) refl refl
        ∙ ap (λ z. parse_line z (at_headers r hs (crlf ++ rest))) (next-behind [] rest tt fits)
        ∙ returns-bind _ (substr_from_within (crlf ++ rest) 2 (omega arith)) refl)

one_line :
    (r : Request) (hs : OrdMap Bytes Bytes) (name value later : Bytes)
    → IsSorted hs
    → IsHeader name value
    → Fits (line name value ++ (crlf ++ later))
    → parse (at_headers r hs (line name value ++ (crlf ++ later)))
      ≡ parse (at_headers r (assign name value hs) later)
unfolding parse_header add_header
one_line r hs name value later v h fits =
    parse-again (at_headers r hs (line name value ++ (crlf ++ later)))
      (ready (at_headers-IsWellFormed r hs _ v) refl fits) _
      (round-header (at_headers r hs (line name value ++ (crlf ++ later))) refl refl
        ∙ parse_line-line (at_headers r hs []) name value later h fits)

header_lines :
    (r : Request) (m hs : OrdMap Bytes Bytes) (rest : Bytes)
    → IsSorted hs
    → AllHeaders m
    → Fits (print_headers m ++ (crlf ++ rest))
    → parse (at_headers r hs (print_headers m ++ (crlf ++ rest)))
      ≡ parse (at_body r (assign_all hs m) rest)
unfolding print_headers assign_all
header_lines r [] hs rest v all fits = empty_line r hs rest v fits
header_lines r ((name, value) ∷ m) hs rest v (h, all) fits =
    ap (λ t. parse (at_headers r hs t)) flat
    ∙ one_line r hs name value later v h fits_line
    ∙ header_lines r m (assign name value hs) rest (assign-IsSorted name value hs v) all fits_later
  where
    later : Bytes
    later = print_headers m ++ (crlf ++ rest)

    flat : print_headers ((name, value) ∷ m) ++ (crlf ++ rest) ≡ line name value ++ (crlf ++ later)
    flat = print_headers-cons name value m (crlf ++ rest)

    fits_line : Fits (line name value ++ (crlf ++ later))
    fits_line = rw flat at fits

    fits_later : Fits later
    fits_later = omega (arith, fits_line, length-append (line name value) (crlf ++ later))

-- A request that `commit_headers` writes in a form that `parse` reads back.
pub record IsPrintable (r : Request) : Type 0 where
  pub title_printable : IsTitle r
  pub headers_printable : AllHeaders r.headers
  pub sorted : IsSorted r.headers

-- The bytes that `commit_headers` writes for a printable request bring a fresh request to its
-- method, URL, version and headers, whatever bytes follow; those are left to the body.
pub append_data-commit_headers :
    (r : Request) (rest : Bytes)
    → IsPrintable r
    → Fits (commit_headers r ++ rest)
    → append_data fresh (commit_headers r ++ rest)
      ≡ parse_body (at_body (record r { body = [] }) r.headers rest)
unfolding append_data commit_headers
append_data-commit_headers r rest p fits =
    ap (λ t. parse (receive fresh t)) flat
    ∙ parse-again (receive fresh text) (ready (fresh-IsWellFormed text) refl Fits-text) _ (
        round-title (receive fresh text) refl
        ∙ ap (λ m. m >>= λ s. returns (again s))
            (parse_title-title r fresh lines p.title_printable Fits-text))
    ∙ header_lines (record r { body = [] }) r.headers [] rest tt p.headers_printable fits_lines
    ∙ ap (λ hs. parse (at_body (record r { body = [] }) hs rest))
        (assign_all_sorted r.headers p.sorted)
    ∙ parse-body_stage (at_body (record r { body = [] }) r.headers rest)
        (ready (record { title_first = λ _. refl; headers_first = λ _. refl; sorted = p.sorted })
          refl fits_rest)
        refl refl
  where
    lines : Bytes
    lines = print_headers r.headers ++ (crlf ++ rest)

    text : Bytes
    text = title r ++ lines

    flat : commit_headers r ++ rest ≡ text
    flat = simp append_assoc

    Fits-text : Fits text
    Fits-text = rw flat at fits

    fits_lines : Fits lines
    fits_lines = omega (arith, Fits-text, length-append (title r) lines)

    fits_rest : Fits rest
    fits_rest = omega (arith, fits_lines, length-append (print_headers r.headers) (crlf ++ rest))
