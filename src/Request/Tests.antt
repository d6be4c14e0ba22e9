-- ===== src/Request/Tests.antt =====
-- Runs of the request parser, and the theorems about it at concrete requests.
use server_coursework.Base.{
  ◌≡◌, refl, true, false, some, none, [], ◌∷◌, ◌++◌, arith, codes, returns, spins, pos, Ensures,
}
use server_coursework.Text.Find.{find, substr, substr_from}
use server_coursework.Text.Number.{stoi}
use server_coursework.OrdMap.{lookup, assign}
use server_coursework.OrdMap.Keys.{bytes_less, bytes_Less}
use server_coursework.Message.{content_length, again}
use server_coursework.Message.Line.{next_of}
use server_coursework.Request.{
  Request, fresh, parse_body, is_complete, receive, parse_loop, parse_line, add_header, append_data,
  commit, commit_headers,
}
use server_coursework.Request.Termination.{
  IsWellFormed, append_data-IsWellFormed, append_data_complete-spins, fresh-IsWellFormed,
}
use server_coursework.Request.Fragments.{append_data-split}
use server_coursework.Request.RoundTrip.{IsPrintable, at_body, append_data-commit_headers}
use server_coursework.Request.Body.{
  append_data_no_length, append_data_exact, Overruns, append_all, append_all_overrun,
  append_all-commit,
}
use server_coursework.Request.Title.{
  cut_short, append_data-cut_short, SameTitle, append_data-SameTitle,
}
use server_coursework.Request.Values.{parse_line_colon, parse_line_no_colon}

abbrev get : Request
get = record fresh {
  request_method = record { description = codes "GET" };
  url = codes "/a";
  headers = (codes "Accept", codes "*/*") ∷ (codes "Host", codes "h") ∷ [];
}

abbrev pub post : Request
post = record get {
  request_method = record { description = codes "POST" };
  headers = (codes "Content-Length", codes "2") ∷ (codes "Host", codes "h") ∷ [];
  body = codes "hi";
}

commit-get : commit get ≡ codes "GET /a HTTP/1.1\r\nAccept: */*\r\nHost: h\r\n\r\n\r\n"
unfolding commit
commit-get = refl

abbrev done_get : Request
done_get = record get { title_parsed = true; headers_parsed = true; body_parsed = true }

get_again :
    append_data fresh (codes "GET /a HTTP/1.1\r\nHost: h\r\nAccept: */*\r\n\r\n") ≡ returns done_get
unfolding append_data find substr substr_from assign bytes_less lookup
get_again = refl

get-IsPrintable : IsPrintable get
unfolding bytes_less
get-IsPrintable = record {
  title_printable = omega arith;
  headers_printable = omega arith;
  sorted = ((refl, tt), (tt, tt));
}

pub post-IsPrintable : IsPrintable post
unfolding bytes_less
post-IsPrintable = record {
  title_printable = omega arith;
  headers_printable = omega arith;
  sorted = ((refl, tt), (tt, tt));
}

append_data-IsWellFormed_example :
    Ensures IsWellFormed (append_data fresh (codes "GET / HTTP/1.1\r\nHo"))
append_data-IsWellFormed_example =
    append_data-IsWellFormed fresh (codes "GET / HTTP/1.1\r\nHo") (fresh-IsWellFormed []) refl
      (omega arith)

append_data_complete-spins_example :
    (parse_loop 1000 (receive done_get (codes "GET")) ≡ spins)
    × (append_data done_get (codes "GET") ≡ spins)
append_data_complete-spins_example = append_data_complete-spins done_get (codes "GET") 1000 refl

-- Behind the title and one header line, with a second line begun.
abbrev begun : Request
begun = record get {
  headers = (codes "Accept", codes "*/*") ∷ [];
  unparsed = codes "Ho";
  title_parsed = true;
}

begun-IsWellFormed : IsWellFormed begun
begun-IsWellFormed = record { title_first = λ _. refl; headers_first = λ e. cc; sorted = (tt, tt) }

begun_more :
    append_data begun (codes "st: h\r") ≡ returns (record begun { unparsed = codes "Host: h\r" })
unfolding append_data find substr substr_from assign bytes_less lookup
begun_more = refl

append_data-split_example :
    append_data begun (codes "st: h\r\n\r\n")
    ≡ append_data (record begun { unparsed = codes "Host: h\r" }) (codes "\n\r\n")
append_data-split_example =
    append_data-split begun (record begun { unparsed = codes "Host: h\r" }) (codes "st: h\r")
      (codes "\n\r\n") begun-IsWellFormed refl refl (omega arith) begun_more refl

get_no_length : lookup content_length get.headers ≡ none
unfolding lookup bytes_less
get_no_length = refl

pub post_length : lookup content_length post.headers ≡ some (codes "2")
unfolding lookup bytes_less
post_length = refl

pub two_read : stoi (codes "2") ≡ returns (pos 2)
unfolding stoi
two_read = refl

append_data_no_length_example :
    append_data fresh (commit_headers get ++ codes "GET /b")
    ≡ returns (record done_get { unparsed = codes "GET /b" })
unfolding commit_headers
append_data_no_length_example =
    append_data_no_length get (codes "GET /b") get-IsPrintable get_no_length (omega arith)

append_data_exact_example :
    append_data fresh (commit_headers post ++ codes "hi")
    ≡ returns (record post { title_parsed = true; headers_parsed = true; body_parsed = true })
unfolding commit_headers
append_data_exact_example =
    append_data_exact post post-IsPrintable post_length two_read (omega arith)

append_all-commit_example :
    (s : Request) × (append_all fresh (commit post ∷ codes "x" ∷ codes "" ∷ []) ≡ returns s)
    × (is_complete s ≡ false)
unfolding commit
append_all-commit_example =
    append_all-commit post (codes "x" ∷ codes "" ∷ []) post-IsPrintable post_length two_read
      (omega arith) (omega arith)

abbrev too_long : Request
too_long = record post { body = codes "hi!"; title_parsed = true; headers_parsed = true }

too_long-Overruns : Overruns too_long
unfolding lookup bytes_less
too_long-Overruns = record {
  well_formed = record {
    title_first = λ _. refl;
    headers_first = λ _. refl;
    sorted = post-IsPrintable.sorted;
  };
  in_body = (refl, refl, refl);
  value = codes "2";
  cnt = 2;
  has_length = post_length;
  reads = two_read;
  all_read = refl;
  beyond = omega arith;
}

append_all_overrun_example :
    (s : Request) × (append_all too_long (codes "?" ∷ []) ≡ returns s) × (is_complete s ≡ false)
append_all_overrun_example =
    append_all_overrun too_long (codes "?" ∷ []) too_long-Overruns (omega arith)

append_data-cut_short_example :
    append_data fresh (codes "GE")
    ≡ returns (record fresh {
      request_method = record { description = codes "GE" };
      url = codes "GE";
      http_version = codes "GE";
      unparsed = codes "E";
      title_parsed = true;
    })
unfolding cut_short
append_data-cut_short_example =
    append_data-cut_short (codes "GE") (omega arith) (omega arith) (omega arith)

append_data-SameTitle_example : SameTitle begun (record begun { unparsed = codes "Host: h\r" })
append_data-SameTitle_example =
    append_data-SameTitle begun (record begun { unparsed = codes "Host: h\r" }) (codes "st: h\r")
      refl begun_more

parse_line_colon_example :
    parse_line (next_of (codes "Host:h\r\n")) (record begun { unparsed = codes "Host:h\r\n" })
    ≡ returns (again (add_header (record begun { unparsed = [] }) (codes "Host") []))
parse_line_colon_example =
    parse_line_colon begun (codes "Host") (codes "h") [] (omega arith) (omega arith) (omega arith)

parse_line_no_colon_example :
    parse_line (next_of (codes "Host\r\n")) (record begun { unparsed = codes "Host\r\n" })
    ≡ returns (again (add_header (record begun { unparsed = [] }) (codes "Host") (codes "ost")))
parse_line_no_colon_example =
    parse_line_no_colon begun b'H' (codes "ost") [] (omega arith) (omega arith) (omega arith)

append_data-commit_headers_example :
    append_data fresh (commit_headers get ++ codes "x")
    ≡ parse_body (at_body (record get { body = [] }) get.headers (codes "x"))
unfolding commit_headers
append_data-commit_headers_example =
    append_data-commit_headers get (codes "x") get-IsPrintable (omega arith)
