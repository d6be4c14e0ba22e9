-- ===== src/Request/Body.antt =====
-- Where the body of a request ends.
use server_coursework.Base.{
  ℕ, ◌<◌, ◌≡◌, refl, ◌∙◌, true, false, none, some, List, [], ◌∷◌, ◌++◌, arith, Bytes, length,
  length-append, Outcome, returns, ◌>>=◌, returns-bind, pos, All,
}
use server_coursework.Text.Number.{stoi}
use server_coursework.OrdMap.{lookup}
use server_coursework.OrdMap.Keys.{bytes_Less}
use server_coursework.Message.{crlf, content_length}
use server_coursework.Message.Line.{Fits}
use server_coursework.Request.{
  Request, fresh, is_complete, parse_body, append_data, receive, take_body, commit_headers, commit,
}
use server_coursework.Request.Termination.{IsWellFormed, ready, parse-body_stage}
use server_coursework.Request.Fragments.Body.{parse_body-reads}
use server_coursework.Request.RoundTrip.{IsPrintable, at_body, append_data-commit_headers}

abbrev pub complete_with : Request → Bytes → Bytes → Request
complete_with r body rest = record r {
  body = body;
  unparsed = rest;
  title_parsed = true;
  headers_parsed = true;
  body_parsed = true;
}

-- A printable request without `Content-Length` is complete at the empty line. Its method, URL,
-- version and headers are those that were written; whatever follows the empty line, a body or
-- the next request, is left in `unparsed` and is no part of it.
pub append_data_no_length :
    (r : Request) (rest : Bytes)
    → IsPrintable r
    → lookup content_length r.headers ≡ none
    → Fits (commit_headers r ++ rest)
    → append_data fresh (commit_headers r ++ rest) ≡ returns (complete_with r [] rest)
unfolding parse_body
append_data_no_length r rest p missing fits =
    append_data-commit_headers r rest p fits ∙ rw (missing, parse_body) refl

-- A printable request whose `Content-Length` is the length of its body is read back as it was
-- written, and is complete, if nothing follows the body.
pub append_data_exact :
    (r : Request) {v : Bytes}
    → IsPrintable r
    → lookup content_length r.headers ≡ some v
    → stoi v ≡ returns (pos (length r.body))
    → Fits (commit_headers r ++ r.body)
    → append_data fresh (commit_headers r ++ r.body) ≡ returns (complete_with r r.body [])
unfolding take_body
append_data_exact r p found reads fits =
    append_data-commit_headers r r.body p fits
    ∙ parse_body-reads (at_body (record r { body = [] }) r.headers r.body) found reads
    ∙ ground arith

-- Several reads in turn.
unfoldable pub append_all : Request → List Bytes → Outcome Request
append_all r [] = returns r
append_all r (chunk ∷ chunks) = append_data r chunk >>= λ s. append_all s chunks

-- The body has grown beyond what its `Content-Length` says.
pub record Overruns (r : Request) : Type 0 where
  pub well_formed : IsWellFormed r
  pub in_body : (r.title_parsed ≡ true) × (r.headers_parsed ≡ true) × (r.body_parsed ≡ false)
  pub value : Bytes
  pub cnt : ℕ
  pub has_length : lookup content_length r.headers ≡ some value
  pub reads : stoi value ≡ returns (pos cnt)
  pub all_read : r.unparsed ≡ []
  pub beyond : cnt < length r.body

-- One more read.
abbrev more : Request → Bytes → ℕ → Request
more r chunk cnt = take_body (receive r chunk) (pos cnt)

more-Overruns : (r : Request) (chunk : Bytes) (o : Overruns r) → Overruns (more r chunk o.cnt)
unfolding take_body
more-Overruns r chunk o = record {
  well_formed = record {
    title_first = λ _. o.in_body.0;
    headers_first = λ _. o.in_body.1;
    sorted = o.well_formed.sorted;
  };
  in_body = (
    o.in_body.0,
    o.in_body.1,
    ground (arith, o.beyond, o.in_body, length-append r.body (r.unparsed ++ chunk)),
  );
  value = o.value;
  cnt = o.cnt;
  has_length = o.has_length;
  reads = o.reads;
  all_read = refl;
  beyond = omega (arith, o.beyond, length-append r.body (r.unparsed ++ chunk));
}

append_data-more :
    (r : Request) (chunk : Bytes) (o : Overruns r)
    → Fits chunk
    → append_data r chunk ≡ returns (more r chunk o.cnt)
unfolding append_data
append_data-more r chunk o fits =
    parse-body_stage (receive r chunk)
      (ready
        (record {
          title_first = λ _. o.in_body.0;
          headers_first = λ _. o.in_body.1;
          sorted = o.well_formed.sorted;
        })
        (ground (arith, o.in_body)) (rw o.all_read fits))
      o.in_body.0 o.in_body.1
    ∙ parse_body-reads (receive r chunk) o.has_length o.reads

append_all-Overruns :
    (r : Request) (chunks : List Bytes)
    → Overruns r
    → All Fits chunks
    → (s : Request) × (append_all r chunks ≡ returns s) × Overruns s
unfolding append_all
append_all-Overruns r [] o fits = (r, refl, o)
append_all-Overruns r (chunk ∷ chunks) o (f, fits) =
    let (s, e, later) =
      append_all-Overruns (more r chunk o.cnt) chunks (more-Overruns r chunk o) fits in
    (s, returns-bind _ (append_data-more r chunk o f) e, later)

Overruns-unfinished : (r : Request) → Overruns r → is_complete r ≡ false
Overruns-unfinished r o = ground (arith, o.in_body)

-- A body that has grown beyond its `Content-Length` never completes the request: every further
-- read is taken in, and the request stays unfinished.
pub append_all_overrun :
    (r : Request) (chunks : List Bytes)
    → Overruns r
    → All Fits chunks
    → (s : Request) × (append_all r chunks ≡ returns s) × (is_complete s ≡ false)
append_all_overrun r chunks o fits =
    let (s, e, later) = append_all-Overruns r chunks o fits in (s, e, Overruns-unfinished s later)

committed : (r : Request) → Request
committed r =
    take_body (at_body (record r { body = [] }) r.headers (r.body ++ crlf)) (pos (length r.body))

committed-Overruns :
    (r : Request) {v : Bytes}
    → IsPrintable r
    → lookup content_length r.headers ≡ some v
    → stoi v ≡ returns (pos (length r.body))
    → Overruns (committed r)
unfolding committed take_body
committed-Overruns r {v} p found reads = record {
  well_formed = record { title_first = λ _. refl; headers_first = λ _. refl; sorted = p.sorted };
  in_body = (refl, refl, ground (arith, length-append r.body crlf));
  value = v;
  cnt = length r.body;
  has_length = found;
  reads = reads;
  all_read = refl;
  beyond = omega (arith, length-append r.body crlf);
}

-- `commit` writes a line end behind the body. With a `Content-Length` that is the length of the
-- body, the line end is taken for two bytes more of it: a fresh request that is given what
-- `commit` writes, and then whatever else, stays unfinished.
pub append_all-commit :
    (r : Request) (chunks : List Bytes) {v : Bytes}
    → IsPrintable r
    → lookup content_length r.headers ≡ some v
    → stoi v ≡ returns (pos (length r.body))
    → Fits (commit r)
    → All Fits chunks
    → (s : Request) × (append_all fresh (commit r ∷ chunks) ≡ returns s) × (is_complete s ≡ false)
unfolding append_all
append_all-commit r chunks p found reads fits all =
    let o = committed-Overruns r p found reads in
    let (s, e, incomplete) = append_all_overrun (committed r) chunks o all in
    (s, returns-bind _ first e, incomplete)
  where
    first : append_data fresh (commit r) ≡ returns (committed r)
    first =
        unfold commit committed in
        append_data-commit_headers r (r.body ++ crlf) p fits
        ∙ parse_body-reads (at_body (record r { body = [] }) r.headers (r.body ++ crlf)) found reads
