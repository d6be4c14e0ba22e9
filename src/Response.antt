-- ===== src/Response.antt =====
-- http_response.cpp, and the class in http.h: the object, and the stages of `parse`.
pub mod Trim
pub mod Commit
pub mod Chunks
mod Rounds
pub mod ChunkLoop
pub mod Termination
pub mod Sound
pub mod Encoded
mod Sizes
pub mod Written
pub mod Twice
pub mod Bodies
pub mod Lines
pub mod RoundTrip
pub mod Whole
pub mod Status
pub mod Tests
use server_coursework.Base.{
  ℕ, zero, suc, ◌+◌, Bool, true, false, not, ◌&&◌, none, some, [], ◌∷◌, ◌++◌, ◌==◌, if◌then◌else◌,
  ltb, ◌%◌, Bytes, codes, bytes_eq, length, Outcome, returns, ◌>>=◌, ℤ, pos, negsuc, int_of_size,
  size_of_int, add_two, add_size, word_mod,
}
use server_coursework.Text.Find.{find, substr, substr_from}
use server_coursework.Text.Number.{stoi, stoul}
use server_coursework.OrdMap.{OrdMap, lookup, insert}
use server_coursework.OrdMap.Keys.{bytes_Less}
use server_coursework.Message.Loop.{loop}
use server_coursework.Message.{space, crlf, colon, content_length, Round, again, leave}
use server_coursework.Response.Trim.{trim}

pub record StatusCode : Type 0 where
  pub code : ℤ
  pub description : Bytes

pub record Response : Type 0 where
  pub status_code : StatusCode
  pub http_version : Bytes
  pub headers : OrdMap Bytes Bytes
  pub body : Bytes
  pub unparsed : Bytes
  pub title_parsed : Bool
  pub headers_parsed : Bool
  pub body_parsed : Bool

-- A default-constructed response. Nothing sets its code, so it may be any.
abbrev pub fresh : ℤ → Response
fresh code = record {
  status_code = record { code = code; description = [] };
  http_version = codes "HTTP/1.1";
  headers = [];
  body = [];
  unparsed = [];
  title_parsed = false;
  headers_parsed = false;
  body_parsed = false;
}

abbrev pub transfer_encoding : Bytes
transfer_encoding = codes "Transfer-Encoding"

abbrev pub chunked : Bytes
chunked = codes "chunked"

abbrev pub is_complete : Response → Bool
is_complete r = r.title_parsed && r.headers_parsed && r.body_parsed

unfoldable pub set_status_code : Response → StatusCode → Response
set_status_code r new_code = record r { status_code = new_code }

-- A header that is there stays.
unfoldable pub add_header : Response → Bytes → Bytes → Response
add_header r name value = record r { headers = insert name value r.headers }

unfoldable pub set_body : Response → Bytes → Response
set_body r new_body = record r { body = new_body }

unfoldable pub parse_title : Response → Outcome Response
parse_title r = do
  version ← substr r.unparsed 0 (find r.unparsed space)
  s ← substr_from r.unparsed (add_size (find r.unparsed space) 1)
  digits ← substr s 0 (find s space)
  code ← stoi digits
  t ← substr_from s (add_size (find s space) 1)
  reason ← substr t 0 (find t crlf)
  u ← substr_from t (add_size (find t crlf) 2)
  returns (record r {
    http_version = version;
    status_code = record { code = code; description = reason };
    unparsed = u;
    title_parsed = true;
  })

-- The branches on `next`.
unfoldable pub parse_line : ℤ → Response → Outcome (Round Response)
unfolding add_header trim
parse_line (pos zero) r = do
  rest ← substr_from r.unparsed 2
  returns (again (record r { headers_parsed = true; unparsed = rest }))
parse_line (negsuc zero) r = returns (leave r)
parse_line next r = do
  curr ← substr r.unparsed 0 (size_of_int next)
  rest ← substr_from r.unparsed (size_of_int (add_two next))
  name ← substr curr 0 (find curr colon)
  value ← substr_from curr (add_size (find curr colon) 2)
  returns (again (add_header (record r { unparsed = rest }) name (trim value)))

unfoldable pub parse_header : Response → Outcome (Round Response)
parse_header r = parse_line (int_of_size (find r.unparsed crlf)) r

-- `cnt` has been read.
unfoldable pub take_body : Response → ℤ → Response
take_body r cnt = record r {
  body = r.body ++ r.unparsed;
  unparsed = [];
  body_parsed = if size_of_int cnt == length (r.body ++ r.unparsed) then true else r.body_parsed;
}

-- The last chunk: its line, and the line end behind it, are taken off.
unfoldable pub last_chunk : Response → Outcome (Round Response)
last_chunk r = do
  rest ← substr_from r.unparsed (add_size (find r.unparsed crlf) 4)
  returns (leave (record r { unparsed = rest; body_parsed = true }))

-- A chunk of `chunksize` bytes, if it is all there; `chunksize + 2` is an `unsigned int`.
unfoldable pub take_chunk : Response → ℕ → Bytes → Outcome (Round Response)
take_chunk r chunksize unparsed_temp =
    if ltb (length unparsed_temp) ((chunksize + 2) % word_mod)
    then returns (leave r)
    else (substr unparsed_temp 0 chunksize >>= λ piece.
        substr_from unparsed_temp ((chunksize + 2) % word_mod) >>= λ rest.
        returns (again (record r { body = r.body ++ piece; unparsed = rest })))

-- The chunk behind a size line, by the size that was read.
unfoldable pub sized_chunk : Response → ℕ → Outcome (Round Response)
unfolding last_chunk take_chunk
sized_chunk r chunksize =
    if chunksize == 0
    then last_chunk r
    else (substr_from r.unparsed (add_size (find r.unparsed crlf) 2) >>= take_chunk r chunksize)

-- One round of the loop over the chunks. The size is cut to an `unsigned int`.
unfoldable pub chunk_round : Response → Outcome (Round Response)
unfolding sized_chunk
chunk_round r =
    if length r.unparsed == 0
    then returns (leave r)
    else (substr r.unparsed 0 (find r.unparsed crlf) >>= λ digits.
        stoul digits >>= λ size. sized_chunk r (size % word_mod))

-- Every round takes bytes off `unparsed`.
unfoldable pub parse_chunks : Response → Outcome Response
unfolding loop chunk_round
parse_chunks r = loop chunk_round (length r.unparsed + 1) r

-- The branch on the transfer encoding.
unfoldable pub parse_encoded : Response → Bytes → Outcome Response
unfolding bytes_eq parse_chunks
parse_encoded r encoding = if bytes_eq encoding chunked then parse_chunks r else returns r

unfoldable pub parse_body : Response → Outcome Response
unfolding take_body parse_encoded
parse_body r = elim (lookup content_length r.headers) [
  | some v ↦ stoi v >>= λ cnt. returns (take_body r cnt)
  | none ↦ elim (lookup transfer_encoding r.headers) [
    | some encoding ↦ parse_encoded r encoding
    | none ↦ returns (record r { body_parsed = true })
  ]
]

unfoldable pub parse_round : Response → Outcome (Round Response)
parse_round r =
    if not r.title_parsed
    then (parse_title r >>= λ s. returns (again s))
    else if not r.headers_parsed
    then parse_header r
    else if not r.body_parsed
    then (parse_body r >>= λ s. returns (leave s))
    else returns (again r)

unfoldable pub parse_loop : ℕ → Response → Outcome Response
unfolding loop
parse_loop = loop parse_round

-- Every round but the first and the last takes bytes off `unparsed`.
abbrev pub fuel_for : Response → ℕ
fuel_for r = length r.unparsed + 4

unfoldable pub parse : Response → Outcome Response
unfolding parse_loop parse_round parse_title parse_header parse_line parse_body
parse r = parse_loop (fuel_for r) r

abbrev pub receive : Response → Bytes → Response
receive r chunk = record r { unparsed = r.unparsed ++ chunk }

unfoldable pub append_data : Response → Bytes → Outcome Response
unfolding parse
append_data r chunk = parse (receive r chunk)
