-- ===== src/Request.antt =====
-- http_request.cpp, and the class in http.h.
pub mod Fragments
pub mod Lines
pub mod Methods
pub mod RoundTrip
pub mod Body
pub mod Title
pub mod Values
pub mod Tests
mod Rounds
pub mod Termination
pub mod Sound
use server_coursework.Base.{
  ℕ, zero, suc, ◌+◌, Bool, true, false, not, ◌&&◌, Option, none, some, List, [], ◌∷◌, ◌++◌, ◌==◌,
  if◌then◌else◌, Bytes, codes, length, Outcome, returns, throws, spins, ◌>>=◌, ℤ, pos, negsuc,
  int_of_size, size_of_int, add_two, add_size,
}
use server_coursework.Text.Find.{find, substr, substr_from}
use server_coursework.Text.Number.{stoi}
use server_coursework.OrdMap.{OrdMap, lookup, assign}
use server_coursework.OrdMap.Keys.{bytes_Less}
use server_coursework.Message.Header.{print_headers}
use server_coursework.Message.Loop.{loop}
use server_coursework.Message.{space, crlf, colon, content_length, Round, again, leave, resume}

pub record RequestMethod : Type 0 where
  pub description : Bytes

pub record Request : Type 0 where
  pub request_method : RequestMethod
  pub http_version : Bytes
  pub url : Bytes
  pub body : Bytes
  pub headers : OrdMap Bytes Bytes
  pub unparsed : Bytes
  pub title_parsed : Bool
  pub headers_parsed : Bool
  pub body_parsed : Bool

-- A default-constructed request.
abbrev pub fresh : Request
fresh = record {
  request_method = record { description = [] };
  http_version = codes "HTTP/1.1";
  url = codes "/";
  body = [];
  headers = [];
  unparsed = [];
  title_parsed = false;
  headers_parsed = false;
  body_parsed = false;
}

abbrev pub is_complete : Request → Bool
is_complete r = r.title_parsed && r.headers_parsed && r.body_parsed

unfoldable pub set_request_method : Request → RequestMethod → Request
set_request_method r new_method = record r { request_method = new_method }

unfoldable pub set_url : Request → Bytes → Request
set_url r new_url = record r { url = new_url }

unfoldable pub add_header : Request → Bytes → Bytes → Request
add_header r name value = record r { headers = assign name value r.headers }

unfoldable pub parse_title : Request → Outcome Request
parse_title r = do
  method ← substr r.unparsed 0 (find r.unparsed space)
  s ← substr_from r.unparsed (add_size (find r.unparsed space) 1)
  target ← substr s 0 (find s space)
  t ← substr_from s (add_size (find s space) 1)
  version ← substr t 0 (find t crlf)
  u ← substr_from t (add_size (find t crlf) 2)
  returns (record r {
    request_method = record { description = method };
    url = target;
    http_version = version;
    unparsed = u;
    title_parsed = true;
  })

-- The branches on `next`.
unfoldable pub parse_line : ℤ → Request → Outcome (Round Request)
unfolding add_header
parse_line (pos zero) r = do
  rest ← substr_from r.unparsed 2
  returns (again (record r { headers_parsed = true; unparsed = rest }))
parse_line (negsuc zero) r = returns (leave r)
parse_line next r = do
  curr ← substr r.unparsed 0 (size_of_int next)
  rest ← substr_from r.unparsed (size_of_int (add_two next))
  name ← substr curr 0 (find curr colon)
  value ← substr_from curr (add_size (find curr colon) 2)
  returns (again (add_header (record r { unparsed = rest }) name value))

unfoldable pub parse_header : Request → Outcome (Round Request)
parse_header r = parse_line (int_of_size (find r.unparsed crlf)) r

-- `cnt` has been read.
unfoldable pub take_body : Request → ℤ → Request
take_body r cnt = record r {
  body = r.body ++ r.unparsed;
  unparsed = [];
  body_parsed = if size_of_int cnt == length (r.body ++ r.unparsed) then true else r.body_parsed;
}

unfoldable pub parse_body : Request → Outcome Request
unfolding take_body
parse_body r = elim (lookup content_length r.headers) [
  | none ↦ returns (record r { body_parsed = true })
  | some v ↦ stoi v >>= λ cnt. returns (take_body r cnt)
]

unfoldable pub parse_round : Request → Outcome (Round Request)
parse_round r =
    if not r.title_parsed
    then (parse_title r >>= λ s. returns (again s))
    else if not r.headers_parsed
    then parse_header r
    else if not r.body_parsed
    then (parse_body r >>= λ s. returns (leave s))
    else returns (again r)

-- `while (true)`, for as many rounds as the fuel gives.
unfoldable pub parse_loop : ℕ → Request → Outcome Request
unfolding loop
parse_loop = loop parse_round

-- Every round but the first and the last takes bytes off `unparsed`.
abbrev pub fuel_for : Request → ℕ
fuel_for r = length r.unparsed + 4

unfoldable pub parse : Request → Outcome Request
unfolding parse_loop parse_round parse_title parse_header parse_line parse_body
parse r = parse_loop (fuel_for r) r

abbrev pub receive : Request → Bytes → Request
receive r chunk = record r { unparsed = r.unparsed ++ chunk }

unfoldable pub append_data : Request → Bytes → Outcome Request
unfolding parse
append_data r chunk = parse (receive r chunk)

unfoldable pub commit_headers : Request → Bytes
unfolding print_headers
commit_headers r =
    (r.request_method.description ++ (space ++ (r.url ++ (space ++ (r.http_version ++ crlf)))))
    ++ (print_headers r.headers ++ crlf)

unfoldable pub commit : Request → Bytes
unfolding commit_headers
commit r = commit_headers r ++ (r.body ++ crlf)
