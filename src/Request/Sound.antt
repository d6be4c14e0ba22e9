-- ===== src/Request/Sound.antt =====
-- The parser of requests uses no object that is gone.
use server_coursework.Base.{int_of_size, ℤ, pos, negsuc, zero, suc, Bytes, IsSound, arith}
use server_coursework.Message.Sound.{loop-IsSound}
use server_coursework.Text.Find.{substr, substr_from}
use server_coursework.Text.Number.{stoi}
use server_coursework.Request.{
  crlf, find, Request, receive, parse_title, parse_line, parse_body, parse_header, parse_round,
  parse_loop, parse, append_data, fuel_for,
}

parse_title-IsSound : (r : Request) → IsSound (parse_title r)
unfolding parse_title substr substr_from
parse_title-IsSound r = ground arith

parse_line-IsSound : (next : ℤ) (r : Request) → IsSound (parse_line next r)
unfolding parse_line substr substr_from
parse_line-IsSound (pos zero) r = ground arith
parse_line-IsSound (pos (suc n)) r = ground arith
parse_line-IsSound (negsuc zero) r = ground arith
parse_line-IsSound (negsuc (suc n)) r = ground arith

parse_body-IsSound : (r : Request) → IsSound (parse_body r)
unfolding parse_body stoi
parse_body-IsSound r = ground arith

parse_round-IsSound : (r : Request) → IsSound (parse_round r)
unfolding parse_round parse_header
parse_round-IsSound r = ground (
  arith,
  parse_title-IsSound r,
  parse_line-IsSound (int_of_size (find r.unparsed crlf)) r,
  parse_body-IsSound r,
)

pub append_data-IsSound : (r : Request) (chunk : Bytes) → IsSound (append_data r chunk)
unfolding append_data parse parse_loop
append_data-IsSound r chunk =
    loop-IsSound parse_round parse_round-IsSound (fuel_for (receive r chunk)) (receive r chunk)
