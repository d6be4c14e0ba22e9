-- ===== src/Response/Rounds.antt =====
-- The stage that each round of the loop is in.
use server_coursework.Base.{◌≡◌, true, false, returns, ◌>>=◌, arith}
use server_coursework.Message.{again, leave}
use server_coursework.Response.{
  Response, is_complete, parse_title, parse_header, parse_body, parse_round,
}

module _ (r : Response) where
  pub round-title :
      r.title_parsed ≡ false → parse_round r ≡ (parse_title r >>= λ s. returns (again s))
  unfolding parse_round
  round-title t = ground arith

  pub round-header :
      r.title_parsed ≡ true → r.headers_parsed ≡ false → parse_round r ≡ parse_header r
  unfolding parse_round
  round-header t h = ground arith

  pub round-body :
      r.title_parsed ≡ true
      → r.headers_parsed ≡ true
      → r.body_parsed ≡ false
      → parse_round r ≡ (parse_body r >>= λ s. returns (leave s))
  unfolding parse_round
  round-body t h b = ground arith

  pub round_complete : is_complete r ≡ true → parse_round r ≡ returns (again r)
  unfolding parse_round
  round_complete c = ground arith
