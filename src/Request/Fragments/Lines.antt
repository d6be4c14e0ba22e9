-- ===== src/Request/Fragments/Lines.antt =====
-- A header line, with more bytes behind it.
use server_coursework.Base.{
  ℕ, zero, suc, ◌+◌, ◌≤◌, ◌≡◌, sym, ap, ◌∙◌, true, false, ◌++◌, arith, Bytes, length, length-append,
  take-append_within, drop-append_within, Outcome, returns, throws, spins, dangles, ◌>>=◌, ℤ, pos,
  negsuc, inl, inr, Bool-cases,
}
use server_coursework.Text.Find.{substr, substr_from}
use server_coursework.OrdMap.Keys.{bytes_Less}
use server_coursework.Message.{Round, again, leave}
use server_coursework.Message.Line.{Fits, next_of, next-cases, next-append_within}
use server_coursework.Request.Rounds.{round-header, round-body}
use server_coursework.Request.{
  Request, is_complete, parse_line, parse_header, parse_body, parse_round, receive, add_header,
}

pub substr-append_within : (s t : Bytes) (n : ℕ) → n ≤ length s → substr (s ++ t) 0 n ≡ substr s 0 n
unfolding substr
substr-append_within s t n h = rw (take-append_within n s t h) (ground arith)

pub substr_from-append_within :
    (s t : Bytes) (at : ℕ)
    → at ≤ length s
    → substr_from (s ++ t) at ≡ (substr_from s at >>= λ u. returns (u ++ t))
unfolding substr_from
substr_from-append_within s t at h = ground (arith, drop-append_within at s t h, length-append s t)

-- More bytes at the end of what is still to be read.
abbrev pub late : Bytes → Round Request → Round Request
late t (again s) = again (receive s t)
late t (leave s) = leave (receive s t)

abbrev pub late_outcome : Bytes → Outcome (Round Request) → Outcome (Round Request)
late_outcome t m = m >>= λ x. returns (late t x)

pub parse_line-receive :
    (r : Request) (t : Bytes) (n : ℕ)
    → n + 2 ≤ length r.unparsed
    → parse_line (pos n) (receive r t) ≡ late_outcome t (parse_line (pos n) r)
unfolding parse_line add_header
parse_line-receive r t zero h = rw (substr_from-append_within r.unparsed t 2 h) (ground arith)
parse_line-receive r t (suc n) h =
    rw
      (
        substr-append_within r.unparsed t (suc n) (omega arith),
        substr_from-append_within r.unparsed t (suc n + 2) (omega arith),
      )
      (ground arith)

pub line-leave : (z : ℤ) (r s : Request) → parse_line z r ≡ returns (leave s) → s ≡ r
unfolding parse_line
line-leave (pos zero) r s e = absurd (ground arith)
line-leave (pos (suc n)) r s e = absurd (ground arith)
line-leave (negsuc zero) r s e = cc
line-leave (negsuc (suc n)) r s e = absurd (ground arith)

module _ (r : Request) (t : Bytes) (fits : Fits (r.unparsed ++ t)) where
  pub Fits-before : Fits r.unparsed
  Fits-before = omega (arith, length-append r.unparsed t)

  -- A round that goes on at a header line does the same with more bytes behind.
  pub round-again-receive :
      (s : Request)
      → r.title_parsed ≡ true
      → r.headers_parsed ≡ false
      → parse_round r ≡ returns (again s)
      → parse_round (receive r t) ≡ returns (again (receive s t))
  unfolding parse_header parse_line
  round-again-receive s title h e =
      let at_line : parse_line (next_of r.unparsed) r ≡ returns (again s) =
        sym (round-header r title h) ∙ e in
      elim (next-cases r.unparsed Fits-before) [
        | inl (n, found, next, bound) ↦
            round-header (receive r t) title h
            ∙ ap (λ z. parse_line z (receive r t)) (next-append_within r.unparsed t fits found)
            ∙ parse_line-receive r t n bound
            ∙ ap (late_outcome t) (rw next at at_line)
        | inr (missing, next) ↦ absurd (cc (rw next at at_line))
      ]

  -- A header line that has not ended leaves the request as it is.
  pub round-leave-header :
      (s : Request)
      → r.title_parsed ≡ true
      → r.headers_parsed ≡ false
      → parse_round r ≡ returns (leave s)
      → s ≡ r
  unfolding parse_header parse_line
  round-leave-header s title h e =
      line-leave (next_of r.unparsed) r s (sym (round-header r title h) ∙ e)

-- A round that returns where the title is parsed is at a header line, or ends the loop.
pub round-stage :
    (r s : Request)
    → r.title_parsed ≡ true
    → is_complete r ≡ false
    → parse_round r ≡ returns (again s)
    → r.headers_parsed ≡ false
round-stage r s t c e = elim (Bool-cases r.headers_parsed) [
  | inr h ↦ h
  | inl h ↦ absurd (body_never-again (parse_body r) (sym (round-body r t h (ground arith)) ∙ e))
]
  where
    body_never-again :
        (m : Outcome Request) → (m >>= λ x. returns (leave x)) ≡ returns (again s) → ⊥
    body_never-again (returns x) q = cc
    body_never-again (throws x) q = cc
    body_never-again spins q = cc
    body_never-again dangles q = cc
