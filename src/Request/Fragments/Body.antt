-- ===== src/Request/Fragments/Body.antt =====
-- A body that arrives in parts.
use server_coursework.Base.{
  ◌≡◌, sym, subst, ap, ◌∙◌, true, false, some, [], append_assoc, arith, Option-cases, Bytes,
  returns, ◌>>=◌, >>=-eq-returns, ℤ, inl, inr,
}
use server_coursework.Text.Number.{stoi}
use server_coursework.OrdMap.{lookup}
use server_coursework.OrdMap.Laws.{IsSorted}
use server_coursework.OrdMap.Keys.{bytes_Less}
use server_coursework.Message.{leave, content_length}
use server_coursework.Request.Rounds.{round-body}
use server_coursework.Request.Termination.{IsWellFormed}
use server_coursework.Request.{Request, is_complete, parse_body, parse_round, receive, take_body}

-- A body that is not complete has a length to reach.
pub record Waits (r s : Request) : Type 0 where
  pub value : Bytes
  pub cnt : ℤ
  pub has_length : lookup content_length r.headers ≡ some value
  pub reads : stoi value ≡ returns cnt
  pub taken : s ≡ take_body r cnt

pub parse_body-Waits :
    (r s : Request)
    → r.title_parsed ≡ true
    → r.headers_parsed ≡ true
    → parse_body r ≡ returns s
    → is_complete s ≡ false
    → Waits r s
unfolding parse_body
parse_body-Waits r s t h e c = elim (Option-cases (lookup content_length r.headers)) [
  | inl missing ↦ absurd (ground arith)
  | inr (v, found) ↦
      let bound : (stoi v >>= λ cnt. returns (take_body r cnt)) ≡ returns s = ground arith in
      let (cnt, reads, same) = >>=-eq-returns (stoi v) _ bound in
      record { value = v; cnt = cnt; has_length = found; reads = reads; taken = cc }
]

-- What has been taken in stands in front of what is taken in next.
pub take_body-receive :
    (r : Request) (t : Bytes) (cnt : ℤ)
    → (take_body r cnt).body_parsed ≡ false
    → r.body_parsed ≡ false
    → take_body (receive (take_body r cnt) t) cnt ≡ take_body (receive r t) cnt
unfolding take_body
take_body-receive r t cnt h b = ground (arith, append_assoc r.body r.unparsed t)

pub parse_body-reads :
    (r : Request) {v : Bytes} {cnt : ℤ}
    → lookup content_length r.headers ≡ some v
    → stoi v ≡ returns cnt
    → parse_body r ≡ returns (take_body r cnt)
unfolding parse_body
parse_body-reads r {v} {cnt} found reads =
    rw (found, parse_body) (ap (λ m. m >>= λ z. returns (take_body r z)) reads)

pub Waits-flags :
    (r s : Request)
    → Waits r s
    → (s.title_parsed ≡ r.title_parsed) × (s.headers_parsed ≡ r.headers_parsed)
unfolding take_body
Waits-flags r s w = (ap (λ x. x.title_parsed) w.taken, ap (λ x. x.headers_parsed) w.taken)

pub parse_body-receive :
    (r s : Request) (t : Bytes)
    → Waits r s
    → r.body_parsed ≡ false
    → s.body_parsed ≡ false
    → parse_body (receive s t) ≡ parse_body (receive r t)
unfolding take_body
parse_body-receive r s t w b =
    subst (λ x. x.body_parsed ≡ false → parse_body (receive x t) ≡ parse_body (receive r t))
      (sym w.taken)
      λ c.
        parse_body-reads (receive (take_body r w.cnt) t) {v = w.value} {cnt = w.cnt} w.has_length
          w.reads
        ∙ ap returns (take_body-receive r t w.cnt c b)
        ∙ sym (parse_body-reads (receive r t) w.has_length w.reads)

-- The body takes in what came first, and waits for the rest.
pub leave-Waits :
    (r s : Request)
    → r.title_parsed ≡ true
    → r.headers_parsed ≡ true
    → r.body_parsed ≡ false
    → parse_round r ≡ returns (leave s)
    → is_complete s ≡ false
    → Waits r s
leave-Waits r s title h b e c =
    let got : (parse_body r >>= λ x. returns (leave x)) ≡ returns (leave s) =
      sym (round-body r title h b) ∙ e in
    let (x, parsed, same) = >>=-eq-returns (parse_body r) _ got in
    let parsed' : parse_body r ≡ returns s = cc in parse_body-Waits r s title h parsed' c

pub round-Waits :
    (r s : Request) (t : Bytes)
    → r.title_parsed ≡ true
    → r.headers_parsed ≡ true
    → r.body_parsed ≡ false
    → s.body_parsed ≡ false
    → Waits r s
    → parse_round (receive r t) ≡ parse_round (receive s t)
round-Waits r s t title h b b' w =
    let flags = Waits-flags r s w in
    round-body (receive r t) title h b
    ∙ ap (λ m. m >>= λ x. returns (leave x)) (sym (parse_body-receive r s t w b b'))
    ∙ sym (round-body (receive s t) (flags.0 ∙ title) (flags.1 ∙ h) b')

pub Waits-IsWellFormed :
    (r s : Request)
    → Waits r s
    → r.title_parsed ≡ true
    → r.headers_parsed ≡ true
    → IsSorted r.headers
    → IsWellFormed s
unfolding take_body
Waits-IsWellFormed r s w t h v = record {
  sorted = subst (λ x. IsSorted x.headers) (sym w.taken) v;
  title_first = λ _. (Waits-flags r s w).0 ∙ t;
  headers_first = λ _. (Waits-flags r s w).1 ∙ h;
}

pub Waits-unparsed : (r s : Request) → Waits r s → s.unparsed ≡ []
unfolding take_body
Waits-unparsed r s w = ap (λ x. x.unparsed) w.taken
