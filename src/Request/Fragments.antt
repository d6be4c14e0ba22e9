-- ===== src/Request/Fragments.antt =====
-- A message that arrives in several reads.
pub mod Lines
pub mod Body
use server_coursework.Request.Fragments.Lines.{
  Fits-before, round-again-receive, round-leave-header, round-stage,
}
use server_coursework.Request.Fragments.Body.{
  Waits, leave-Waits, round-Waits, Waits-flags, Waits-IsWellFormed, Waits-unparsed,
}
use server_coursework.Message.Loop.{loop}
use server_coursework.Base.{
  ℕ, zero, suc, ◌+◌, ◌≤◌, ◌≡◌, refl, sym, subst, ap, ◌∙◌, true, false, some, [], ◌++◌, append_assoc,
  arith, Option-cases, Bytes, length, length-append, take-append_within, drop-append_within,
  Outcome, returns, throws, spins, dangles, ◌>>=◌, >>=-eq-returns, ℤ, pos, negsuc, inl, inr,
  Bool-cases,
}
use server_coursework.Text.Find.{substr, substr_from}
use server_coursework.Text.Number.{stoi}
use server_coursework.OrdMap.{lookup}
use server_coursework.OrdMap.Laws.{IsSorted}
use server_coursework.OrdMap.Keys.{bytes_Less}
use server_coursework.Message.{Round, again, leave, resume, content_length}
use server_coursework.Message.Line.{Fits, next_of, next-cases, next-append_within}
use server_coursework.Request.Rounds.{round-header, round-body}
use server_coursework.Request.Termination.{
  IsWellFormed, IsReady, ready, AdvancesTo, parse_same_round, parse-again, again-AdvancesTo,
}
use server_coursework.Request.{
  Request, is_complete, parse_line, parse_header, parse_body, parse_round, parse_loop, parse,
  append_data, receive, add_header, take_body,
}

receive-IsWellFormed : (r : Request) (t : Bytes) → IsWellFormed r → IsWellFormed (receive r t)
receive-IsWellFormed r t v = record {
  title_first = v.title_first;
  headers_first = v.headers_first;
  sorted = v.sorted;
}

-- The two ways in which a round returns on bytes that are not all there.
module _ (r s : Request) (t : Bytes) (v : IsWellFormed r) (c : is_complete r ≡ false)
    (title : r.title_parsed ≡ true) (fits : Fits (r.unparsed ++ t)) where
  Waits-split :
      r.headers_parsed ≡ true
      → s.body_parsed ≡ false
      → Waits r s
      → parse (receive r t) ≡ parse (receive s t)
  Waits-split h b' w =
      let flags = Waits-flags r s w in
      let short : s.unparsed ≡ [] = Waits-unparsed r s w in
      parse_same_round (receive r t) (ready (receive-IsWellFormed r t v) c fits) (receive s t)
        (ready (receive-IsWellFormed s t (Waits-IsWellFormed r s w title h v.sorted)) (ground arith)
          (rw short (omega (arith, length-append r.unparsed t))))
        (round-Waits r s t title h (ground arith) b' w)

  leave-split :
      parse_round r ≡ returns (leave s)
      → is_complete s ≡ false
      → parse (receive r t) ≡ parse (receive s t)
  leave-split e d = elim (Bool-cases r.headers_parsed) [
    | inr h ↦ ap (λ x. parse (receive x t)) (sym (round-leave-header r t fits s title h e))
    | inl h ↦
        let w = leave-Waits r s title h (ground arith) e d in
        let flags = Waits-flags r s w in Waits-split h (ground arith) w
  ]

  again-split :
      parse_round r ≡ returns (again s)
      → (parse (receive r t) ≡ parse (receive s t)) × AdvancesTo (receive r t) (receive s t)
  again-split e =
      let later = round-again-receive r t fits s title (round-stage r s title c e) e in
      (
        parse-again (receive r t) (ready (receive-IsWellFormed r t v) c fits) (receive s t) later,
        again-AdvancesTo (receive r t) (ready (receive-IsWellFormed r t v) c fits) (receive s t)
            later,
      )

parse_loop-split :
    (fuel : ℕ) (r s : Request) (t : Bytes)
    → IsWellFormed r
    → is_complete r ≡ false
    → r.title_parsed ≡ true
    → Fits (r.unparsed ++ t)
    → parse_loop fuel r ≡ returns s
    → is_complete s ≡ false
    → parse (receive r t) ≡ parse (receive s t)
unfolding parse_loop loop
parse_loop-split zero r s t v c title fits e d = absurd (cc)
parse_loop-split (suc fuel) r s t v c title fits e d = step (parse_round r) refl e λ q a.
    let a = again-AdvancesTo r (ready v c (Fits-before r t fits)) q a in
    parse_loop-split fuel q s t a.staged a.unfinished a.titled
  where
    step :
        (m : Outcome (Round Request))
        → parse_round r ≡ m
        → (m >>= resume (parse_loop fuel)) ≡ returns s
        → ((q : Request)
            → parse_round r ≡ returns (again q)
            → Fits (q.unparsed ++ t)
            → parse_loop fuel q ≡ returns s
            → is_complete s ≡ false
            → parse (receive q t) ≡ parse (receive s t))
        → parse (receive r t) ≡ parse (receive s t)
    step (returns (again q)) round e k =
        let (same, a) = again-split r q t v c title fits round in same ∙ k q round a.fits e d
    step (returns (leave q)) round e k =
        let same : q ≡ s = cc in
        leave-split r s t v c title fits (round ∙ ap (λ x. returns (leave x)) same) d
    step (throws x) round e k = absurd (cc)
    step spins round e k = absurd (cc)
    step dangles round e k = absurd (cc)

-- Once the title is parsed, how the bytes are cut into reads does not matter: if the bytes `a`
-- leave the request unfinished, then `append_data` on `a ++ b` and `append_data` on `a`, then on
-- `b`, return the same request, or throw the same exception.
pub append_data-split :
    (r s : Request) (a b : Bytes)
    → IsWellFormed r
    → r.title_parsed ≡ true
    → is_complete r ≡ false
    → Fits (r.unparsed ++ (a ++ b))
    → append_data r a ≡ returns s
    → is_complete s ≡ false
    → append_data r (a ++ b) ≡ append_data s b
unfolding append_data parse
append_data-split r s a b v title c fits e d =
    let joined = append_assoc r.unparsed a b in
    ap (λ u. parse (record r { unparsed = u })) (sym joined)
    ∙ parse_loop-split _ (receive r a) s b (receive-IsWellFormed r a v) c title (rw joined fits) e d
