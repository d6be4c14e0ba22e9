-- ===== src/Request/Termination.antt =====
-- When the loop of `parse` ends, and when it does not.
use server_coursework.Base.{
  ℕ, zero, suc, ◌+◌, ◌<◌, ◌≡◌, ◌⊎◌, inl, inr, true, false, ◌++◌, arith, if◌then◌else◌, Bool-cases,
  Bytes, length, returns, throws, spins, Ensures, Ensures-map, Ensures-weaken, subst, Exception,
  Option-cases, ℤ, pos, negsuc,
}
use server_coursework.Text.Chain.{bind-substr, bind-substr_from, bind-stoi}
use server_coursework.OrdMap.{lookup}
use server_coursework.OrdMap.Laws.{IsSorted, assign-IsSorted}
use server_coursework.OrdMap.Keys.{bytes_Less}
use server_coursework.Message.{Round, again, leave, content_length}
use server_coursework.Request.Rounds.{round-title, round-header, round-body, round_complete}
use server_coursework.Message.Loop.{
  After, loop_fixed, loop-Done, run-again, run-leave, run-throws, run_same, run_last,
}
use server_coursework.Message.Line.{Fits, next_of, next-cases}
use server_coursework.Request.{
  Request, fresh, is_complete, parse_title, parse_line, parse_header, parse_body, parse_round,
  parse_loop, parse, append_data, receive, add_header, fuel_for,
}

-- The flags are set in the order of the stages, and the headers stand in the order of their names.
pub record IsWellFormed (r : Request) : Type 0 where
  pub title_first : r.headers_parsed ≡ true → r.title_parsed ≡ true
  pub headers_first : r.body_parsed ≡ true → r.headers_parsed ≡ true
  pub sorted : IsSorted r.headers

pub fresh-IsWellFormed : (text : Bytes) → IsWellFormed (receive fresh text)
fresh-IsWellFormed text = record { title_first = λ e. cc; headers_first = λ e. cc; sorted = tt }

abbrev pub measure : Request → ℕ
measure r =
    if r.title_parsed
    then (if r.headers_parsed then 1 else length r.unparsed + 2)
    else length r.unparsed + 3

-- What a round that goes on has to show for it.
pub record AdvancesTo (r s : Request) : Type 0 where
  pub staged : IsWellFormed s
  pub titled : s.title_parsed ≡ true
  pub unfinished : is_complete s ≡ false
  pub fits : Fits s.unparsed
  pub less : measure s < measure r

-- What a round leaves behind.
abbrev AfterRound : Request → Round Request → Type 0
AfterRound r (again s) = AdvancesTo r s
AfterRound r (leave s) = IsWellFormed s

parse_title-After :
    (r : Request)
    → IsWellFormed r
    → r.title_parsed ≡ false
    → Fits r.unparsed
    → Ensures (AdvancesTo r) (parse_title r)
unfolding parse_title
parse_title-After r v t fits = bind-substr (AdvancesTo r) _ _ _ _ λ method.
    bind-substr_from (AdvancesTo r) _ _ _ λ s hs. bind-substr (AdvancesTo r) _ _ _ _ λ target.
      bind-substr_from (AdvancesTo r) _ _ _ λ u hu.
        bind-substr (AdvancesTo r) _ _ _ _
          λ version. bind-substr_from (AdvancesTo r) _ _ _ λ w hw. ground arith

parse_line-After :
    (r : Request) (next : ℤ)
    → IsWellFormed r
    → r.title_parsed ≡ true
    → r.headers_parsed ≡ false
    → Fits r.unparsed
    → ((n : ℕ) × (next ≡ pos n)) ⊎ (next ≡ negsuc 0)
    → Ensures (AfterRound r) (parse_line next r)
unfolding parse_line add_header
parse_line-After r (pos zero) v t h fits c =
    bind-substr_from (AfterRound r) _ _ _ λ rest e. ground arith
parse_line-After r (pos (suc n)) v t h fits c = bind-substr (AfterRound r) _ _ _ _ λ curr.
    bind-substr_from (AfterRound r) _ _ _ λ rest e. bind-substr (AfterRound r) _ _ _ _ λ name.
      bind-substr_from (AfterRound r) _ _ _
        λ value _. ground (arith, assign-IsSorted name value r.headers v.sorted)
parse_line-After r (negsuc zero) v t h fits c = v
parse_line-After r (negsuc (suc n)) v t h fits c = absurd (ground arith)

parse_body-After :
    (r : Request) → IsWellFormed r → r.headers_parsed ≡ true → Ensures IsWellFormed (parse_body r)
unfolding parse_body
parse_body-After r v h = elim (Option-cases (lookup content_length r.headers)) [
  | inl missing ↦ rw (missing, parse_body) (ground arith)
  | inr (w, found) ↦ rw (found, parse_body) (bind-stoi IsWellFormed _ _ λ cnt. ground arith)
]

next_pos :
    (r : Request)
    → Fits r.unparsed
    → ((n : ℕ) × (next_of r.unparsed ≡ pos n)) ⊎ (next_of r.unparsed ≡ negsuc 0)
next_pos r fits = elim (next-cases r.unparsed fits) [
  | inl (n, _, e, _) ↦ inl (n, e)
  | inr (_, e) ↦ inr e
]

parse_round-After :
    (r : Request)
    → IsWellFormed r
    → is_complete r ≡ false
    → Fits r.unparsed
    → Ensures (AfterRound r) (parse_round r)
unfolding parse_header
parse_round-After r v c fits = elim (Bool-cases r.title_parsed) [
  | inr t ↦
      rw (round-title r t)
        (Ensures-map (AfterRound r) (parse_title r) again (parse_title-After r v t fits))
  | inl t ↦ elim (Bool-cases r.headers_parsed) [
    | inr h ↦
        rw (round-header r t h)
          (parse_line-After r (next_of r.unparsed) v t h fits (next_pos r fits))
    | inl h ↦
        rw (round-body r t h (ground arith))
          (Ensures-map (AfterRound r) (parse_body r) leave (parse_body-After r v h))
  ]
]

-- A request that `parse` can work on.
pub record IsReady (r : Request) : Type 0 where
  pub well_formed : IsWellFormed r
  pub unfinished : is_complete r ≡ false
  pub fits : Fits r.unparsed

pub ready : {r : Request} → IsWellFormed r → is_complete r ≡ false → Fits r.unparsed → IsReady r
ready v c fits = record { well_formed = v; unfinished = c; fits = fits }

progress :
    (r : Request)
    → IsReady r
    → Ensures (After parse_round IsReady IsWellFormed measure r) (parse_round r)
progress r i =
    Ensures-weaken (AfterRound r) _ (parse_round r) each
      (parse_round-After r i.well_formed i.unfinished i.fits)
  where
    each : (x : Round Request) → AfterRound r x → After parse_round IsReady IsWellFormed measure r x
    each (again s) a = record {
      kept = record { well_formed = a.staged; unfinished = a.unfinished; fits = a.fits };
      less = a.less;
    }
    each (leave s) a = a

measure-lt-fuel : (r : Request) → measure r < fuel_for r
measure-lt-fuel r = ground arith

-- What `parse` comes to, by the round that it is in.
module _ (r : Request) (i : IsReady r) where
  pub again-AdvancesTo : (s : Request) → parse_round r ≡ returns (again s) → AdvancesTo r s
  again-AdvancesTo s e =
      subst (Ensures (AfterRound r)) e (parse_round-After r i.well_formed i.unfinished i.fits)

  pub parse-again : (s : Request) → parse_round r ≡ returns (again s) → parse r ≡ parse s
  unfolding parse
  parse-again s e =
      run-again parse_round IsReady IsWellFormed measure progress _ _ r i s e (measure-lt-fuel r)
        (measure-lt-fuel s)

  pub parse-leave : (s : Request) → parse_round r ≡ returns (leave s) → parse r ≡ returns s
  unfolding parse
  parse-leave s e =
      run-leave parse_round IsReady IsWellFormed measure progress _ r i s e (measure-lt-fuel r)

  pub parse-throws : (x : Exception) → parse_round r ≡ throws x → parse r ≡ throws x
  unfolding parse
  parse-throws x e =
      run-throws parse_round IsReady IsWellFormed measure progress _ r i x e (measure-lt-fuel r)

  -- Behind the headers `parse` is one round on the body.
  pub parse-body_stage : r.title_parsed ≡ true → r.headers_parsed ≡ true → parse r ≡ parse_body r
  unfolding parse
  parse-body_stage t h =
      run_last parse_round IsReady IsWellFormed measure progress _ r (parse_body r) i
        (round-body r t h (ground arith)) (measure-lt-fuel r)

  -- A request whose round agrees comes to the same.
  pub parse_same_round :
      (s : Request) → IsReady s → parse_round r ≡ parse_round s → parse r ≡ parse s
  unfolding parse
  parse_same_round s j e =
      run_same parse_round IsReady IsWellFormed measure progress _ _ r s i j e (measure-lt-fuel r)
        (measure-lt-fuel s)

-- On a request that is not complete, whose bytes are indexed by `int`, `append_data` comes back:
-- it throws, or it returns a request whose flags are again set in the order of the stages and
-- whose headers are sorted by name.
pub append_data-IsWellFormed :
    (r : Request) (chunk : Bytes)
    → IsWellFormed r
    → is_complete r ≡ false
    → Fits (r.unparsed ++ chunk)
    → Ensures IsWellFormed (append_data r chunk)
unfolding append_data parse
append_data-IsWellFormed r chunk v c fits =
    loop-Done parse_round IsReady IsWellFormed measure progress _ (receive r chunk)
      (measure-lt-fuel (receive r chunk))
      (record {
        well_formed = record {
          title_first = v.title_first;
          headers_first = v.headers_first;
          sorted = v.sorted;
        };
        unfinished = c;
        fits = fits;
      })

-- Once all three flags are set no round changes anything and none leaves the loop: whatever the
-- number of rounds, a further `append_data` does not come back.
pub append_data_complete-spins :
    (r : Request) (chunk : Bytes) (fuel : ℕ)
    → is_complete r ≡ true
    → (parse_loop fuel (receive r chunk) ≡ spins) × (append_data r chunk ≡ spins)
unfolding append_data parse
append_data_complete-spins r chunk fuel c = (
  loop_fixed parse_round (receive r chunk) held fuel,
  loop_fixed parse_round (receive r chunk) held _,
)
  where
    held : parse_round (receive r chunk) ≡ returns (again (receive r chunk))
    held = round_complete (receive r chunk) c
