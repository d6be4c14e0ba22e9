-- ===== src/Request/Title.antt =====
-- The first line of a request: it is taken to be all in the first read.
use server_coursework.Base.{
  zero, ◌≡◌, refl, ap, ◌∙◌, true, [], ◌∷◌, arith, Option-cases, Bool-cases, Bytes, Lacks, Outcome,
  returns, throws, out_of_range, ◌>>=◌, returns-bind, throws-bind, add_size, npos, ℤ, pos, negsuc,
  Ensures, Ensures-map, inl, inr,
}
use server_coursework.Text.Find.{find, substr, substr_from}
use server_coursework.Text.Chain.{bind-substr, bind-substr_from, bind-stoi}
use server_coursework.Text.Cut.{find-Lacks, substr-npos, substr_from_within, substr_from_beyond}
use server_coursework.OrdMap.{lookup}
use server_coursework.OrdMap.Keys.{bytes_Less}
use server_coursework.Message.{space, crlf, Round, again, leave, content_length}
use server_coursework.Message.Line.{Fits, next_of, next-Lacks}
use server_coursework.Request.{
  Request, fresh, parse_title, parse_line, parse_header, parse_body, parse_round, parse,
  append_data, receive, add_header,
}
use server_coursework.Request.Termination.{
  ready, parse-again, parse-leave, parse-throws, fresh-IsWellFormed,
}
use server_coursework.Message.Loop.{KeepsRound, loop-Keeps}
use server_coursework.Request.Rounds.{round-title, round-header, round-body, round_complete}

-- What a fresh request makes of a first read that has neither a space nor a line end in it.
unfoldable pub cut_short : Bytes → Outcome Request
cut_short [] = throws out_of_range
cut_short (c ∷ cs) = returns (record fresh {
  request_method = record { description = c ∷ cs };
  url = c ∷ cs;
  http_version = c ∷ cs;
  unparsed = cs;
  title_parsed = true;
})

module _ (text : Bytes) (one_word : Lacks 32 text) (one_line : Lacks 13 text)
    (fits : Fits text) where
  no_space : find text space ≡ npos
  no_space = find-Lacks text 32 [] one_word

  no_line : find text crlf ≡ npos
  no_line = find-Lacks text 13 (10 ∷ []) one_line

  word : substr text 0 (find text space) ≡ returns text
  word = ap (substr text 0) no_space ∙ substr-npos text fits

  -- `npos + 1` is 0: nothing is taken off.
  again_whole : substr_from text (add_size (find text space) 1) ≡ returns text
  again_whole =
      ap (λ n. substr_from text (add_size n 1)) no_space ∙ substr_from_within text 0 (omega arith)

  version : substr text 0 (find text crlf) ≡ returns text
  version = ap (substr text 0) no_line ∙ substr-npos text fits

  abbrev titled : Request → Bytes → Request
  titled r u = record r {
    request_method = record { description = text };
    url = text;
    http_version = text;
    unparsed = u;
    title_parsed = true;
  }

  parse_title-cut :
      (r : Request)
      → parse_title (record r { unparsed = text })
        ≡ (substr_from text 1 >>= λ u. returns (titled r u))
  unfolding parse_title
  parse_title-cut r = returns-bind _ word (
      returns-bind _ again_whole (
        returns-bind _ word (
          returns-bind _ again_whole (
            returns-bind _ version (
              ap (λ m. m >>= λ u. returns (titled r u))
                (ap (λ n. substr_from text (add_size n 2)) no_line))))))

-- A first read with neither a space nor a line end sets the title all the same: it is taken whole
-- for the method, for the URL and for the version, and less its first byte it is left to be read.
-- An empty first read throws.
pub append_data-cut_short :
    (text : Bytes)
    → Lacks 32 text
    → Lacks 13 text
    → Fits text
    → append_data fresh text ≡ cut_short text
unfolding append_data parse cut_short
append_data-cut_short [] one_word one_line fits =
    parse-throws (receive fresh []) (ready (fresh-IsWellFormed []) refl fits) out_of_range (
      round-title (receive fresh []) refl
      ∙ ap (λ m. m >>= λ s. returns (again s))
          (parse_title-cut [] one_word one_line fits fresh
            ∙ throws-bind _ (substr_from_beyond [] 1 (omega arith))))
append_data-cut_short (c ∷ cs) one_word one_line fits =
    parse-again (receive fresh (c ∷ cs)) (ready (fresh-IsWellFormed (c ∷ cs)) refl fits) s (
      round-title (receive fresh (c ∷ cs)) refl
      ∙ ap (λ m. m >>= λ s. returns (again s))
          (parse_title-cut (c ∷ cs) one_word one_line fits fresh
            ∙ returns-bind _ (substr_from_within (c ∷ cs) 1 (omega arith)) refl))
    ∙ parse-leave s
        (ready (record { title_first = λ e. cc; headers_first = λ e. cc; sorted = tt }) refl
          (omega arith))
        s
        (round-header s refl refl
          ∙ (unfold parse_header parse_line in ap (λ z. parse_line z s) (next-Lacks cs one_line.1)))
  where
    s : Request
    s = titled (c ∷ cs) one_word one_line fits fresh cs

-- The title of `s` is that of `r`.
pub record SameTitle (r s : Request) : Type 0 where
  pub same_method : s.request_method ≡ r.request_method
  pub same_url : s.url ≡ r.url
  pub same_version : s.http_version ≡ r.http_version
  pub still_parsed : s.title_parsed ≡ true

SameTitle-trans : (r s u : Request) → SameTitle r s → SameTitle s u → SameTitle r u
SameTitle-trans r s u a b = ground arith

abbrev KeepsTitle : Request → Round Request → Type 0
KeepsTitle = KeepsRound parse_round SameTitle SameTitle-trans

parse_line-KeepsTitle :
    (r : Request) (next : ℤ) → r.title_parsed ≡ true → Ensures (KeepsTitle r) (parse_line next r)
unfolding parse_line add_header
parse_line-KeepsTitle r (pos zero) t = bind-substr_from (KeepsTitle r) _ _ _ λ rest e. ground arith
parse_line-KeepsTitle r (negsuc zero) t = ground arith
parse_line-KeepsTitle r _ t = bind-substr (KeepsTitle r) _ _ _ _ λ curr.
    bind-substr_from (KeepsTitle r) _ _ _ λ rest _.
      bind-substr (KeepsTitle r) _ _ _ _
        λ name. bind-substr_from (KeepsTitle r) _ _ _ λ value _. ground arith

parse_body-SameTitle : (r : Request) → r.title_parsed ≡ true → Ensures (SameTitle r) (parse_body r)
unfolding parse_body
parse_body-SameTitle r t = elim (Option-cases (lookup content_length r.headers)) [
  | inl missing ↦ rw (missing, parse_body) (ground arith)
  | inr (w, found) ↦ rw (found, parse_body) (bind-stoi (SameTitle r) _ _ λ cnt. ground arith)
]

parse_round-KeepsTitle :
    (r : Request) → r.title_parsed ≡ true → Ensures (KeepsTitle r) (parse_round r)
unfolding parse_header
parse_round-KeepsTitle r t = elim (Bool-cases r.headers_parsed) [
  | inr h ↦ rw (round-header r t h) (parse_line-KeepsTitle r (next_of r.unparsed) t)
  | inl h ↦ elim (Bool-cases r.body_parsed) [
    | inr b ↦
        rw (round-body r t h b)
          (Ensures-map (KeepsTitle r) (parse_body r) leave (parse_body-SameTitle r t))
    | inl b ↦ rw (round_complete r (ground arith)) (ground arith)
  ]
]

-- Once the title is parsed, no read changes the method, the URL or the version any more.
pub append_data-SameTitle :
    (r s : Request) (chunk : Bytes)
    → r.title_parsed ≡ true
    → append_data r chunk ≡ returns s
    → SameTitle r s
unfolding append_data parse
append_data-SameTitle r s chunk t e =
    let k =
      loop-Keeps parse_round SameTitle SameTitle-trans (λ x. x.title_parsed ≡ true)
        parse_round-KeepsTitle (λ x y _ k. k.still_parsed) _ (receive r chunk) s t e in
    record {
      same_method = k.same_method;
      same_url = k.same_url;
      same_version = k.same_version;
      still_parsed = k.still_parsed;
    }
