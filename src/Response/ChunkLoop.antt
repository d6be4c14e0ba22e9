-- ===== src/Response/ChunkLoop.antt =====
-- The loop over the chunks comes back.
use server_coursework.Base.{
  ℕ, ◌+◌, ◌%◌, ◌<◌, ◌≡◌, inl, inr, true, arith, ◌==◌, ltb, Bool-cases, Bytes, length, Ensures, ℤ,
  add_size, word_mod,
}
use server_coursework.Text.Find.{find}
use server_coursework.Text.Chain.{bind-substr, bind-substr_from, bind-stoul}
use server_coursework.OrdMap.Laws.{IsSorted}
use server_coursework.OrdMap.Keys.{bytes_Less}
use server_coursework.Message.{crlf, Round}
use server_coursework.Message.Loop.{After, loop-Done}
use server_coursework.Message.Line.{Fits, find-cases}
use server_coursework.Response.{
  Response, fresh, last_chunk, take_chunk, sized_chunk, chunk_round, parse_chunks, receive,
}

-- The flags are set in the order of the stages, and the headers stand in the order of their names.
pub record IsWellFormed (r : Response) : Type 0 where
  pub title_first : r.headers_parsed ≡ true → r.title_parsed ≡ true
  pub headers_first : r.body_parsed ≡ true → r.headers_parsed ≡ true
  pub sorted : IsSorted r.headers

pub fresh-IsWellFormed : (code : ℤ) (text : Bytes) → IsWellFormed (receive (fresh code) text)
fresh-IsWellFormed code text = record {
  title_first = λ e. cc;
  headers_first = λ e. cc;
  sorted = tt;
}

-- A response whose chunks can be read.
pub record IsAtChunks (r : Response) : Type 0 where
  pub well_formed : IsWellFormed r
  pub in_body : r.headers_parsed ≡ true
  pub fits : Fits r.unparsed

abbrev pub unread : Response → ℕ
unread r = length r.unparsed

abbrev pub AfterChunk : Response → Round Response → Type 0
AfterChunk = After chunk_round IsAtChunks IsWellFormed unread

line_taken : (s : Bytes) → Fits s → 0 < add_size (find s crlf) 2
line_taken s fits = ground (arith, find-cases s fits)

take_chunk-After :
    (r : Response) (size : ℕ) (temp : Bytes)
    → IsAtChunks r
    → length temp < length r.unparsed
    → Ensures (AfterChunk r) (take_chunk r size temp)
unfolding take_chunk
take_chunk-After r size temp i less =
    elim (Bool-cases (ltb (length temp) ((size + 2) % word_mod))) [
      | inl short ↦ rw short i.well_formed
      | inr long ↦ rw long (
          bind-substr (AfterChunk r) _ _ _ _
            λ piece. bind-substr_from (AfterChunk r) _ _ _ λ rest e. ground arith)
    ]

sized_chunk-After :
    (r : Response) (size : ℕ)
    → IsAtChunks r
    → 0 < length r.unparsed
    → Ensures (AfterChunk r) (sized_chunk r size)
unfolding sized_chunk last_chunk
sized_chunk-After r size i some_text = elim (Bool-cases (size == 0)) [
  | inl last ↦ rw last (bind-substr_from (AfterChunk r) _ _ _ λ rest e. ground arith)
  | inr more ↦ rw more (
      bind-substr_from (AfterChunk r) _ _ _
        λ temp e. take_chunk-After r size temp i (omega (arith, line_taken r.unparsed i.fits, e)))
]

pub chunk_round-After : (r : Response) → IsAtChunks r → Ensures (AfterChunk r) (chunk_round r)
unfolding chunk_round
chunk_round-After r i = elim (Bool-cases (length r.unparsed == 0)) [
  | inl empty ↦ rw empty i.well_formed
  | inr more ↦ rw more (
      bind-substr (AfterChunk r) _ _ _ _ λ digits.
        bind-stoul (AfterChunk r) _ _
          λ size. sized_chunk-After r (size % word_mod) i (ground arith))
]

-- The loop over the chunks comes back.
pub parse_chunks-IsWellFormed :
    (r : Response) → IsAtChunks r → Ensures IsWellFormed (parse_chunks r)
unfolding parse_chunks
parse_chunks-IsWellFormed r i =
    loop-Done chunk_round IsAtChunks IsWellFormed unread chunk_round-After _ r (omega arith) i
