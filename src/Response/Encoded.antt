-- ===== src/Response/Encoded.antt =====
-- The chunked encoding as `parse` reads it: whole bodies, and bodies that arrive in two reads.
use server_coursework.Base.{
  ℕ, ◌+◌, ◌%◌, ◌^◌, ◌≤◌, ◌<◌, ◌≡◌, refl, ap, ◌∙◌, true, List, [], ◌∷◌, ◌++◌, append_assoc,
  append-nil, arith, Bytes, length, length-append, returns, throws, out_of_range, word_mod, All,
}
use server_coursework.OrdMap.Keys.{bytes_Less}
use server_coursework.Message.{crlf}
use server_coursework.Message.Loop.{run-again, run-leave, run-throws}
use server_coursework.Message.Line.{Fits}
use server_coursework.Response.Chunks.{IsSize, round_chunk, round_waits, round_last, round_last_cut}
use server_coursework.Response.ChunkLoop.{IsWellFormed, IsAtChunks, unread, chunk_round-After}
use server_coursework.Response.{Response, chunk_round, parse_chunks}

-- A chunk on the wire: the line of its size, and its bytes.
pub record Chunk : Type 0 where
  pub digits : Bytes
  pub piece : Bytes

pub record IsChunk (c : Chunk) : Type 0 where
  pub sized : IsSize c.digits (length c.piece)
  pub nonempty : 0 < length c.piece

-- The text of the chunks, in front of `rest`.
abbrev pub encode : List Chunk → Bytes → Bytes
encode [] rest = rest
encode (c ∷ cs) rest = c.digits ++ (crlf ++ (c.piece ++ (crlf ++ encode cs rest)))

abbrev pub pieces : List Chunk → Bytes
pieces [] = []
pieces (c ∷ cs) = c.piece ++ pieces cs

-- A response in its body, with `text` to be read.
abbrev pub reading : Response → Bytes → Response
reading r text = record r { unparsed = text }

pub length-encode : (cs : List Chunk) (rest : Bytes) → length rest ≤ length (encode cs rest)
length-encode [] rest = omega arith
length-encode (c ∷ cs) rest = omega (
  arith,
  length-encode cs rest,
  length-append c.digits (crlf ++ (c.piece ++ (crlf ++ encode cs rest))),
  length-append c.piece (crlf ++ encode cs rest),
)

module _ (r : Response) (v : IsWellFormed r) (b : r.headers_parsed ≡ true) where
  ready : (body text : Bytes) → Fits text → IsAtChunks (record r { body = body; unparsed = text })
  ready body text fits = record {
    well_formed = record {
      title_first = v.title_first;
      headers_first = v.headers_first;
      sorted = v.sorted;
    };
    in_body = b;
    fits = fits;
  }

  -- Chunks that are all there are taken off one by one.
  pub chunks_taken :
      (cs : List Chunk) (body rest : Bytes)
      → All IsChunk cs
      → Fits (encode cs rest)
      → parse_chunks (record r { body = body; unparsed = encode cs rest })
        ≡ parse_chunks (record r { body = body ++ pieces cs; unparsed = rest })
  unfolding parse_chunks
  chunks_taken [] body rest h fits = rw append-nil refl
  chunks_taken (c ∷ cs) body rest (h, hs) fits =
      run-again chunk_round IsAtChunks IsWellFormed unread chunk_round-After _ _
        (record r { body = body; unparsed = encode (c ∷ cs) rest })
        (ready body (encode (c ∷ cs) rest) fits)
        (record r { body = body ++ c.piece; unparsed = encode cs rest })
        (round_chunk (record r { body = body }) c.digits (length c.piece) h.sized _ fits c.piece
          (encode cs rest) refl refl h.nonempty)
        (omega arith) (omega arith)
      ∙ chunks_taken cs (body ++ c.piece) rest hs later
      ∙ ap (λ x. parse_chunks (record r { body = x; unparsed = rest }))
          (append_assoc body c.piece (pieces cs))
    where
      later : Fits (encode cs rest)
      later = omega (
        arith,
        fits,
        length-append c.digits (crlf ++ (c.piece ++ (crlf ++ encode cs rest))),
        length-append c.piece (crlf ++ encode cs rest),
      )

  -- A chunked body that is all there, in fewer than 2^31 bytes, and whose size lines read as the
  -- lengths of its chunks, is read whole by a well-formed response behind its headers: the pieces of
  -- the chunks are joined, the body is complete, and what follows the last chunk is left to be read.
  pub parse_chunks-encode :
      (cs : List Chunk) (digits : Bytes) (size : ℕ) (rest : Bytes)
      → All IsChunk cs
      → IsSize digits size
      → size % word_mod ≡ 0
      → Fits (encode cs (digits ++ (crlf ++ (crlf ++ rest))))
      → parse_chunks (reading r (encode cs (digits ++ (crlf ++ (crlf ++ rest)))))
        ≡ returns (record r { body = r.body ++ pieces cs; unparsed = rest; body_parsed = true })
  parse_chunks-encode cs digits size rest hs h z fits = chunks_taken cs r.body _ hs fits ∙ ending
    where
      last : Bytes
      last = digits ++ (crlf ++ (crlf ++ rest))

      fits_last : Fits last
      fits_last = omega (arith, fits, length-encode cs last)

      ending :
          parse_chunks (record r { body = r.body ++ pieces cs; unparsed = last })
          ≡ returns (record r { body = r.body ++ pieces cs; unparsed = rest; body_parsed = true })
      ending =
          unfold parse_chunks in
          run-leave chunk_round IsAtChunks IsWellFormed unread chunk_round-After _
            (record r { body = r.body ++ pieces cs; unparsed = last }) (ready _ last fits_last) _
            (round_last (record r { body = r.body ++ pieces cs }) digits size h _ fits_last rest
              refl z)
            (omega arith)

  -- Chunks that are all there are taken into the body, and a chunk behind them of which bytes are
  -- still to come, its line apart, waits with the size it announced unread.
  pub parse_chunks_waits :
      (cs : List Chunk) (digits : Bytes) (size : ℕ) (after : Bytes)
      → All IsChunk cs
      → IsSize digits size
      → 0 < size
      → size < 2 ^ 31
      → length after < size + 2
      → Fits (encode cs (digits ++ (crlf ++ after)))
      → parse_chunks (reading r (encode cs (digits ++ (crlf ++ after))))
        ≡ returns (record r { body = r.body ++ pieces cs; unparsed = digits ++ (crlf ++ after) })
  parse_chunks_waits cs digits size after hs h p small short fits =
      chunks_taken cs r.body _ hs fits ∙ ending
    where
      last : Bytes
      last = digits ++ (crlf ++ after)

      fits_last : Fits last
      fits_last = omega (arith, fits, length-encode cs last)

      ending :
          parse_chunks (record r { body = r.body ++ pieces cs; unparsed = last })
          ≡ returns (record r { body = r.body ++ pieces cs; unparsed = last })
      ending =
          unfold parse_chunks in
          run-leave chunk_round IsAtChunks IsWellFormed unread chunk_round-After _
            (record r { body = r.body ++ pieces cs; unparsed = last }) (ready _ last fits_last) _
            (round_waits (record r { body = r.body ++ pieces cs }) digits size h after fits_last p
              small short)
            (omega arith)

  -- If a read ends between the line of the last chunk and the line end behind it, the parser
  -- throws, however many chunks came before, as long as the text is shorter than 2^31 bytes.
  pub parse_chunks_cut-throws :
      (cs : List Chunk) (digits : Bytes) (size : ℕ) (after : Bytes)
      → All IsChunk cs
      → IsSize digits size
      → size % word_mod ≡ 0
      → length after < 2
      → Fits (encode cs (digits ++ (crlf ++ after)))
      → parse_chunks (reading r (encode cs (digits ++ (crlf ++ after)))) ≡ throws out_of_range
  parse_chunks_cut-throws cs digits size after hs h z short fits =
      chunks_taken cs r.body _ hs fits ∙ ending
    where
      last : Bytes
      last = digits ++ (crlf ++ after)

      fits_last : Fits last
      fits_last = omega (arith, fits, length-encode cs last)

      ending :
          parse_chunks (record r { body = r.body ++ pieces cs; unparsed = last })
          ≡ throws out_of_range
      ending =
          unfold parse_chunks in
          run-throws chunk_round IsAtChunks IsWellFormed unread chunk_round-After _
            (record r { body = r.body ++ pieces cs; unparsed = last }) (ready _ last fits_last) _
            (round_last_cut (record r { body = r.body ++ pieces cs }) digits size h after fits_last
              short z)
            (omega arith)
