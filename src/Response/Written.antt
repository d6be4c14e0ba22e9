-- ===== src/Response/Written.antt =====
-- What `commit` writes of a body in chunks, read by `parse`.
use server_coursework.Base.{
  ℕ, zero, suc, ◌+◌, ◌-◌, ◌*◌, ◌/◌, ◌%◌, ◌≤◌, ◌<◌, ◌≡◌, refl, sym, ap, ◌∙◌, true, List, [], ◌∷◌,
  ◌++◌, append_assoc, append-nil, arith, ◌==◌, if◌then◌else◌, Bool-cases, inl, inr, Bytes, codes,
  length, take, drop, length-take, length-drop, take-append-drop, returns, All, All-append, subst,
}
use server_coursework.Message.{crlf}
use server_coursework.Message.Line.{Fits}
use server_coursework.Response.Commit.{int_to_hex, chunk_size, whole_chunks, commit_chunks}
use server_coursework.Response.ChunkLoop.{IsWellFormed}
use server_coursework.Response.Encoded.{
  Chunk, IsChunk, encode, pieces, reading, parse_chunks-encode,
}
use server_coursework.Response.{Response, parse_chunks}
use server_coursework.Response.Sizes.{rest-IsSize, zero-IsSize, full-IsSize}

drop_nil : (n : ℕ) → drop {A = ℕ} n [] ≡ []
drop_nil zero = refl
drop_nil (suc n) = refl

drop-drop : (m n : ℕ) (s : Bytes) → drop n (drop m s) ≡ drop (m + n) s
drop-drop zero n s = ap (λ k. drop k s) (omega arith)
drop-drop (suc m) n [] = drop_nil n ∙ sym (drop_nil (suc m + n))
drop-drop (suc m) n (c ∷ s) =
    drop-drop m n s ∙ ap (λ k. drop k (c ∷ s)) {x = suc (m + n)} {y = suc m + n} (omega arith)

-- The chunks that `whole_chunks` writes.
abbrev pub full_chunks : ℕ → ℕ → Bytes → List Chunk
full_chunks zero i body = []
full_chunks (suc rounds) i body =
    record {
      digits = int_to_hex 4 chunk_size;
      piece = take chunk_size (drop (chunk_size * i) body);
    }
    ∷ full_chunks rounds (i + 1) body

full_chunks-IsChunk :
    (rounds i : ℕ) (body : Bytes)
    → chunk_size * (i + rounds) ≤ length body
    → All IsChunk (full_chunks rounds i body)
full_chunks-IsChunk zero i body h = tt
full_chunks-IsChunk (suc rounds) i body h = (
  record { sized = rw full full-IsSize; nonempty = omega (arith, full) },
  full_chunks-IsChunk rounds (i + 1) body (omega arith),
)
  where
    full : length (take chunk_size (drop (chunk_size * i) body)) ≡ chunk_size
    full = omega (
      arith,
      length-take chunk_size (drop (chunk_size * i) body),
      length-drop (chunk_size * i) body,
    )

full_chunks-pieces :
    (rounds i : ℕ) (body : Bytes)
    → pieces (full_chunks rounds i body) ++ drop (chunk_size * (i + rounds)) body
      ≡ drop (chunk_size * i) body
full_chunks-pieces zero i body = ap (λ n. drop (chunk_size * n) body) (omega arith)
full_chunks-pieces (suc rounds) i body =
    append_assoc (take chunk_size (drop (chunk_size * i) body))
      (pieces (full_chunks rounds (i + 1) body)) _
    ∙ ap (λ t. take chunk_size (drop (chunk_size * i) body) ++ t)
        (ap (λ n. pieces (full_chunks rounds (i + 1) body) ++ drop (chunk_size * n) body)
            (omega arith)
          ∙ full_chunks-pieces rounds (i + 1) body
          ∙ ap (λ n. drop n body) (omega arith)
          ∙ sym (drop-drop (chunk_size * i) chunk_size body))
    ∙ take-append-drop chunk_size (drop (chunk_size * i) body)

whole_chunks-encode :
    (rounds i : ℕ) (body rest : Bytes)
    → whole_chunks rounds i body ++ rest ≡ encode (full_chunks rounds i body) rest
unfolding whole_chunks
whole_chunks-encode zero i body rest = refl
whole_chunks-encode (suc rounds) i body rest =
    append_assoc line (whole_chunks rounds (i + 1) body) rest
    ∙ ap (λ t. line ++ t) (whole_chunks-encode rounds (i + 1) body rest)
    ∙ append_assoc (int_to_hex 4 chunk_size) (crlf ++ (piece ++ crlf)) later
    ∙ ap (λ t. int_to_hex 4 chunk_size ++ (crlf ++ t)) (append_assoc piece crlf later)
  where
    piece : Bytes
    piece = take chunk_size (drop (chunk_size * i) body)

    line : Bytes
    line = int_to_hex 4 chunk_size ++ (crlf ++ (piece ++ crlf))

    later : Bytes
    later = encode (full_chunks rounds (i + 1) body) rest

encode-append :
    (cs ds : List Chunk) (rest : Bytes) → encode (cs ++ ds) rest ≡ encode cs (encode ds rest)
encode-append [] ds rest = refl
encode-append (c ∷ cs) ds rest =
    ap (λ t. c.digits ++ (crlf ++ (c.piece ++ (crlf ++ t)))) (encode-append cs ds rest)

pieces-append : (cs ds : List Chunk) → pieces (cs ++ ds) ≡ pieces cs ++ pieces ds
pieces-append [] ds = refl
pieces-append (c ∷ cs) ds =
    ap (λ t. c.piece ++ t) (pieces-append cs ds)
    ∙ sym (append_assoc c.piece (pieces cs) (pieces ds))

module _ (body : Bytes) where
  abbrev full : List Chunk
  full = full_chunks (length body / chunk_size) 0 body

  abbrev tail : Bytes
  tail = drop (length body - length body % chunk_size) body

  full-IsChunk : All IsChunk full
  full-IsChunk = full_chunks-IsChunk (length body / chunk_size) 0 body (omega arith)

  full-tail : pieces full ++ tail ≡ body
  full-tail =
      ap (λ n. pieces full ++ drop n body) (omega arith)
      ∙ full_chunks-pieces (length body / chunk_size) 0 body

  length-tail : length tail ≡ length body % chunk_size
  length-tail = omega (arith, length-drop (length body - length body % chunk_size) body)

  -- The chunks, the line of the remainder, and the end.
  commit_chunks-encode :
      commit_chunks body ++ crlf
      ≡ encode full
          (int_to_hex 8 (length body % chunk_size) ++ (crlf ++ (tail ++ codes "\r\n0\r\n\r\n")))
  unfolding commit_chunks
  commit_chunks-encode =
      append_assoc (whole_chunks (length body / chunk_size) 0 body) _ crlf
      ∙ whole_chunks-encode (length body / chunk_size) 0 body _
      ∙ ap (encode full) (
          append_assoc (int_to_hex 8 (length body % chunk_size)) _ crlf
          ∙ ap (λ t. int_to_hex 8 (length body % chunk_size) ++ (crlf ++ t))
              (append_assoc tail _ crlf))

-- The response that the chunks of `commit` bring.
abbrev pub received : Response → Bytes → Bytes → Response
received r body rest = record r { body = r.body ++ body; unparsed = rest; body_parsed = true }

length_nil : (s : Bytes) → length s ≡ 0 → s ≡ []
length_nil [] e = refl
length_nil (c ∷ s) e = absurd (omega arith)

module _ (r : Response) (body : Bytes) (v : IsWellFormed r) (b : r.headers_parsed ≡ true)
    (fits : Fits (commit_chunks body ++ crlf)) where
  abbrev over : ℕ
  over = length body % chunk_size

  no_remainder :
      over ≡ 0
      → parse_chunks (reading r (commit_chunks body ++ crlf))
        ≡ returns (received r body (codes "0\r\n\r\n"))
  no_remainder z =
      ap (λ t. parse_chunks (reading r t)) text
      ∙ parse_chunks-encode r v b (full body) (int_to_hex 8 over) over (codes "0\r\n\r\n")
          (full-IsChunk body) (rest-IsSize over (omega arith)) (omega arith) (subst Fits text fits)
      ∙ ap (λ t. returns (received r t (codes "0\r\n\r\n"))) whole
    where
      no_tail : tail body ≡ []
      no_tail = length_nil (tail body) (length-tail body ∙ z)

      text :
          commit_chunks body ++ crlf
          ≡ encode (full body) (int_to_hex 8 over ++ (crlf ++ codes "\r\n0\r\n\r\n"))
      text =
          commit_chunks-encode body
          ∙ ap
              (λ t.
                encode (full body) (int_to_hex 8 over ++ (crlf ++ (t ++ codes "\r\n0\r\n\r\n"))))
              no_tail

      whole : pieces (full body) ≡ body
      whole =
          sym (append-nil (pieces (full body)))
          ∙ ap (λ t. pieces (full body) ++ t) (sym no_tail)
          ∙ full-tail body

  remainder :
      0 < over
      → parse_chunks (reading r (commit_chunks body ++ crlf)) ≡ returns (received r body [])
  remainder p =
      ap (λ t. parse_chunks (reading r t)) text
      ∙ parse_chunks-encode r v b (full body ++ (last ∷ [])) (codes "0") 0 []
          (All-append IsChunk (full body) (last ∷ []) (full-IsChunk body) (last-IsChunk, tt))
          zero-IsSize refl (subst Fits text fits)
      ∙ ap (λ t. returns (received r t [])) whole
    where
      last : Chunk
      last = record { digits = int_to_hex 8 over; piece = tail body }

      last-IsChunk : IsChunk last
      last-IsChunk = record {
        sized = rw (length-tail body) (rest-IsSize over (omega arith));
        nonempty = omega (arith, length-tail body);
      }

      text :
          commit_chunks body ++ crlf
          ≡ encode (full body ++ (last ∷ [])) (codes "0" ++ (crlf ++ (crlf ++ [])))
      text =
          commit_chunks-encode body
          ∙ sym (encode-append (full body) (last ∷ []) (codes "0\r\n\r\n"))

      whole : pieces (full body ++ (last ∷ [])) ≡ body
      whole =
          pieces-append (full body) (last ∷ [])
          ∙ ap (λ t. pieces (full body) ++ t) (append-nil (tail body))
          ∙ full-tail body

  -- A body that is written in chunks, in fewer than 2^31 bytes, is read back whole by a well-formed
  -- response behind its headers, whatever the bytes of the body. If its length is a
  -- multiple of the size of a chunk, the empty chunk that is written for the remainder already ends
  -- it, and the end that is written behind it is left over.
  pub parse_chunks-commit_chunks :
      parse_chunks (reading r (commit_chunks body ++ crlf))
      ≡ returns (received r body (if over == 0 then codes "0\r\n\r\n" else []))
  parse_chunks-commit_chunks = elim (Bool-cases (over == 0)) [
    | inl even ↦ rw even (no_remainder (ground arith))
    | inr odd ↦ rw odd (remainder (ground arith))
  ]
