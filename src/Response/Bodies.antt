-- ===== src/Response/Bodies.antt =====
-- Reads that find a response in its body, by what its headers say of the length.
use server_coursework.Base.{
  ℕ, ◌+◌, ◌^◌, ◌<◌, ◌≡◌, refl, sym, ap, ◌∙◌, true, false, Option, none, some, List, [], ◌∷◌, ◌++◌,
  append_assoc, append-nil, arith, if◌then◌else◌, Bytes, bytes_eq, ℤ, subst, length, length-append,
  Outcome, returns, ◌>>=◌, returns-bind, All,
}
use server_coursework.Text.Number.{stoi}
use server_coursework.OrdMap.{lookup}
use server_coursework.OrdMap.Keys.{bytes_Less}
use server_coursework.Message.{crlf, content_length}
use server_coursework.Message.Line.{Fits}
use server_coursework.Response.Chunks.{IsSize}
use server_coursework.Response.ChunkLoop.{IsWellFormed}
use server_coursework.Response.Encoded.{
  Chunk, IsChunk, encode, pieces, chunks_taken, length-encode, reading, parse_chunks_waits,
}
use server_coursework.Response.Termination.{ready, parse-body_stage}
use server_coursework.Response.{
  Response, is_complete, transfer_encoding, chunked, parse_chunks, parse_encoded, parse_body,
  take_body, append_data, receive,
}

-- A response behind its headers, without a `Content-Length`.
pub record IsInBody (r : Response) : Type 0 where
  pub well_formed : IsWellFormed r
  pub in_body : (r.title_parsed ≡ true) × (r.headers_parsed ≡ true) × (r.body_parsed ≡ false)
  pub no_length : lookup content_length r.headers ≡ none

-- What `parse_body` comes to where there is no length.
encoding_branch : Response → Option Bytes → Outcome Response
encoding_branch r (some encoding) = parse_encoded r encoding
encoding_branch r none = returns (record r { body_parsed = true })

parse_body_no_length :
    (r : Response)
    → lookup content_length r.headers ≡ none
    → parse_body r ≡ encoding_branch r (lookup transfer_encoding r.headers)
unfolding parse_body encoding_branch
parse_body_no_length r e =
    rw (e, parse_body) (elim (lookup transfer_encoding r.headers) [ none ↦ refl | some x ↦ refl ])

pub parse_body-take_body :
    (r : Response) {v : Bytes} {cnt : ℤ}
    → lookup content_length r.headers ≡ some v
    → stoi v ≡ returns cnt
    → parse_body r ≡ returns (take_body r cnt)
unfolding parse_body
parse_body-take_body r found reads = rw (found, parse_body) (returns-bind _ reads refl)

pub parse_body-chunked :
    (r : Response)
    → lookup content_length r.headers ≡ none
    → lookup transfer_encoding r.headers ≡ some chunked
    → parse_body r ≡ parse_chunks r
unfolding encoding_branch parse_encoded bytes_eq
parse_body-chunked r none_there e = parse_body_no_length r none_there ∙ ap (encoding_branch r) e

pub parse_body-unmarked :
    (r : Response)
    → lookup content_length r.headers ≡ none
    → lookup transfer_encoding r.headers ≡ none
    → parse_body r ≡ returns (record r { body_parsed = true })
unfolding encoding_branch
parse_body-unmarked r no_length e = parse_body_no_length r no_length ∙ ap (encoding_branch r) e

module _ (r : Response) (chunk : Bytes) (i : IsInBody r) (fits : Fits (r.unparsed ++ chunk)) where
  read_body :
      append_data r chunk ≡ encoding_branch (receive r chunk) (lookup transfer_encoding r.headers)
  unfolding append_data
  read_body =
      parse-body_stage (receive r chunk)
        (ready
          (record {
            title_first = i.well_formed.title_first;
            headers_first = i.well_formed.headers_first;
            sorted = i.well_formed.sorted;
          })
          (ground (arith, i.in_body)) fits)
        i.in_body.0 i.in_body.1
      ∙ parse_body_no_length (receive r chunk) i.no_length

  -- A response of another encoding than chunked takes in the bytes and waits.
  append_data_other :
      (encoding : Bytes)
      → lookup transfer_encoding r.headers ≡ some encoding
      → bytes_eq encoding chunked ≡ false
      → append_data r chunk ≡ returns (receive r chunk)
  unfolding encoding_branch parse_encoded
  append_data_other encoding e other =
      read_body
      ∙ ap (encoding_branch (receive r chunk)) e
      ∙ ap (λ b. if b then parse_chunks (receive r chunk) else returns (receive r chunk)) other

  append_data-chunked :
      lookup transfer_encoding r.headers ≡ some chunked
      → append_data r chunk ≡ parse_chunks (receive r chunk)
  unfolding encoding_branch parse_encoded bytes_eq
  append_data-chunked e = read_body ∙ ap (encoding_branch (receive r chunk)) e

-- The bytes of several reads.
abbrev pub all_bytes : List Bytes → Bytes
all_bytes [] = []
all_bytes (chunk ∷ chunks) = chunk ++ all_bytes chunks

-- Several reads in turn.
unfoldable pub append_all : Response → List Bytes → Outcome Response
append_all r [] = returns r
append_all r (chunk ∷ chunks) = append_data r chunk >>= λ s. append_all s chunks

received-IsInBody : (r : Response) (chunk : Bytes) → IsInBody r → IsInBody (receive r chunk)
received-IsInBody r chunk i = record {
  well_formed = record {
    title_first = i.well_formed.title_first;
    headers_first = i.well_formed.headers_first;
    sorted = i.well_formed.sorted;
  };
  in_body = i.in_body;
  no_length = i.no_length;
}

-- A response whose Transfer-Encoding is not `chunked`, and which has no Content-Length, is never
-- complete: each further read is added to the bytes that wait, as long as they are fewer than 2^31.
pub append_all_other :
    (r : Response) (chunks : List Bytes) (encoding : Bytes)
    → IsInBody r
    → lookup transfer_encoding r.headers ≡ some encoding
    → bytes_eq encoding chunked ≡ false
    → Fits (r.unparsed ++ all_bytes chunks)
    → (append_all r chunks ≡ returns (receive r (all_bytes chunks)))
      × (is_complete (receive r (all_bytes chunks)) ≡ false)
unfolding append_all
append_all_other r [] encoding i e other fits = (
  ap (λ t. returns (record r { unparsed = t })) (sym (append-nil r.unparsed)),
  ground (arith, i.in_body),
)
append_all_other r (chunk ∷ chunks) encoding i e other fits = (
  returns-bind _ (append_data_other r chunk i (omega (arith, whole, moved, fits)) encoding e other)
      ((append_all_other (receive r chunk) chunks encoding (received-IsInBody r chunk i) e other
          (omega (arith, moved, fits))).0
        ∙ ap (λ t. returns (record r { unparsed = t }))
            (append_assoc r.unparsed chunk (all_bytes chunks))),
  ground (arith, i.in_body),
)
  where
    moved :
        length ((r.unparsed ++ chunk) ++ all_bytes chunks)
        ≡ length (r.unparsed ++ (chunk ++ all_bytes chunks))
    moved = ap length (append_assoc r.unparsed chunk (all_bytes chunks))

    whole :
        length ((r.unparsed ++ chunk) ++ all_bytes chunks)
        ≡ length (r.unparsed ++ chunk) + length (all_bytes chunks)
    whole = length-append (r.unparsed ++ chunk) (all_bytes chunks)

encode-rest : (cs : List Chunk) (a b : Bytes) → encode cs a ++ b ≡ encode cs (a ++ b)
encode-rest [] a b = refl
encode-rest (c ∷ cs) a b =
    append_assoc c.digits (crlf ++ (c.piece ++ (crlf ++ encode cs a))) b
    ∙ ap (λ t. c.digits ++ (crlf ++ t)) (append_assoc c.piece (crlf ++ encode cs a) b)
    ∙ ap (λ t. c.digits ++ (crlf ++ (c.piece ++ (crlf ++ t)))) (encode-rest cs a b)

module _ (r : Response) (cs : List Chunk) (digits : Bytes) (size : ℕ) (after b : Bytes)
    (i : IsInBody r) (e : lookup transfer_encoding r.headers ≡ some chunked)
    (empty : r.unparsed ≡ []) (hs : All IsChunk cs) (h : IsSize digits size) (p : 0 < size)
    (small : size < 2 ^ 31) (short : length after < size + 2)
    (fits : Fits (encode cs (digits ++ (crlf ++ after)) ++ b)) where
  abbrev last : Bytes
  last = digits ++ (crlf ++ after)

  abbrev stopped : Response
  stopped = record r { body = r.body ++ pieces cs; unparsed = last }

  stopped-IsInBody : IsInBody stopped
  stopped-IsInBody = record {
    well_formed = record {
      title_first = i.well_formed.title_first;
      headers_first = i.well_formed.headers_first;
      sorted = i.well_formed.sorted;
    };
    in_body = i.in_body;
    no_length = i.no_length;
  }

  Fits-first : Fits (encode cs last)
  Fits-first = omega (arith, fits, length-append (encode cs last) b)

  Fits-both : Fits (encode cs (last ++ b))
  Fits-both = subst Fits (encode-rest cs last b) fits

  Fits-second : Fits (last ++ b)
  Fits-second = omega (arith, Fits-both, length-encode cs (last ++ b))

  reads_chunks : (text : Bytes) → Fits text → append_data r text ≡ parse_chunks (reading r text)
  reads_chunks text f =
      append_data-chunked r text i (subst Fits (sym whole) f) e
      ∙ ap (λ t. parse_chunks (reading r t)) whole
    where
      whole : r.unparsed ++ text ≡ text
      whole = ap (λ t. t ++ text) empty

  stops : append_data r (encode cs last) ≡ returns stopped
  stops =
      reads_chunks (encode cs last) Fits-first
      ∙ parse_chunks_waits r i.well_formed i.in_body.1 cs digits size after hs h p small short
          Fits-first

  goes_on : append_data stopped b ≡ append_data r (encode cs last ++ b)
  goes_on =
      append_data-chunked stopped b stopped-IsInBody Fits-second e
      ∙ sym (chunks_taken r i.well_formed i.in_body.1 cs r.body (last ++ b) hs Fits-both)
      ∙ ap (λ t. parse_chunks (reading r t)) (sym (encode-rest cs last b))
      ∙ sym (reads_chunks (encode cs last ++ b) fits)

  -- How the chunks are cut into reads does not matter, as long as a read brings whole chunks and, at
  -- its end, the line of one more, of a size that is positive and below 2^31, with not all of its
  -- bytes: the pieces are taken into the body, and the next read goes on as if both had come at once.
  -- The response is well formed and behind its headers, which have Transfer-Encoding chunked and no
  -- Content-Length, no bytes of it are left unread before, its body is not complete, and both reads
  -- together are shorter than 2^31 bytes.
  pub append_data_chunks-split :
      (s : Response) × (append_data r (encode cs last) ≡ returns s)
      × (s.body ≡ r.body ++ pieces cs)
      × (append_data s b ≡ append_data r (encode cs last ++ b))
  append_data_chunks-split = (stopped, stops, refl, goes_on)
