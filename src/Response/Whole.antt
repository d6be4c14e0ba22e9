-- ===== src/Response/Whole.antt =====
-- A whole response, written by `commit` and read by `append_data`.
use server_coursework.Base.{
  pos, true, ◌≡◌, refl, subst, ap, ◌∙◌, some, none, [], ◌++◌, arith, if◌then◌else◌, ◌%◌, ◌==◌,
  Bytes, bytes_eq, codes, ℤ, length, length-append, returns,
}
use server_coursework.Text.Number.{stoi}
use server_coursework.OrdMap.{lookup}
use server_coursework.OrdMap.Keys.{bytes_Less}
use server_coursework.Message.{crlf, content_length}
use server_coursework.Message.Line.{Fits}
use server_coursework.Response.Commit.{commit, commit_headers, commit_chunks, chunk_size}
use server_coursework.Response.Twice.{commit_touched, touch_some}
use server_coursework.Response.Bodies.{
  parse_body-chunked, parse_body-unmarked, parse_body-take_body,
}
use server_coursework.Response.Written.{received, parse_chunks-commit_chunks}
use server_coursework.Response.RoundTrip.{IsPrintable, at_body, append_response-commit_headers}
use server_coursework.Response.{Response, fresh, transfer_encoding, chunked, take_body, append_data}

module _ (r : Response) (p : IsPrintable r) (none_there : lookup content_length r.headers ≡ none)
    (e : lookup transfer_encoding r.headers ≡ some chunked) (fits : Fits (commit r).0) where
  abbrev blank : Response
  blank = record r { body = [] }

  abbrev body_text : Bytes
  body_text = commit_chunks r.body ++ crlf

  text : (commit r).0 ≡ commit_headers r ++ body_text
  unfolding bytes_eq
  text = ap (λ c. c.0) (commit_touched r chunked r (touch_some r chunked e))

  Fits-text : Fits (commit_headers r ++ body_text)
  Fits-text = subst Fits text fits

  -- A printable response with Transfer-Encoding chunked and without Content-Length, whose text is
  -- shorter than 2^31 bytes, is complete when a fresh response has read what `commit` writes of it:
  -- status code, headers and body are those that were written. What is left over is the end that is
  -- written a second time if the length of the body is a multiple of the size of a chunk.
  pub append_data-commit :
      (unset : ℤ)
      → append_data (fresh unset) (commit r).0
        ≡ returns (
            received
              (at_body blank r.headers [])
              r.body
              (if length r.body % chunk_size == 0 then codes "0\r\n\r\n" else []))
  append_data-commit unset =
      ap (append_data (fresh unset)) text
      ∙ append_response-commit_headers r unset body_text p Fits-text
      ∙ parse_body-chunked (at_body blank r.headers body_text) none_there e
      ∙ parse_chunks-commit_chunks (at_body blank r.headers []) r.body
          (record { title_first = λ _. refl; headers_first = λ _. refl; sorted = p.sorted }) refl
          (omega (arith, Fits-text, length-append (commit_headers r) body_text))

-- A printable response whose Content-Length is the length of its body, Transfer-Encoding or not, is
-- read back as it was written, and is complete, if its headers and its body arrive in fewer than 2^31
-- bytes and nothing follows the body.
pub append_response_exact :
    (r : Response) (unset : ℤ) {v : Bytes}
    → IsPrintable r
    → lookup content_length r.headers ≡ some v
    → stoi v ≡ returns (pos (length r.body))
    → Fits (commit_headers r ++ r.body)
    → append_data (fresh unset) (commit_headers r ++ r.body)
      ≡ returns (record (at_body r r.headers []) { body_parsed = true })
unfolding take_body
append_response_exact r unset p found reads fits =
    append_response-commit_headers r unset r.body p fits
    ∙ parse_body-take_body (at_body (record r { body = [] }) r.headers r.body) found reads
    ∙ ap (λ b. returns (record (at_body r r.headers []) { body_parsed = b })) (ground arith)

-- A printable response with neither a Content-Length nor a Transfer-Encoding is complete at the empty
-- line behind its headers, with an empty body: its status code and headers are those that were written,
-- and whatever follows the empty line is left unread, as long as all is shorter than 2^31 bytes.
pub append_response_unmarked :
    (r : Response) (unset : ℤ) (rest : Bytes)
    → IsPrintable r
    → lookup content_length r.headers ≡ none
    → lookup transfer_encoding r.headers ≡ none
    → Fits (commit_headers r ++ rest)
    → append_data (fresh unset) (commit_headers r ++ rest)
      ≡ returns (record (at_body (record r { body = [] }) r.headers rest) { body_parsed = true })
append_response_unmarked r unset rest p no_length no_encoding fits =
    append_response-commit_headers r unset rest p fits
    ∙ parse_body-unmarked (at_body (record r { body = [] }) r.headers rest) no_length no_encoding
