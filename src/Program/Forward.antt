-- ===== src/Program/Forward.antt =====
-- A response on its way from the host to the client.
use server_coursework.Base.{
  [], ℕ, ℤ, pos, ◌≡◌, refl, ap, ◌∙◌, true, none, some, ◌++◌, Bytes, length, bytes_eq, returns,
}
use server_coursework.OrdMap.{lookup}
use server_coursework.OrdMap.Laws.{IsSorted, assign-assign}
use server_coursework.OrdMap.Keys.{int_Less, nat_Less, bytes_Less}
use server_coursework.Text.Number.{stoi}
use server_coursework.Message.{crlf, content_length}
use server_coursework.Message.Line.{Fits}
use server_coursework.Socket.{Os}
use server_coursework.Connection.{recieve_data, send_data}
use server_coursework.Epoll.{Ctl}
use server_coursework.Response.{Response, transfer_encoding, chunked}
use server_coursework.Response
use server_coursework.Response.Commit.{commit, commit_headers}
use server_coursework.Response.RoundTrip.{IsPrintable, at_body}
use server_coursework.Response.Whole.{append_response_exact}
use server_coursework.Response.Twice.{commit_touched, touch_none}
use server_coursework.Program.{Program, Link, bridge, Unset, client_ref, bridge_ref}
use server_coursework.Program.HttpConnection.{
  response_ref, set_response, take_response, bridge_income, send_response,
}
use server_coursework.Program.Proxy.{handle_income, response_handler}

-- What is written of a response that has been read, where it has no transfer encoding.
commit_read :
    (r : Response)
    → lookup transfer_encoding r.headers ≡ none
    → (commit (record (at_body r r.headers []) { body_parsed = true })).0
      ≡ commit_headers r ++ (r.body ++ crlf)
unfolding bytes_eq commit_headers
commit_read r e =
    let read = record (at_body r r.headers []) { body_parsed = true } in
    ap (λ t. t.0) (commit_touched read [] _ (touch_none read e))

module _ {K S A : Type 0} ⦃ctl : Ctl K⦄ (os : Os S A) (unset : Unset) where
  -- The response of `address` is complete with `taken`, and is written to the client.
  take_response-sends :
      (c : ℤ) (address : ℕ) (text : Bytes) (p : Program K S) (t : S) (before taken : Response)
      (con : Link)
      → lookup address p.responses ≡ some before
      → Response.append_data before text ≡ returns taken
      → Response.is_complete taken ≡ true
      → lookup c p.clients ≡ some con
      → send_data os con.connection (commit taken).0 p.os ≡ (returns tt, t)
      → take_response os unset (response_handler os c) address text p ≡ (
        returns tt,
        set_response address
            (Response.fresh unset.number)
            (record (set_response address taken p) { os = t }),
      )
  unfolding take_response response_ref response_handler client_ref send_response set_response
  take_response-sends c address text p t before taken con cell took complete client sent =
      rw
        (
          cell, take_response, response_ref, took, complete, client, response_handler, client_ref,
          sent,
        )
        refl

  bridge_income-sends :
      (c : ℤ) (address : ℕ) (p : Program K S) (s t : S) (text : Bytes) {host : Bytes} {k con : Link}
      (before taken : Response)
      → lookup c p.con_map ≡ some (host, k)
      → recieve_data os k.connection p.os ≡ (returns text, s)
      → lookup address p.responses ≡ some before
      → Response.append_data before text ≡ returns taken
      → Response.is_complete taken ≡ true
      → lookup c p.clients ≡ some con
      → send_data os con.connection (commit taken).0 s ≡ (returns tt, t)
      → bridge_income os unset (response_handler os c) c address p ≡ (
        returns tt,
        set_response address
            (Response.fresh unset.number)
            (record (set_response address taken p) { os = t }),
      )
  unfolding bridge_income bridge_ref set_response
  bridge_income-sends c address p s t text {con = con} before taken bridged read cell took complete
        client sent =
      rw
        (
          bridged,
          bridge_income,
          bridge_ref,
          read,
          take_response-sends c address text (record p { os = s }) t before taken con cell took
              complete client sent,
        )
        refl

  -- A response that comes in the form in which the program writes one is sent to the client byte for
  -- byte, with a line end behind it, and in all else the program is as it was, ready for the next
  -- response. This form is what `commit_headers` writes of a printable response, with HTTP/1.1 and each
  -- header once and in order, and its body behind it; its Content-Length is the length of the body, and
  -- it has no Transfer-Encoding. It is to come in one read of fewer than 2^31 bytes, on a bridge whose
  -- client is there and which has read nothing of a response yet; the responses are in the order of
  -- their addresses, and the write does not throw.
  pub handle_income-forwards :
      (p : Program K S) (f c : ℤ) (address : ℕ) (r : Response) (s t : S) {host v : Bytes}
      {k con : Link}
      → IsSorted p.responses
      → lookup c p.con_map ≡ some (host, k)
      → lookup c p.clients ≡ some con
      → lookup address p.responses ≡ some (Response.fresh unset.number)
      → IsPrintable r
      → lookup content_length r.headers ≡ some v
      → stoi v ≡ returns (pos (length r.body))
      → lookup transfer_encoding r.headers ≡ none
      → Fits (commit_headers r ++ r.body)
      → recieve_data os k.connection p.os ≡ (returns (commit_headers r ++ r.body), s)
      → send_data os con.connection (commit_headers r ++ (r.body ++ crlf)) s ≡ (returns tt, t)
      → handle_income os unset (bridge c address) f p ≡ (returns tt, record p { os = t })
  unfolding handle_income set_response
  handle_income-forwards p f c address r s t {con = con} sorted bridged client cell printable found
        reads none_there fits read sent =
      bridge_income-sends c address p s t (commit_headers r ++ r.body) (Response.fresh unset.number)
        (record (at_body r r.headers []) { body_parsed = true }) bridged read cell
        (append_response_exact r unset.number printable found reads fits) refl client
        (ap (λ text. send_data os con.connection text s) (commit_read r none_there) ∙ sent)
      ∙ ap (λ m. (returns tt, record p { responses = m; os = t }))
          (assign-assign address (Response.fresh unset.number) _ p.responses sorted cell)
