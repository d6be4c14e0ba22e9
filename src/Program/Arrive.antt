-- ===== src/Program/Arrive.antt =====
-- A request that comes in from a client, up to its host.
use server_coursework.Base.{
  ℤ, ◌≡◌, refl, ◌∙◌, subst, true, some, [], ◌++◌, Bytes, length, pos, returns,
}
use server_coursework.Actions.{Action, Ends}
use server_coursework.Text.Number.{stoi}
use server_coursework.OrdMap.{lookup}
use server_coursework.OrdMap.Laws.{IsSorted}
use server_coursework.OrdMap.Keys.{bytes_Less, int_Less}
use server_coursework.Message.{crlf, content_length}
use server_coursework.Message.Line.{Fits}
use server_coursework.Socket.{Os}
use server_coursework.Socket.Opening.{Opens}
use server_coursework.Connection.{recieve_data}
use server_coursework.Epoll.{Ctl}
use server_coursework.Request
use server_coursework.Request.{Request, commit_headers, is_complete}
use server_coursework.Request.RoundTrip.{IsPrintable}
use server_coursework.Request.Body.{complete_with, append_data_exact}
use server_coursework.Program.{Program, Link, client, Unset, fd_of, client_ref}
use server_coursework.Program.TcpServer.{client_at, client_income}
use server_coursework.Program.HttpServer.{
  data_income, request_at, set_request, erase_request, finish_request, client_checked,
}
use server_coursework.Program.Proxy.{handle_income, relay, on_request, host_of}
use server_coursework.Program.Route.{IsRouted, relay-IsRouted}

module _ {K S A : Type 0} ⦃ctl : Ctl K⦄ (os : Os S A) (unset : Unset) (o : Opens os) where
  -- A complete request is passed on, and then forgotten.
  finish_request-relays :
      (p q : Program K S) (taken : Request) (con : Link)
      → lookup (fd_of con) p.clients ≡ some con
      → relay os unset (fd_of con) taken p ≡ (returns tt, q)
      → finish_request (on_request os unset) (fd_of con) taken p
        ≡ (returns tt, erase_request (fd_of con) q)
  unfolding finish_request client_checked on_request client_ref erase_request
  finish_request-relays p q taken con found passed =
      rw (found, finish_request, client_checked, found, on_request, client_ref, passed) refl

  -- The request of `con` is complete with `taken`.
  data_income-finishes :
      (on_request : ℤ → Request → Action (Program K S) Unit) (p : Program K S) (s : S)
      (text : Bytes) (before taken : Request) (con : Link)
      → lookup (fd_of con) p.clients ≡ some con
      → recieve_data os con.connection p.os ≡ (returns text, s)
      → lookup (fd_of con) p.request_map ≡ some before
      → Request.append_data before text ≡ returns taken
      → is_complete taken ≡ true
      → client_income os unset (data_income os on_request) (fd_of con) p
        ≡ finish_request on_request
            (fd_of con)
            taken
            (set_request (fd_of con) taken (record p { os = s }))
  unfolding client_income client_at data_income client_ref request_at set_request
  data_income-finishes on_request p s text before taken con found read waiting took complete =
      rw
        (
          found, client_income, client_at, data_income, found, client_ref, read, waiting,
          request_at, took, complete,
        )
        refl

  income-relays :
      (c : ℤ) (p q : Program K S) (s : S) (text : Bytes) (before taken : Request) (con : Link)
      → fd_of con ≡ c
      → lookup c p.clients ≡ some con
      → recieve_data os con.connection p.os ≡ (returns text, s)
      → lookup c p.request_map ≡ some before
      → Request.append_data before text ≡ returns taken
      → is_complete taken ≡ true
      → relay os unset c taken (set_request c taken (record p { os = s })) ≡ (returns tt, q)
      → handle_income os unset client c p ≡ (returns tt, erase_request c q)
  unfolding handle_income set_request
  income-relays c p q s text before taken con own found read waiting took complete passed =
      subst
        (λ d.
          lookup d p.clients ≡ some con
          → lookup d p.request_map ≡ some before
          → relay os unset d taken (set_request d taken (record p { os = s })) ≡ (returns tt, q)
          → handle_income os unset client d p ≡ (returns tt, erase_request d q))
        own
        (λ here there went.
          data_income-finishes (on_request os unset) p s text before taken con here read there took
            complete
          ∙ finish_request-relays (set_request (fd_of con) taken (record p { os = s })) q taken con
              here went)
        found waiting passed

  -- A whole request that comes in from a client in one read is passed on to the host that it names,
  -- and then forgotten: its client has one bridge, in use, to this host, and the last thing done was to
  -- write to it the bytes that came in, with a line end behind them. The request is in the form in which
  -- `commit_headers` writes a printable one, its Content-Length is the length of its body, it is shorter
  -- than 2^31 bytes, nothing of a request has been read before, the client stands under its own
  -- descriptor, the bridges are in the order of their clients, and passing it on does not throw.
  pub handle_income-passes_on :
      (p q : Program K S) (c : ℤ) (r : Request) (s : S) {v : Bytes} {con : Link}
      → IsSorted p.con_map
      → lookup c p.clients ≡ some con
      → fd_of con ≡ c
      → lookup c p.request_map ≡ some Request.fresh
      → IsPrintable r
      → lookup content_length r.headers ≡ some v
      → stoi v ≡ returns (pos (length r.body))
      → Fits (commit_headers r ++ r.body)
      → recieve_data os con.connection p.os ≡ (returns (commit_headers r ++ r.body), s)
      → relay os unset c
          (complete_with r r.body [])
          (set_request c (complete_with r r.body []) (record p { os = s }))
        ≡ (returns tt, q)
      → (handle_income os unset client c p ≡ (returns tt, erase_request c q))
        × IsRouted os c (host_of r) (commit_headers r ++ (r.body ++ crlf)) q
  unfolding set_request host_of commit_headers Request.commit
  handle_income-passes_on p q c r s {con = con} sorted found own waiting printable has reads fits
        read passed =
      (
        income-relays c p q s (commit_headers r ++ r.body) Request.fresh (complete_with r r.body [])
            con own found read waiting (append_data_exact r printable has reads fits) refl passed,
        subst
            (Ends (λ _. IsRouted os c (host_of r) (commit_headers r ++ (r.body ++ crlf)))
              (λ u. Unit))
            passed
            (relay-IsRouted os unset o c (complete_with r r.body [])
              (set_request c (complete_with r r.body []) (record p { os = s })) sorted),
      )
