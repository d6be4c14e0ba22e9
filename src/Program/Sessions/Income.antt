-- ===== src/Program/Sessions/Income.antt =====
-- What data that comes in leaves alone.
use server_coursework.Base.{ℕ, ℤ, ◌≡◌, refl, none, some, Bool-cases, inl, inr, Bytes, if◌then◌else◌}
use server_coursework.Actions.{lift, pure, modify, ◌>>◌, attempt-Moves}
use server_coursework.OrdMap.{lookup}
use server_coursework.OrdMap.Keys.{int_Less, nat_Less}
use server_coursework.Socket.{Os}
use server_coursework.Epoll.{Ctl}
use server_coursework.Request.{Request, is_complete}
use server_coursework.Request
use server_coursework.Response.{Response}
use server_coursework.Response
use server_coursework.Connection.{recieve_data}
use server_coursework.Program.{Program, Link, Unset, fd_of, on_os, client_ref, bridge_ref}
use server_coursework.Program.TcpServer.{client_at, client_income}
use server_coursework.Program.HttpConnection.{
  send_response, set_response, response_ref, take_response, bridge_income,
}
use server_coursework.Program.HttpServer.{
  data_income, request_at, set_request, finish_request, client_checked, erase_request,
}
use server_coursework.Program.Proxy.{on_request, response_handler}
use server_coursework.Program.Sessions.Frames.{
  Framed-trans, Framed, Frames, bind-Frames, client_ref-Frames, client_checked-Frames,
  bridge_ref-Frames, response_ref-Frames, request_at-Frames, on_request-Frames,
}

module _ {K S A : Type 0} ⦃ctl : Ctl K⦄ (os : Os S A) (unset : Unset) where
  finish_request-Frames :
      (c : ℤ) (r : Request) → Frames {K = K} (some c) (finish_request (on_request os unset) c r)
  unfolding finish_request erase_request
  finish_request-Frames c r =
      bind-Frames (some c) (client_checked c) _ (client_checked-Frames (some c) c) λ k.
        bind-Frames (some c) (on_request os unset c r) _ (on_request-Frames os unset c r)
          λ _ p keyed. (refl, λ j s. refl)

  branch_request-Frames :
      (c : ℤ) (taken : Request)
      → Frames {K = K}
          (some c)
          (if is_complete taken then finish_request (on_request os unset) c taken else pure tt)
  branch_request-Frames c taken p = elim (Bool-cases (is_complete taken)) [
    | inl complete ↦ rw complete (finish_request-Frames c taken p)
    | inr other ↦ rw other (λ keyed. (refl, λ j s. refl))
  ]

  pub client_income-Framed :
      (p : Program K S) (k : Link)
      → lookup (fd_of k) p.clients ≡ some k
      → Framed
          (some (fd_of k))
          p
          (client_income os unset (data_income os (on_request os unset)) (fd_of k) p).1
  unfolding client_income client_at data_income client_ref set_request
  client_income-Framed p k found =
      let c = fd_of k in
      rw (found, client_income, client_at, data_income, found, client_ref)
        (bind-Frames (some c) (on_os (recieve_data os k.connection)) _
          (λ q keyed. (refl, λ j s. refl))
          (λ msg. bind-Frames (some c) (request_at c) _ (request_at-Frames (some c) c) λ r.
            bind-Frames (some c) (lift (Request.append_data r msg)) _
              (λ q keyed. (refl, λ j s. refl))
              λ taken q. branch_request-Frames c taken (set_request c taken q))
          p)

  response_handler-Frames : (c : ℤ) (r : Response) → Frames {K = K} none (response_handler os c r)
  unfolding response_handler send_response
  response_handler-Frames c r =
      bind-Frames none (client_ref c) _ (client_ref-Frames none c) λ k q keyed. (refl, λ j s. refl)

  branch_response-Frames :
      (c : ℤ) (address : ℕ) (taken : Response)
      → Frames {K = K} none (
          if Response.is_complete taken
          then (response_handler os c taken
              >> modify (set_response address (Response.fresh unset.number)))
          else pure tt)
  unfolding set_response
  branch_response-Frames c address taken p = elim (Bool-cases (Response.is_complete taken)) [
    | inl complete ↦ rw complete (
        bind-Frames none (response_handler os c taken) _ (response_handler-Frames c taken)
          (λ _ q keyed. (refl, λ j s. refl)) p)
    | inr other ↦ rw other (λ keyed. (refl, λ j s. refl))
  ]

  take_response-Frames :
      (c : ℤ) (address : ℕ) (text : Bytes)
      → Frames {K = K} none (take_response os unset (response_handler os c) address text)
  unfolding take_response set_response
  take_response-Frames c address text =
      bind-Frames none (response_ref address) _ (response_ref-Frames none address) λ r.
        bind-Frames none (lift (Response.append_data r text)) _ (λ q keyed. (refl, λ j s. refl))
          λ taken q. branch_response-Frames c address taken (set_response address taken q)

  pub bridge_income-Frames :
      (c : ℤ) (address : ℕ)
      → Frames {K = K} none (bridge_income os unset (response_handler os c) c address)
  unfolding bridge_income set_response
  bridge_income-Frames c address = bind-Frames none (bridge_ref c) _ (bridge_ref-Frames none c) λ k.
      bind-Frames none (on_os (recieve_data os k.connection)) _ (λ q keyed. (refl, λ j s. refl))
        λ text.
          attempt-Moves (Framed none) (Framed-trans none)
            (take_response os unset (response_handler os c) address text) _
            (take_response-Frames c address text) (λ q keyed. (refl, λ j s. refl))
