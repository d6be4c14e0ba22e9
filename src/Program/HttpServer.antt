-- ===== src/Program/HttpServer.antt =====
-- `http_server`: the callbacks that it gives to `tcp_server`.
use server_coursework.Base.{ℤ, none, some, returns, throws, out_of_range, if◌then◌else◌}
use server_coursework.Actions.{Action, pure, lift, modify, ◌>>=◌, ◌>>◌}
use server_coursework.OrdMap.{lookup, assign, erase}
use server_coursework.OrdMap.Keys.{int_Less}
use server_coursework.Socket.{Os}
use server_coursework.Connection.{recieve_data}
use server_coursework.Request.{Request, is_complete}
use server_coursework.Request
use server_coursework.Response
use server_coursework.Response.Status.{status_not_found}
use server_coursework.Program.HttpConnection.{send_response}
use server_coursework.Program.{Program, Link, Unset, fd_of, on_os, client_ref}

-- What the user of the server gives to it. A client is given by its descriptor.
pub record Callbacks (P : Type 0) : Type 0 where
  pub on_request : ℤ → Request → Action P Unit
  pub on_disconnect : ℤ → Action P Unit

module _ {K S : Type 0} where
  unfoldable pub set_request : ℤ → Request → Program K S → Program K S
  set_request fd r p = record p { request_map = assign fd r p.request_map }

  -- `request_map[fd]`
  unfoldable pub request_at : ℤ → Action (Program K S) Request
  unfolding set_request
  request_at fd p = elim (lookup fd p.request_map) [
    | some r ↦ (returns r, p)
    | none ↦ (returns Request.fresh, set_request fd Request.fresh p)
  ]

  -- `clients.at(fd)`
  unfoldable pub client_checked : ℤ → Action (Program K S) Link
  client_checked fd p = elim (lookup fd p.clients) [
    | none ↦ (throws out_of_range, p)
    | some k ↦ (returns k, p)
  ]

  unfoldable pub erase_request : ℤ → Program K S → Program K S
  erase_request fd p = record p { request_map = erase fd p.request_map }

  -- The callbacks of `tcp_server`.
  unfoldable pub connected : ℤ → Action (Program K S) Unit
  unfolding client_ref set_request
  connected fd = do con ← client_ref fd; modify (set_request (fd_of con) Request.fresh)

  -- The request is handed on once it is complete, and then forgotten.
  unfoldable pub finish_request :
      (ℤ → Request → Action (Program K S) Unit) → ℤ → Request → Action (Program K S) Unit
  unfolding client_checked erase_request
  finish_request on_request fd r = do client_checked fd; on_request fd r; modify (erase_request fd)

  unfoldable pub disconnected : (ℤ → Action (Program K S) Unit) → ℤ → Action (Program K S) Unit
  unfolding client_ref erase_request
  disconnected on_disconnect fd = do
    on_disconnect fd
    con ← client_ref fd
    modify (erase_request (fd_of con))

module _ {K S A : Type 0} (os : Os S A) where
  unfoldable pub data_income :
      (ℤ → Request → Action (Program K S) Unit) → ℤ → Action (Program K S) Unit
  unfolding client_ref request_at set_request finish_request
  data_income on_request fd = do
    con ← client_ref fd
    msg ← on_os (recieve_data os con.connection)
    r ← request_at (fd_of con)
    taken ← lift (Request.append_data r msg)
    modify (set_request (fd_of con) taken)
    if is_complete taken then finish_request on_request (fd_of con) taken else pure tt

module _ {K S A : Type 0} (os : Os S A) (unset : Unset) where
  -- The callbacks that the constructor sets.
  unfoldable pub not_found : ℤ → Request → Action (Program K S) Unit
  unfolding client_ref send_response
  not_found fd request = do
    con ← client_ref fd
    send_response os con (Response.set_status_code (Response.fresh unset.number) status_not_found)

  abbrev pub default_callbacks : Callbacks (Program K S)
  default_callbacks = record { on_request = not_found; on_disconnect = λ fd. pure tt }
