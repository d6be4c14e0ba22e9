-- ===== src/Program/HttpConnection.antt =====
-- `http_connection`: the queries of a bridge, and their callbacks.
use server_coursework.Base.{
  ℕ, ◌+◌, ◌++◌, ℤ, Bool, true, false, Bytes, codes, none, some, returns, dangles, if◌then◌else◌,
}
use server_coursework.Actions.{Action, pure, lift, modify, attempt, ◌>>=◌, ◌>>◌}
use server_coursework.OrdMap.{lookup, insert, assign, erase}
use server_coursework.OrdMap.Keys.{int_Less, nat_Less}
use server_coursework.Socket.{Os, Socket, get_address}
use server_coursework.Connection.{
  Connection, from_socket, move_connection, new_connection, recieve_data, send_data,
}
use server_coursework.Epoll.{Ctl, add_socket}
use server_coursework.Request.{Request}
use server_coursework.Request
use server_coursework.Response.{Response, is_complete}
use server_coursework.Response
use server_coursework.Response.Commit
use server_coursework.Program.{Program, Link, bridge, Unset, new_link, fd_of, on_os, bridge_ref}

-- The constructors that move, with what is left of `that`.
abbrev pub link_of_socket : Unset → Socket → Link × Socket
link_of_socket unset that =
    let made = from_socket unset.number unset.flag that in (new_link made.0, made.1)

abbrev pub link_of_connection : Unset → Connection → Link × Connection
link_of_connection unset that =
    let made = move_connection unset.number unset.flag that in (new_link made.0, made.1)

abbrev pub move_link : Unset → Link → Link × Link
move_link unset that =
    let made = from_socket unset.number unset.flag that.connection.socket in
    (new_link made.0, record that { connection = record that.connection { socket = made.1 } })

module _ {K S : Type 0} where
  -- `is_alive = alive` on the bridge of a client.
  unfoldable pub set_alive : ℤ → Bool → Program K S → Program K S
  set_alive owner alive p = elim (lookup owner p.con_map) [
    | none ↦ p
    | some (host, k) ↦ record p {
      con_map = assign owner (host, record k { is_alive = alive }) p.con_map;
    }
  ]

  -- `**response`
  unfoldable pub response_ref : ℕ → Action (Program K S) Response
  response_ref address p = elim (lookup address p.responses) [
    | none ↦ (dangles, p)
    | some r ↦ (returns r, p)
  ]

  unfoldable pub set_response : ℕ → Response → Program K S → Program K S
  set_response address r p = record p { responses = assign address r p.responses }

  unfoldable pub bridge_disconnect : Action (Program K S) Unit → ℤ → ℕ → Action (Program K S) Unit
  unfolding bridge_ref set_alive
  bridge_disconnect disconnection_handler owner address = do
    bridge_ref owner
    modify (set_alive owner false)
    disconnection_handler
    modify (λ p. record p { responses = erase address p.responses })

module _ {K S A : Type 0} (os : Os S A) where
  -- `send_request`
  unfoldable pub send_request : Link → Request → Action (Program K S) Unit
  send_request k request = on_os (send_data os k.connection (Request.commit request))

  -- `send_response`, on a copy of the response
  unfoldable pub send_response : Link → Response → Action (Program K S) Unit
  send_response k response = on_os (send_data os k.connection (Response.Commit.commit response).0)

module _ {K S A : Type 0} ⦃ctl : Ctl K⦄ (os : Os S A) (unset : Unset) where
  -- The branch of `query` on a bridge that is not alive: a response is made, and the socket is watched.
  unfoldable pub start_bridge : ℤ → Link → Program K S → Program K S
  unfolding add_socket
  start_bridge owner k p = record p {
    responses = insert p.next_address (Response.fresh unset.number) p.responses;
    next_address = p.next_address + 1;
    epoll =
        add_socket p.epoll (fd_of k) (bridge owner p.next_address)
          (codes "server->" ++ (get_address os k.connection.socket p.os).0);
  }

  -- `http_connection(host)`
  unfoldable pub link_to : Bytes → Action (Program K S) Link
  link_to host = do
    c ← on_os (new_connection os unset.number host (codes "http"))
    pure (new_link c)

  -- `query` on the bridge of a client.
  unfoldable pub query : ℤ → Request → Action (Program K S) Unit
  unfolding bridge_ref start_bridge set_alive send_request
  query owner request = do
    k ← bridge_ref owner
    (if k.is_alive then pure tt else modify (λ p. set_alive owner true (start_bridge owner k p)))
    send_request os k request

  -- The part of the callback that is tried.
  unfoldable pub take_response :
      (Response → Action (Program K S) Unit) → ℕ → Bytes → Action (Program K S) Unit
  unfolding response_ref set_response
  take_response response_handler address text = do
    r ← response_ref address
    taken ← lift (Response.append_data r text)
    modify (set_response address taken)
    if is_complete taken
        then (response_handler taken >> modify (set_response address (Response.fresh unset.number)))
        else pure tt

  -- The callbacks of a bridge.
  unfoldable pub bridge_income :
      (Response → Action (Program K S) Unit) → ℤ → ℕ → Action (Program K S) Unit
  unfolding bridge_ref take_response
  bridge_income response_handler owner address = do
    k ← bridge_ref owner
    text ← on_os (recieve_data os k.connection)
    attempt (take_response response_handler address text)
        (modify (set_response address (Response.fresh unset.number)))
