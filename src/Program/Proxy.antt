-- ===== src/Program/Proxy.antt =====
-- `main` of proxy.cpp: the callbacks of the proxy, and the loop that serves events.
use server_coursework.Base.{ℤ, Bytes, bytes_eq, codes, [], none, some, returns, if◌then◌else◌}
use server_coursework.Actions.{Action, pure, modify, attempt, settle, ◌>>=◌, ◌>>◌}
use server_coursework.OrdMap.{lookup, insert, erase}
use server_coursework.OrdMap.Keys.{int_Less, bytes_Less}
use server_coursework.Socket.{Os, destroy}
use server_coursework.Connection.{default_connection}
use server_coursework.Epoll.{Ctl, World}
use server_coursework.Request.{Request}
use server_coursework.Response.{Response}
use server_coursework.Program.TcpServer.{
  accept_client, client_income, client_disconnect, disconnect_client, unwatch,
}
use server_coursework.Program.HttpConnection.{
  link_to, query, send_response, bridge_income, bridge_disconnect,
}
use server_coursework.Program.HttpServer.{connected, data_income, disconnected}
use server_coursework.Program.{
  Program, Link, Handler, listener, client, bridge, Unset, new_link, fd_of, on_os, client_ref,
}

-- `request.get_headers()["Host"]`
unfoldable pub host_of : Request → Bytes
host_of request = elim (lookup (codes "Host") request.headers) [ none ↦ [] | some host ↦ host ]

module _ {K S A : Type 0} ⦃ctl : Ctl K⦄ (os : Os S A) where
  -- `con_map->erase(fd)` destroys the bridge.
  unfoldable pub erase_bridge : ℤ → Program K S → Program K S
  erase_bridge fd p = elim (lookup fd p.con_map) [
    | none ↦ p
    | some (host, k) ↦ record p {
      con_map = erase fd p.con_map;
      os = (destroy os k.connection.socket p.os).1;
    }
  ]

  -- The handlers that are given to `query`.
  unfoldable pub response_handler : ℤ → Response → Action (Program K S) Unit
  unfolding client_ref send_response
  response_handler fd res = do connection ← client_ref fd; send_response os connection res

  unfoldable pub on_disconnect : ℤ → Action (Program K S) Unit
  unfolding client_ref unwatch erase_bridge
  on_disconnect fd = do
    closing ← client_ref fd
    modify (λ p. elim (lookup (fd_of closing) p.con_map) [
      | none ↦ p
      | some (host, k) ↦ erase_bridge (fd_of closing) (unwatch (fd_of k) p)
    ])

module _ {K S A : Type 0} ⦃ctl : Ctl K⦄ (os : Os S A) (unset : Unset) where
  -- `(*con_map)[fd].second`
  unfoldable pub bridge_at : ℤ → Action (Program K S) Link
  bridge_at fd p = elim (lookup fd p.con_map) [
    | some entry ↦ (returns entry.1, p)
    | none ↦
        (do
          c ← on_os (default_connection os unset.number)
          modify (λ q. record q { con_map = insert fd ([], new_link c) q.con_map })
          pure (new_link c))
          p
  ]

  -- `con_map->emplace(fd, make_pair(host, host))`
  unfoldable pub emplace_bridge : ℤ → Bytes → Action (Program K S) Unit
  unfolding link_to
  emplace_bridge fd host = do
    k ← link_to os unset host
    modify (λ p. record p { con_map = insert fd (host, k) p.con_map })

  -- The loop over `con_map`: a bridge to another host is replaced.
  unfoldable pub replace_bridge : ℤ → Bytes → Action (Program K S) Unit
  unfolding unwatch erase_bridge emplace_bridge bytes_eq
  replace_bridge fd host p = elim (lookup fd p.con_map) [
    | none ↦ (returns tt, p)
    | some (old, k) ↦
        if bytes_eq old host
        then (returns tt, p)
        else emplace_bridge fd host (erase_bridge os fd (unwatch (fd_of k) p))
  ]

  -- A client without a bridge gets one.
  unfoldable pub ensure_bridge : ℤ → Bytes → Action (Program K S) Unit
  unfolding emplace_bridge
  ensure_bridge fd host p = elim (lookup fd p.con_map) [
    | none ↦ emplace_bridge fd host p
    | some entry ↦ (returns tt, p)
  ]

  -- The part of the callback for requests that is tried.
  unfoldable pub relay : ℤ → Request → Action (Program K S) Unit
  unfolding replace_bridge ensure_bridge bridge_at query host_of
  relay fd request = do
    replace_bridge fd (host_of request)
    ensure_bridge fd (host_of request)
    bridge_at fd
    query os unset fd request

  unfoldable pub on_request : ℤ → Request → Action (Program K S) Unit
  unfolding client_ref relay
  on_request fd request = do con ← client_ref fd; attempt (relay (fd_of con) request) (pure tt)

  unfoldable pub disconnection_handler : ℤ → Action (Program K S) Unit
  unfolding client_ref bridge_at unwatch erase_bridge disconnect_client
  disconnection_handler fd = do
    connection ← client_ref fd
    k ← bridge_at (fd_of connection)
    modify (λ p. erase_bridge os (fd_of connection) (unwatch (fd_of k) p))
    modify (disconnect_client os connection)

  -- What the callbacks in the wrapper do.
  unfoldable pub handle_income : Handler → ℤ → Action (Program K S) Unit
  unfolding accept_client client_income connected data_income bridge_income on_request
      response_handler
  handle_income listener fd = accept_client os unset connected fd
  handle_income client fd = client_income os unset (data_income os on_request) fd
  handle_income (bridge owner address) fd =
      bridge_income os unset (response_handler os owner) owner address

  unfoldable pub handle_disconnect : Handler → ℤ → Action (Program K S) Unit
  unfolding client_disconnect disconnected bridge_disconnect on_disconnect disconnection_handler
  handle_disconnect listener fd = pure tt
  handle_disconnect client fd = client_disconnect os unset (disconnected (on_disconnect os)) fd
  handle_disconnect (bridge owner address) fd =
      bridge_disconnect (disconnection_handler owner) owner address

  unfoldable pub world : World K Handler (Program K S)
  unfolding handle_income handle_disconnect
  world = record {
    epoll = λ p. p.epoll;
    with_epoll = λ p e. record p { epoll = e };
    on_data_income = λ h fd p. settle (handle_income h fd p);
    on_disconnect = λ h fd p. settle (handle_disconnect h fd p);
  }
