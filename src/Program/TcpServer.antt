-- ===== src/Program/TcpServer.antt =====
-- `tcp_server` of tcp.h, at the only type of clients that the program uses it with. The callbacks of
-- its user are arguments.
use server_coursework.Base.{
  ℕ, ◌+◌, ◌++◌, [], ◌∷◌, ℤ, pos, negsuc, false, codes, none, some, returns,
}
use server_coursework.Actions.{Action, pure, modify, ◌>>=◌, ◌>>◌}
use server_coursework.OrdMap.{OrdMap, lookup, insert, assign, erase}
use server_coursework.OrdMap.Keys.{int_Less}
use server_coursework.Socket.{Os, Socket, o_nonblock, accept_socket, add_flag, destroy, get_address}
use server_coursework.Connection.{from_socket, default_connection}
use server_coursework.Epoll.{Ctl, add_socket, remove_socket}
use server_coursework.Program.{Program, Link, client, Unset, new_link, fd_of, on_os}

-- `id_counter + 1`, below the largest `int`
abbrev pub add_one : ℤ → ℤ
add_one (pos n) = pos (n + 1)
add_one (negsuc ℕ.zero) = pos 0
add_one (negsuc (ℕ.suc n)) = negsuc n

-- `clients.clear()`
unfoldable pub clear_clients : {S A : Type 0} → Os S A → OrdMap ℤ Link → S → S
clear_clients os [] s = s
clear_clients os ((fd, k) ∷ rest) s = clear_clients os rest (destroy os k.connection.socket s).1

module _ {K S : Type 0} ⦃ctl : Ctl K⦄ where
  unfoldable pub unwatch : ℤ → Program K S → Program K S
  unwatch fd p = record p { epoll = remove_socket p.epoll fd }

  unfoldable pub stop : Program K S → Program K S
  unfolding unwatch
  stop p = record (unwatch p.server_socket.sfd p) { running = false }

  -- `clients[fd].id = id_counter++`
  unfoldable pub number_client : ℤ → Link → Program K S → Program K S
  number_client fd k p = record p {
    clients =
        assign fd (record k { connection = record k.connection { id = p.id_counter } }) p.clients;
    id_counter = add_one p.id_counter;
  }

module _ {K S A : Type 0} ⦃ctl : Ctl K⦄ (os : Os S A) where
  unfoldable pub watch_client : ℤ → Link → Program K S → Program K S
  unfolding add_socket
  watch_client fd k p = record p {
    epoll =
        add_socket p.epoll (fd_of k) client
          ((get_address os k.connection.socket p.os).0 ++ codes "->server");
  }

  -- The socket that `accept` gives, valid or not.
  unfoldable pub accepted : ℤ → Action (Program K S) Socket
  accepted server_fd = on_os (λ s. let a = accept_socket os server_fd s in (returns a.0, a.1))

  -- `clients.erase(fd)` destroys the client.
  unfoldable pub erase_client : ℤ → Program K S → Program K S
  erase_client fd p = elim (lookup fd p.clients) [
    | none ↦ p
    | some k ↦ record p {
      clients = erase fd p.clients;
      os = (destroy os k.connection.socket p.os).1;
    }
  ]

  unfoldable pub disconnect_client : Link → Program K S → Program K S
  unfolding erase_client unwatch
  disconnect_client k p = erase_client (fd_of k) (unwatch (fd_of k) p)

module _ {K S A : Type 0} ⦃ctl : Ctl K⦄ (os : Os S A) (unset : Unset) where
  -- `clients[fd]`: where there is no client, one is made by its default constructor.
  unfoldable pub client_at : ℤ → Action (Program K S) Link
  client_at fd p = elim (lookup fd p.clients) [
    | some k ↦ (returns k, p)
    | none ↦
        (do
          c ← on_os (default_connection os unset.number)
          modify (λ q. record q { clients = insert fd (new_link c) q.clients })
          pure (new_link c))
          p
  ]

  -- `clients.emplace(fd, std::move(temp))`: beside a client that is there, the new one is destroyed.
  unfoldable pub emplace_client : ℤ → Socket → Program K S → Program K S
  emplace_client fd temp p = elim (lookup fd p.clients) [
    | none ↦
        let made = from_socket unset.number unset.flag temp in
        record p { clients = insert fd (new_link made.0) p.clients }
    | some _ ↦ record p { os = (destroy os temp p.os).1 }
  ]

  -- The callback of the listening socket. The loop that compares addresses only sets a variable that
  -- is set again behind it.
  unfoldable pub accept_client : (ℤ → Action (Program K S) Unit) → ℤ → Action (Program K S) Unit
  unfolding accepted emplace_client client_at number_client watch_client
  accept_client on_connect server_fd = do
    temp ← accepted os server_fd
    modify (emplace_client temp.sfd temp)
    k ← client_at temp.sfd
    modify (number_client temp.sfd k)
    on_os (add_flag os k.connection.socket o_nonblock)
    modify (watch_client os temp.sfd k)
    on_connect temp.sfd

  -- The callbacks of a client.
  unfoldable pub client_income : (ℤ → Action (Program K S) Unit) → ℤ → Action (Program K S) Unit
  unfolding client_at
  client_income on_data_income fd = do client_at fd; on_data_income fd

  unfoldable pub client_disconnect : (ℤ → Action (Program K S) Unit) → ℤ → Action (Program K S) Unit
  unfolding client_at disconnect_client
  client_disconnect on_disconnect fd = do
    client_at fd
    on_disconnect fd
    k ← client_at fd
    modify (disconnect_client os k)
