-- ===== src/Program/Main.antt =====
-- The life of the program: the constructors of the server, `start` and `stop`, and `main` of proxy.cpp
-- with its signals.
use server_coursework.Base.{ℤ, true, false, Bytes, codes, List, [], ◌∷◌, Outcome, returns, ◌>>=◌}
use server_coursework.OrdMap.{OrdMap}
use server_coursework.Socket.{Os, Socket, new_socket, destroy}
use server_coursework.Epoll.{Ctl, Event, add_socket, process_events}
use server_coursework.Program.{Program, Link, listener, Unset}
use server_coursework.Program.TcpServer.{stop, clear_clients}
use server_coursework.Program.Proxy.{world}

-- What `main` asks to be told of.
pub data Signal : Type 0 where
  sigterm sigint : Signal

-- What `epoll_wait` comes back with: events, or a signal that has interrupted it.
pub data Wakeup : Type 0 where
  events : List Event → Wakeup
  interrupted : Signal → Wakeup

-- `delete con_map`
unfoldable pub clear_bridges : {S A : Type 0} → Os S A → OrdMap ℤ (Bytes × Link) → S → S
clear_bridges os [] s = s
clear_bridges os ((fd, entry) ∷ rest) s =
    clear_bridges os rest (destroy os entry.1.connection.socket s).1

module _ {K S : Type 0} ⦃ctl : Ctl K⦄ where
  unfoldable pub my_handler : Signal → Program K S → Program K S
  unfolding stop
  my_handler sigterm p = p
  my_handler sigint p = stop p

  -- The server on its listening socket. Nothing sets `running` and `id_counter`.
  unfoldable pub server_on : Unset → K → S → Socket → Program K S
  unfolding add_socket
  server_on unset instance_ s socket = record {
    clients = [];
    server_socket = socket;
    running = unset.flag;
    id_counter = unset.number;
    epoll =
        add_socket (record { handlers = []; fd_status = []; interest = instance_ }) socket.sfd
          listener (codes "server socket");
    request_map = [];
    con_map = [];
    responses = [];
    next_address = 0;
    os = s;
  }

module _ {K S A : Type 0} ⦃ctl : Ctl K⦄ (os : Os S A) where
  -- Behind the loop of `start`, and `delete server` and `delete con_map`.
  unfoldable pub finish : Program K S → Program K S
  unfolding clear_clients
  finish p = record p { clients = []; os = clear_clients os p.clients p.os }

  unfoldable pub quit : Program K S → S
  unfolding clear_bridges
  quit p = clear_bridges os p.con_map (destroy os p.server_socket p.os).1

module _ {K S A : Type 0} ⦃ctl : Ctl K⦄ (os : Os S A) (unset : Unset) where
  -- `http_server(host, port)`, and in it `tcp_server(host, port)`.
  unfoldable pub open_server : Bytes → Bytes → K → S → Outcome (Program K S)
  unfolding server_on
  open_server host port instance_ s =
      let made = new_socket os host port true s in
      made.0 >>= λ socket. returns (server_on unset instance_ made.1 socket)

  -- `http_server()`
  abbrev pub open_default_server : K → S → Outcome (Program K S)
  open_default_server = open_server (codes "localhost") (codes "7273")

  -- One turn of the loop of `start`. An interrupted `epoll_wait` gives no events.
  unfoldable pub turn : Wakeup → Program K S → Outcome (Program K S)
  unfolding world my_handler
  turn (events batch) p = process_events (world os unset) p batch
  turn (interrupted signal) p = process_events (world os unset) (my_handler signal p) []

  -- The loop of `start`, for as long as there are wakeups.
  unfoldable pub serve : List Wakeup → Program K S → Outcome (Program K S)
  unfolding turn finish
  serve [] p = returns p
  serve (wakeup ∷ rest) p = elim p.running [
    | true ↦ turn wakeup p >>= serve rest
    | false ↦ returns (finish os p)
  ]

  unfoldable pub start : List Wakeup → Program K S → Outcome (Program K S)
  unfolding serve
  start wakeups p = serve wakeups (record p { running = true })

  -- `main`, with its argument.
  unfoldable pub run : Bytes → List Wakeup → K → S → Outcome (Program K S)
  unfolding open_server start
  run port wakeups instance_ s = open_server (codes "localhost") port instance_ s >>= start wakeups
