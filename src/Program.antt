-- ===== src/Program.antt =====
-- The state of the whole program: the members of `tcp_server`, `http_server` and the proxy's maps,
-- with the objects that they own, and the kernel.
pub mod TcpServer
pub mod HttpConnection
pub mod HttpServer
pub mod Proxy
pub mod Main
pub mod Forward
pub mod Safety
pub mod Route
pub mod Arrive
pub mod Sessions
mod Tests
use server_coursework.Base.{
  ℕ, ℤ, Bool, Bytes, false, none, some, Outcome, returns, dangles, if◌then◌else◌,
}
use server_coursework.Actions.{Action}
use server_coursework.OrdMap.{OrdMap, lookup}
use server_coursework.OrdMap.Keys.{int_Less}
use server_coursework.Socket.{Socket}
use server_coursework.Connection.{Connection}
use server_coursework.Epoll.{Epoll}
use server_coursework.Request.{Request}
use server_coursework.Response.{Response}

-- `http_connection`
pub record Link : Type 0 where
  pub connection : Connection
  pub is_alive : Bool

abbrev pub fd_of : Link → ℤ
fd_of k = k.connection.socket.sfd

abbrev pub new_link : Connection → Link
new_link c = record { connection = c; is_alive = false }

-- The pairs of callbacks that are put into the wrapper, with what their closures hold: that of the
-- listening socket, that of a client, and that of a bridge, which holds the client and the bridge by
-- reference (both by the descriptor of the client) and the address of the response.
pub data Handler : Type 0 where
  listener client : Handler
  bridge : ℤ → ℕ → Handler

-- `con_map` has the host and the bridge of a client. The responses are on the heap, by address.
pub record Program (K S : Type 0) : Type 0 where
  pub clients : OrdMap ℤ Link
  pub server_socket : Socket
  pub running : Bool
  pub id_counter : ℤ
  pub epoll : Epoll K Handler
  pub request_map : OrdMap ℤ Request
  pub con_map : OrdMap ℤ (Bytes × Link)
  pub responses : OrdMap ℕ Response
  pub next_address : ℕ
  pub os : S

-- What a member is that nothing has set.
pub record Unset : Type 0 where
  pub number : ℤ
  pub flag : Bool

module _ {K S : Type 0} where
  -- A call on the kernel.
  abbrev pub on_os : {B : Type 0} → (S → Outcome B × S) → Action (Program K S) B
  on_os f p = let r = f p.os in (r.0, record p { os = r.1 })

  -- A reference to a client.
  unfoldable pub client_ref : ℤ → Action (Program K S) Link
  client_ref fd p = elim (lookup fd p.clients) [ none ↦ (dangles, p) | some k ↦ (returns k, p) ]

  -- `this` of the bridge of a client.
  unfoldable pub bridge_ref : ℤ → Action (Program K S) Link
  bridge_ref fd p = elim (lookup fd p.con_map) [
    | none ↦ (dangles, p)
    | some entry ↦ (returns entry.1, p)
  ]
