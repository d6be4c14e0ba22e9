-- ===== src/Program/Safety.antt =====
-- No reference of the program dangles: what the handlers in the wrapper refer to is there.
pub mod Steady
pub mod Drop
pub mod Grow
pub mod Fresh
pub mod Relay
pub mod Bridges
pub mod Hangup
pub mod Leave
pub mod Clients
pub mod Accept
pub mod Events
pub mod Life
pub mod Quit
use server_coursework.Base.{
  Bytes, ℕ, ℤ, ◌<◌, ◌≡◌, Bool, true, false, Option, none, some, Outcome, returns, throws, spins,
  dangles,
}
use server_coursework.OrdMap.{lookup, has_key}
use server_coursework.OrdMap.Laws.{IsSorted}
use server_coursework.OrdMap.Keys.{int_Less, nat_Less}
use server_coursework.Socket.{Os}
use server_coursework.Socket.Opening.{Opens}
use server_coursework.Epoll.Watch.{IsConsistent}
use server_coursework.Program.{Program, Link, Handler, listener, client, bridge, fd_of}

-- The client that a handler belongs to as its bridge.
abbrev pub owner : Option Handler → Option ℤ
owner none = none
owner (some listener) = none
owner (some client) = none
owner (some (bridge c address)) = some c

-- Whether a handler, if there is one, is that of the listening socket.
abbrev pub listens : Option Handler → Bool
listens none = true
listens (some listener) = true
listens (some client) = false
listens (some (bridge c address)) = false

abbrev pub bridge_fd : {H : Type 0} → Option (H × Link) → Option ℤ
bridge_fd none = none
bridge_fd (some (host, k)) = some (fd_of k)

module _ {K S A : Type 0} {os : Os S A} (o : Opens os) where
  -- Between two events: each client and each bridge has its handler, each handler has its client and
  -- its bridge, each bridge has a response of its own, all sockets that are watched are open, and so is
  -- the listening socket, which has no other handler.
  pub record IsSafe (p : Program K S) : Type 0 where
    pub consistent : IsConsistent p.epoll
    pub clients_sorted : IsSorted p.clients
    pub con_map_sorted : IsSorted p.con_map
    pub responses_sorted : IsSorted p.responses
    pub client_keys :
        (c : ℤ) (k : Link)
        → lookup c p.clients ≡ some k
        → (fd_of k ≡ c) × (lookup c p.epoll.handlers ≡ some client)
    pub client_handlers :
        (c : ℤ) → lookup c p.epoll.handlers ≡ some client → has_key c p.clients ≡ true
    pub bridges :
        (c f : ℤ)
        → bridge_fd (lookup c p.con_map) ≡ some f
        → owner (lookup f p.epoll.handlers) ≡ some c
    pub alive :
        (c : ℤ) (entry : Bytes × Link) → lookup c p.con_map ≡ some entry → entry.1.is_alive ≡ true
    pub bridge_handlers :
        (f c : ℤ) (address : ℕ)
        → lookup f p.epoll.handlers ≡ some (bridge c address)
        → (bridge_fd (lookup c p.con_map) ≡ some f)
          × (has_key c p.clients ≡ true)
          × (has_key address p.responses ≡ true)
    pub own_response :
        (f g c d : ℤ) (address : ℕ)
        → lookup f p.epoll.handlers ≡ some (bridge c address)
        → lookup g p.epoll.handlers ≡ some (bridge d address)
        → f ≡ g
    pub old_responses :
        (address : ℕ) → has_key address p.responses ≡ true → address < p.next_address
    pub opened : (f : ℤ) → has_key f p.epoll.handlers ≡ true → o.is_open f p.os ≡ true
    pub server_open : o.is_open p.server_socket.sfd p.os ≡ true
    pub server_listens : listens (lookup p.server_socket.sfd p.epoll.handlers) ≡ true
