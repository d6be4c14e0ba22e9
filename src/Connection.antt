-- ===== src/Connection.antt =====
-- `tcp_connection` of tcp.h and tcp_connection.cpp: a socket with a number.
pub mod Owners
mod Tests
use server_coursework.Base.{
  ℕ, Bool, true, false, not, List, Bytes, codes, ℤ, int_eq, Outcome, returns, throws, spins,
  dangles,
}
use server_coursework.Socket.{
  Os, Ended, Socket, move_socket, invalidate, new_client_socket, recieve, send, close_fd,
}

pub record Connection : Type 0 where
  pub id : ℤ
  pub socket : Socket

-- Nothing sets `id` in a constructor.
abbrev pub of_socket : ℤ → Socket → Connection
of_socket unset k = record { id = unset; socket = k }

-- `tcp_connection(tcp_socket&&)`: the connection, and what is left of `that`.
unfoldable pub from_socket : ℤ → Bool → Socket → Connection × Socket
unfolding move_socket
from_socket unset unset_type that =
    let moved = move_socket unset_type that in (of_socket unset moved.0, moved.1)

-- `tcp_connection(tcp_connection&&)`
unfoldable pub move_connection : ℤ → Bool → Connection → Connection × Connection
unfolding move_socket
move_connection unset unset_type that =
    let moved = move_socket unset_type that.socket in
    (of_socket unset moved.0, record that { socket = invalidate moved.1 })

-- `operator!=`
abbrev pub differs : Connection → Connection → Bool
differs c that = not (int_eq c.socket.sfd that.socket.sfd)

-- What a call on the socket does to the connection.
abbrev pub on_socket : {S : Type 0} → Connection → Outcome Socket × S → Outcome Connection × S
on_socket c (returns k, s) = (returns (record c { socket = k }), s)
on_socket c (throws e, s) = (throws e, s)
on_socket c (spins, s) = (spins, s)
on_socket c (dangles, s) = (dangles, s)

module _ {S A : Type 0} (os : Os S A) where
  -- `tcp_connection(host, port)`
  unfoldable pub new_connection : ℤ → Bytes → Bytes → S → Outcome Connection × S
  new_connection unset host port s =
      on_socket (of_socket unset (record { is_server = false; sfd = ℤ.negsuc 0 }))
        (new_client_socket os host port s)

  -- `tcp_connection()`
  abbrev pub default_connection : ℤ → S → Outcome Connection × S
  default_connection unset = new_connection unset (codes "localhost") (codes "7273")

  -- A new socket is made in the place of the old one, of which nothing is done.
  unfoldable pub connect_to : Connection → Bytes → Bytes → S → Outcome Connection × S
  connect_to c host port s = on_socket c (new_client_socket os host port s)

  abbrev pub recieve_data : Connection → S → Outcome Bytes × S
  recieve_data c = recieve os c.socket

  abbrev pub send_data : Connection → Bytes → S → Ended S
  send_data c text = send os c.socket text

  unfoldable pub disconnect : Connection → S → Connection × S
  unfolding close_fd
  disconnect c s = let closed = close_fd os c.socket s in (record c { socket = closed.0 }, closed.1)
