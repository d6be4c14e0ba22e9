-- ===== src/Connection/Tests.antt =====
-- Runs of connections on a small kernel, and the theorems about connections on it.
use server_coursework.Base.{◌≡◌, refl, true, false, [], codes, pos, negsuc, returns}
use server_coursework.Socket.Tests.SmallKernel.{Kernel, kernel, kernel-Opens}
use server_coursework.Socket.{new_socket}
use server_coursework.Connection.Owners.{Leaks, connect_to-Leaks}
use server_coursework.Connection.{
  Connection, move_connection, new_connection, connect_to, disconnect,
}

-- The descriptor 4 is open.
abbrev start : Kernel
start = record {
  next_fd = 5;
  opened = λ j. true;
  nonblocking = false;
  written = [];
  incoming = λ j. [];
}

abbrev four : Connection
four = record { id = pos 0; socket = record { is_server = false; sfd = pos 4 } }

reached :
    (new_connection kernel (pos 9) (codes "h") (codes "80") start).0
    ≡ returns (record { id = pos 9; socket = record { is_server = false; sfd = pos 7 } })
unfolding new_connection new_socket
reached = refl

moved : move_connection (pos 9) true four ≡ (
  record { id = pos 9; socket = record { is_server = true; sfd = pos 4 } },
  record four { socket = record { is_server = false; sfd = negsuc 0 } },
)
unfolding move_connection
moved = refl

shut : (disconnect kernel four start).1.opened (pos 4) ≡ false
unfolding disconnect
shut = refl

connect_to-Leaks_example :
    Leaks kernel kernel-Opens four (connect_to kernel four (codes "h") (codes "80") start)
connect_to-Leaks_example =
    connect_to-Leaks kernel kernel-Opens four (codes "h") (codes "80") start refl
