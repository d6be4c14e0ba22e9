-- ===== src/Socket/Tests.antt =====
-- Runs of the socket on a small kernel, and the theorems about sockets on it.
pub mod SmallKernel
use server_coursework.Base.{
  ◌≡◌, ◌-◌, refl, true, false, not, some, none, [], ◌∷◌, Bytes, codes, ℤ, pos, negsuc, int_eq,
  returns, throws, runtime_error,
}
use server_coursework.Socket.Bits.{xor_bits, or_bits, bit}
use server_coursework.Socket.Flags.{send_flips}
use server_coursework.Socket.Opening.{OpensOne, new_socket-OpensOne}
use server_coursework.Socket.Tests.SmallKernel.{Kernel, kernel, kernel-Opens, kernel-Fcntl}
use server_coursework.Socket.{
  Os, Socket, o_nonblock, new_socket, accept_socket, move_socket, close_fd, add_flag, send, recieve,
}

-- Nothing is open yet.
abbrev start : Kernel
start = record {
  next_fd = 5;
  opened = λ j. false;
  nonblocking = false;
  written = [];
  incoming = λ j. codes "hi";
}

abbrev client : Socket
client = record { is_server = false; sfd = pos 5 }

unknown :
    new_socket kernel (codes "nowhere") (codes "80") false start ≡ (throws runtime_error, start)
unfolding new_socket
unknown = refl

-- Two addresses are refused, and the third is connected to.
third :
    (new_socket kernel (codes "h") (codes "80") false start).0
    ≡ returns (record { is_server = false; sfd = pos 7 })
unfolding new_socket
third = refl

not_accepted :
    accept_socket kernel (pos 9) start ≡ (record { is_server = false; sfd = negsuc 0 }, start)
unfolding accept_socket
not_accepted = refl

flag_added :
    add_flag kernel client o_nonblock start ≡ (returns tt, record start { nonblocking = true })
unfolding add_flag
flag_added = refl

two_read : (recieve kernel client start).0 ≡ returns (codes "hi")
unfolding recieve
two_read = refl

moved :
    move_socket true client ≡ (record client { is_server = true }, record client { sfd = negsuc 0 })
unfolding move_socket
moved = refl

new_socket-OpensOne_example :
    OpensOne kernel kernel-Opens start (new_socket kernel (codes "h") (codes "80") true start)
new_socket-OpensOne_example =
    new_socket-OpensOne kernel kernel-Opens (codes "h") (codes "80") true start

abbrev sent : Kernel
sent = record start { written = (pos 5, codes "hi") ∷ [] }

flipped : xor_bits 31 0 o_nonblock ≡ 2048
unfolding xor_bits
flipped = refl

send_flips_example :
    (send kernel client (codes "hi") start ≡ (returns tt, sent))
    × (kernel.get_flags (pos 5) (record start { nonblocking = true })
        ≡ some (xor_bits 31 0 o_nonblock))
    × (bit 11 (xor_bits 31 0 o_nonblock) ≡ 1)
    × (kernel.get_flags (pos 5) sent ≡ some 0)
unfolding xor_bits
send_flips_example =
    send_flips kernel kernel-Fcntl client (codes "hi") start (record start { nonblocking = true })
      sent 0 refl refl refl refl
