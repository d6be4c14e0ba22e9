-- ===== src/Socket.antt =====
-- `tcp_socket` of tcp.h and tcp_socket.cpp, over the calls of the operating system that it makes.
pub mod Bits
pub mod Flags
pub mod Opening
pub mod Tests
use server_coursework.Base.{
  ℕ, Bool, true, false, not, Option, none, some, List, [], ◌∷◌, ◌++◌, if◌then◌else◌, Bytes,
  bytes_eq, codes, ℤ, pos, negsuc, int_eq, ◌==◌, Exception, Outcome, returns, throws, spins,
  dangles, runtime_error, length_error, length,
}
use server_coursework.Text.Number.{to_string}
use server_coursework.Socket.Bits.{or_bits, xor_bits}

-- The address of a peer, by its family: the port, and what `inet_ntop` makes of the address.
pub data Peer : Type 0 where
  inet inet6 : ℕ → Bytes → Peer

-- The calls that are made, on a kernel state `S`, and addresses of type `A`. A call whose result the
-- code does not look at is only its effect; -1 is `none` where the code looks at nothing else.
pub record Os (S A : Type 0) : Type 0 where
  pub getaddrinfo : Bytes → Bytes → S → Option (List A)
  pub socket : A → S → ℤ × S
  pub reuse_address : ℤ → S → S
  pub bind : ℤ → A → S → Bool × S
  pub connect : ℤ → A → S → Bool × S
  pub listen : ℤ → S → S
  pub accept : ℤ → S → ℤ × S
  pub close : ℤ → S → S
  pub get_flags : ℤ → S → Option ℕ
  pub set_flags : ℤ → ℕ → S → Option S
  pub write : ℤ → Bytes → S → ℤ × S
  pub available : ℤ → S → ℤ
  pub read : ℤ → ℕ → S → Option Bytes × S
  pub getpeername : ℤ → S → Peer

-- `Unit` for a call that returns nothing.
abbrev pub Ended : Type 0 → Type 0
Ended S = Outcome Unit × S

pub record Socket : Type 0 where
  pub is_server : Bool
  pub sfd : ℤ

-- The bit of `fcntl`'s flags.
abbrev pub o_nonblock : ℕ
o_nonblock = 2048

abbrev invalid : ℤ
invalid = negsuc 0

abbrev pub is_valid : Socket → Bool
is_valid k = not (int_eq k.sfd invalid)

abbrev pub invalidate : Socket → Socket
invalidate k = record k { sfd = invalid }

-- The new socket, and what is left of `that`. Nothing sets `is_server` of the new one.
unfoldable pub move_socket : Bool → Socket → Socket × Socket
move_socket unset that = (record { is_server = unset; sfd = that.sfd }, invalidate that)

-- What follows a call that may throw.
abbrev pub after : {S : Type 0} → Ended S → (S → Ended S) → Ended S
after (returns _, s) next = next s
after (throws e, s) next = (throws e, s)
after (spins, s) next = (spins, s)
after (dangles, s) next = (dangles, s)

module _ {S A : Type 0} (os : Os S A) where
  -- Whether the address of `rp` could be bound or connected to.
  unfoldable pub bind_or_connect : Bool → ℤ → A → S → Bool × S
  bind_or_connect srv fd rp s =
      if srv then os.bind fd rp (os.reuse_address fd s) else os.connect fd rp s

  -- The loop over the addresses: the descriptor with which it breaks off.
  unfoldable pub try_addresses : Bool → List A → S → Option ℤ × S
  unfolding bind_or_connect
  try_addresses srv [] s = (none, s)
  try_addresses srv (rp ∷ rest) s =
      let made = os.socket rp s in
      let tried = bind_or_connect srv made.0 rp made.1 in
      let unmade = try_addresses srv rest made.1 in
      let failed = try_addresses srv rest (os.close made.0 tried.1) in
      if int_eq made.0 invalid then unmade else if tried.0 then (some made.0, tried.1) else failed

  -- `set_listening`
  unfoldable pub set_listening : Socket → S → Ended S
  set_listening k s =
      if k.is_server then (returns tt, os.listen k.sfd s) else (throws runtime_error, s)

  -- The end of the constructor, by the descriptor that the loop came to.
  unfoldable pub finish_socket : Bool → Option ℤ × S → Outcome Socket × S
  unfolding set_listening
  finish_socket srv (none, s) = (throws runtime_error, s)
  finish_socket srv (some fd, s) =
      let k : Socket = record { is_server = srv; sfd = fd } in
      (returns k, if srv then (set_listening k s).1 else s)

  -- `tcp_socket(hostname, port, srv)`
  unfoldable pub new_socket : Bytes → Bytes → Bool → S → Outcome Socket × S
  unfolding try_addresses finish_socket bytes_eq
  new_socket hostname port srv s =
      elim (os.getaddrinfo (if bytes_eq hostname [] then codes "localhost" else hostname) port s) [
        | none ↦ (throws runtime_error, s)
        | some result ↦ finish_socket srv (try_addresses srv result s)
      ]

  -- `tcp_socket(hostname, port)`
  abbrev pub new_client_socket : Bytes → Bytes → S → Outcome Socket × S
  new_client_socket hostname port = new_socket hostname port false

  -- `tcp_socket(master_fd, in_addr, in_len)`: valid or not.
  unfoldable pub accept_socket : ℤ → S → Socket × S
  accept_socket master_fd s =
      let accepted = os.accept master_fd s in
      (record { is_server = false; sfd = accepted.0 }, accepted.1)

  -- `epoll_wrapper::on_socket_connect`: the socket is handed on, valid or not.
  abbrev pub on_socket_connect : {B : Type 0} → (Socket → S → B) → ℤ → S → B
  on_socket_connect socket_handler fd s =
      let temp = accept_socket fd s in socket_handler temp.0 temp.1

  unfoldable pub close_fd : Socket → S → Socket × S
  close_fd k s = (invalidate k, os.close k.sfd s)

  -- The destructor.
  abbrev pub destroy : Socket → S → Socket × S
  destroy = close_fd

  -- `fcntl` is read, and written with what `change` makes of it.
  unfoldable pub change_flags : (ℕ → ℕ) → Socket → S → Ended S
  change_flags change k s = elim (os.get_flags k.sfd s) [
    | none ↦ (throws runtime_error, s)
    | some flags ↦ elim (os.set_flags k.sfd (change flags) s) [
      | none ↦ (throws runtime_error, s)
      | some t ↦ (returns tt, t)
    ]
  ]

  unfoldable pub add_flag : Socket → ℕ → S → Ended S
  unfolding change_flags or_bits
  add_flag k flag = change_flags (λ flags. or_bits 31 flags flag) k

  unfoldable pub revert_flag : Socket → ℕ → S → Ended S
  unfolding change_flags xor_bits
  revert_flag k flag = change_flags (λ flags. xor_bits 31 flags flag) k

  -- What `write` returns is only logged.
  unfoldable pub send : Socket → Bytes → S → Ended S
  unfolding revert_flag
  send k str s =
      if int_eq k.sfd (pos 0)
      then (returns tt, s)
      else after (revert_flag k o_nonblock s)
          (λ t. revert_flag k o_nonblock (os.write k.sfd str t).1)

  -- Appending with the length -1 throws.
  unfoldable pub received_bytes : Option Bytes × S → Outcome Bytes × S
  received_bytes (none, s) = (throws length_error, s)
  received_bytes (some bytes, s) = (returns bytes, s)

  unfoldable pub recieve : Socket → S → Outcome Bytes × S
  unfolding received_bytes
  recieve k s = elim (os.available k.sfd s) [
    | negsuc n ↦ (returns [], s)
    | pos n ↦ if n == 0 then (returns [], s) else received_bytes (os.read k.sfd n s)
  ]

  -- `get_address`, by what `getpeername` gave.
  address_of : Peer → Bytes × Bytes
  unfolding to_string
  address_of (inet port ipstr) = (ipstr, to_string (pos port))
  address_of (inet6 port ipstr) = (ipstr, to_string (pos port))

  unfoldable pub get_address : Socket → S → Bytes × Bytes
  unfolding address_of
  get_address k s = address_of (os.getpeername k.sfd s)
