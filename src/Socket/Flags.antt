-- ===== src/Socket/Flags.antt =====
-- The flags of a descriptor under `send`.
use server_coursework.Base.{
  ℕ, ◌-◌, ◌^◌, ◌<◌, ◌≡◌, refl, ap, ◌∙◌, false, some, Bytes, ℤ, pos, int_eq, returns, arith,
}
use server_coursework.Socket.Bits.{xor_bits, xor_bits_twice, bit, bit-xor_bits}
use server_coursework.Socket.{Os, Socket, o_nonblock, change_flags, revert_flag, after, send}

-- What `fcntl` and `write` do to the flags.
pub record Fcntl {S A : Type 0} (os : Os S A) : Type 0 where
  pub get_flags_int : (fd : ℤ) (s : S) (f : ℕ) → os.get_flags fd s ≡ some f → f < 2 ^ 31
  pub set_nonblock :
      (fd : ℤ) (s t : S) (f : ℕ)
      → os.get_flags fd s ≡ some f
      → os.set_flags fd (xor_bits 31 f o_nonblock) s ≡ some t
      → os.get_flags fd t ≡ some (xor_bits 31 f o_nonblock)
  pub write_same :
      (fd : ℤ) (str : Bytes) (s : S) → os.get_flags fd (os.write fd str s).1 ≡ os.get_flags fd s

module _ {S A : Type 0} (os : Os S A) (l : Fcntl os) (k : Socket) where
  revert_flag-set :
      (s t : S) (f : ℕ)
      → os.get_flags k.sfd s ≡ some f
      → os.set_flags k.sfd (xor_bits 31 f o_nonblock) s ≡ some t
      → revert_flag os k o_nonblock s ≡ (returns tt, t)
  unfolding revert_flag change_flags
  revert_flag-set s t f got set = rw (got, revert_flag, change_flags) (rw set refl)

  -- `send` flips `O_NONBLOCK` for the time of the write, whatever it was, and flips it back: the write
  -- to a blocking socket does not block, and the call returns however many bytes it took.
  pub send_flips :
      (str : Bytes) (s t u : S) (f : ℕ)
      → int_eq k.sfd (pos 0) ≡ false
      → os.get_flags k.sfd s ≡ some f
      → os.set_flags k.sfd (xor_bits 31 f o_nonblock) s ≡ some t
      → os.set_flags k.sfd f (os.write k.sfd str t).1 ≡ some u
      → (send os k str s ≡ (returns tt, u))
        × (os.get_flags k.sfd t ≡ some (xor_bits 31 f o_nonblock))
        × (bit 11 (xor_bits 31 f o_nonblock) ≡ 1 - bit 11 f)
        × (os.get_flags k.sfd u ≡ some f)
  unfolding send
  send_flips str s t u f usable got set reset = (
    rw usable (
        ap (λ r. after r (λ w. revert_flag os k o_nonblock (os.write k.sfd str w).1))
          (revert_flag-set s t f got set)
        ∙ revert_flag-set written u flipped got_flipped reset_flipped),
    l.set_nonblock k.sfd s t f got set,
    bit-xor_bits 11 31 f o_nonblock (omega arith) ∙ omega arith,
    l.set_nonblock k.sfd written u flipped got_flipped reset_flipped ∙ ap some back,
  )
    where
      written : S
      written = (os.write k.sfd str t).1

      flipped : ℕ
      flipped = xor_bits 31 f o_nonblock

      back : xor_bits 31 flipped o_nonblock ≡ f
      back = xor_bits_twice 31 f o_nonblock (l.get_flags_int k.sfd s f got)

      got_flipped : os.get_flags k.sfd written ≡ some flipped
      got_flipped = l.write_same k.sfd str t ∙ l.set_nonblock k.sfd s t f got set

      reset_flipped : os.set_flags k.sfd (xor_bits 31 flipped o_nonblock) written ≡ some u
      reset_flipped = ap (λ n. os.set_flags k.sfd n written) back ∙ reset
