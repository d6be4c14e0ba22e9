-- ===== src/Socket/Tests/SmallKernel.antt =====
-- A kernel that keeps the open descriptors, which of them do not block, and what was written.
use server_coursework.Base.{
  inr, inl, Bool-cases, ℕ, suc, ◌≡◌, ◌<◌, ◌^◌, refl, sym, subst, ap, ◌∙◌, Bool, true, false, not,
  ◌&&◌, ◌||◌, Option, none, some, List, [], ◌∷◌, if◌then◌else◌, ◌==◌, ltb, Bytes, codes, bytes_eq,
  ℤ, pos, negsuc, int_eq, arith, length,
}
use server_coursework.OrdMap.Keys.{int_less}
use server_coursework.Socket.Bits.{xor_bits}
use server_coursework.Socket.Flags.{Fcntl}
use server_coursework.Socket.Opening.{Opens}
use server_coursework.Socket.{inet, Os, o_nonblock}

pub record Kernel : Type 0 where
  pub next_fd : ℕ
  pub opened : ℤ → Bool
  pub nonblocking : Bool
  pub written : List (ℤ × Bytes)
  pub incoming : ℤ → Bytes

-- The next descriptor is given out.
abbrev pub taken : Kernel → ℤ × Kernel
taken s = (
  pos s.next_fd,
  record s { next_fd = suc s.next_fd; opened = λ j. int_eq j (pos s.next_fd) || s.opened j },
)

-- An address is whether a socket of it can be bound or connected to. Each socket has the same flags.
abbrev pub kernel : Os Kernel Bool
kernel = record {
  getaddrinfo = λ host port s.
      if bytes_eq host (codes "nowhere") then none else some (false ∷ false ∷ true ∷ []);
  socket = λ a s. taken s;
  reuse_address = λ fd s. s;
  bind = λ fd a s. (a, s);
  connect = λ fd a s. (a, s);
  listen = λ fd s. s;
  accept = λ fd s. if int_eq fd (pos 3) then taken s else (negsuc 0, s);
  close = λ fd s. record s { opened = λ j. not (int_eq j fd) && s.opened j };
  get_flags =
      λ fd s. if int_eq fd (negsuc 0) then none else some (if s.nonblocking then 2048 else 0);
  set_flags = λ fd f s. some (record s { nonblocking = f == 2048 });
  write = λ fd str s. (pos (length str), record s { written = (fd, str) ∷ s.written });
  available = λ fd s. pos (length (s.incoming fd));
  read = λ fd n s.
      (some (s.incoming fd), record s { incoming = λ j. if int_eq j fd then [] else s.incoming j });
  getpeername = λ fd s. inet 7 (codes "::");
}

-- A descriptor that has not been given out is not open.
abbrev pub opened_in : ℤ → Kernel → Bool
opened_in j s = int_less j (pos s.next_fd) && s.opened j

pub opened_new :
    (j : ℤ) (n : ℕ) (b : Bool)
    → (int_less j (pos (suc n)) && (int_eq j (pos n) || b))
      ≡ (int_eq j (pos n) || (int_less j (pos n) && b))
opened_new (pos k) n b = ground arith
opened_new (negsuc k) n b = ground arith

pub closed_old :
    (j fd : ℤ) (n : ℕ) (b : Bool)
    → (int_less j (pos n) && (not (int_eq j fd) && b))
      ≡ (not (int_eq j fd) && (int_less j (pos n) && b))
closed_old j fd n b = ground arith

pub not_yet : (n : ℕ) (b : Bool) → (ltb n n && b) ≡ false
not_yet n b = ground arith

pub never : {P : Type 0} → false ≡ true → P
never e = absurd (cc)

pub accepted :
    (fd : ℤ) (s : Kernel) (j : ℤ)
    → int_eq (kernel.accept fd s).0 (negsuc 0) ≡ false
    → opened_in j (kernel.accept fd s).1 ≡ (int_eq j (kernel.accept fd s).0 || opened_in j s)
accepted fd s j valid = elim (Bool-cases (int_eq fd (pos 3))) [
  | inl here ↦ rw here (opened_new j s.next_fd (s.opened j))
  | inr away ↦ absurd (ground (arith, away, valid))
]

pub accepted_new :
    (fd : ℤ) (s : Kernel)
    → int_eq (kernel.accept fd s).0 (negsuc 0) ≡ false
    → opened_in (kernel.accept fd s).0 s ≡ false
accepted_new fd s valid = elim (Bool-cases (int_eq fd (pos 3))) [
  | inl here ↦ rw here (not_yet s.next_fd (s.opened (pos s.next_fd)))
  | inr away ↦ absurd (ground (arith, away, valid))
]

pub accepted_failed :
    (fd : ℤ) (s : Kernel) (j : ℤ)
    → int_eq (kernel.accept fd s).0 (negsuc 0) ≡ true
    → opened_in j (kernel.accept fd s).1 ≡ opened_in j s
accepted_failed fd s j failed = elim (Bool-cases (int_eq fd (pos 3))) [
  | inl here ↦ absurd (ground (arith, here, failed))
  | inr away ↦ rw away refl
]

abbrev state_of : Option Kernel → Kernel → Kernel
state_of none s = s
state_of (some t) s = t

pub flagged :
    (f : ℕ) (s t : Kernel) (j : ℤ)
    → some (record s { nonblocking = f == 2048 }) ≡ some t
    → opened_in j t ≡ opened_in j s
flagged f s t j set = ap (λ o. opened_in j (state_of o s)) (sym set)

abbrev pub kernel-Opens : Opens kernel
kernel-Opens = record {
  is_open = opened_in;
  socket-opens = λ a s j valid. opened_new j s.next_fd (s.opened j);
  socket_new = λ a s valid. not_yet s.next_fd (s.opened (pos s.next_fd));
  socket_failed = λ a s j failed. never failed;
  reuse-same = λ fd s j. refl;
  bind-same = λ fd a s j. refl;
  connect-same = λ fd a s j. refl;
  listen-same = λ fd s j. refl;
  accept-opens = λ fd s j. accepted fd s j;
  accept_new = λ fd s. accepted_new fd s;
  accept_failed = λ fd s j. accepted_failed fd s j;
  flags-same = λ fd f s t j set. flagged f s t j set;
  no_flags = λ s. refl;
  write-same = λ fd str s j. refl;
  read-same = λ fd n s j. refl;
  close-shuts = λ fd s j. closed_old j fd s.next_fd (s.opened j);
}

abbrev pub flags_of : Bool → ℕ
flags_of b = if b then 2048 else 0

pub flags_back :
    (b : Bool)
    → flags_of (xor_bits 31 (flags_of b) o_nonblock == 2048) ≡ xor_bits 31 (flags_of b) o_nonblock
unfolding xor_bits
flags_back true = refl
flags_back false = refl

pub flags_small : (b : Bool) → flags_of b < 2 ^ 31
flags_small b = ground arith

abbrev pub blocks_not : Option Kernel → Bool
blocks_not none = true
blocks_not (some s) = s.nonblocking

-- The flags of a valid descriptor.
pub flags_got :
    (fd : ℤ) (s : Kernel) (f : ℕ)
    → kernel.get_flags fd s ≡ some f
    → (int_eq fd (negsuc 0) ≡ false) × (flags_of s.nonblocking ≡ f)
flags_got fd s f got = (ground (arith, got), ground (arith, got))

pub flags_flipped :
    (fd : ℤ) (s t : Kernel) (f : ℕ)
    → kernel.get_flags fd s ≡ some f
    → kernel.set_flags fd (xor_bits 31 f o_nonblock) s ≡ some t
    → kernel.get_flags fd t ≡ some (xor_bits 31 f o_nonblock)
flags_flipped fd s t f got set =
    let (valid, own) = flags_got fd s f got in
    rw valid (
      ap (λ b. some (flags_of b)) (ap blocks_not (sym set))
      ∙ subst
          (λ n.
            some (flags_of (xor_bits 31 n o_nonblock == 2048)) ≡ some (xor_bits 31 n o_nonblock))
          own (ap some (flags_back s.nonblocking)))

abbrev pub kernel-Fcntl : Fcntl kernel
kernel-Fcntl = record {
  get_flags_int =
      λ fd s f e. subst (λ n. n < 2 ^ 31) (flags_got fd s f e).1 (flags_small s.nonblocking);
  set_nonblock = λ fd s t f got set. flags_flipped fd s t f got set;
  write_same = λ fd str s. refl;
}
