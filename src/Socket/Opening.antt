-- ===== src/Socket/Opening.antt =====
-- Which descriptors are open behind the constructor of a socket.
use server_coursework.Base.{
  ℕ, ◌≡◌, refl, sym, ap, ◌∙◌, Bool, true, false, not, ◌&&◌, ◌||◌, Option, none, some, Option-cases,
  Bool-cases, inl, inr, List, [], ◌∷◌, if◌then◌else◌, Bytes, ℤ, negsuc, int_eq, int_eq→≡, Outcome,
  returns, throws, spins, dangles, arith, bytes_eq, codes,
}
use server_coursework.Socket.{
  Os, Socket, is_valid, bind_or_connect, try_addresses, set_listening, finish_socket, new_socket,
}

-- How the calls change which descriptors are open.
pub record Opens {S A : Type 0} (os : Os S A) : Type 0 where
  pub is_open : ℤ → S → Bool
  pub socket-opens :
      (a : A) (s : S) (j : ℤ)
      → int_eq (os.socket a s).0 (negsuc 0) ≡ false
      → is_open j (os.socket a s).1 ≡ (int_eq j (os.socket a s).0 || is_open j s)
  pub socket_new :
      (a : A) (s : S)
      → int_eq (os.socket a s).0 (negsuc 0) ≡ false
      → is_open (os.socket a s).0 s ≡ false
  pub socket_failed :
      (a : A) (s : S) (j : ℤ)
      → int_eq (os.socket a s).0 (negsuc 0) ≡ true
      → is_open j (os.socket a s).1 ≡ is_open j s
  pub reuse-same : (fd : ℤ) (s : S) (j : ℤ) → is_open j (os.reuse_address fd s) ≡ is_open j s
  pub bind-same : (fd : ℤ) (a : A) (s : S) (j : ℤ) → is_open j (os.bind fd a s).1 ≡ is_open j s
  pub connect-same :
      (fd : ℤ) (a : A) (s : S) (j : ℤ) → is_open j (os.connect fd a s).1 ≡ is_open j s
  pub listen-same : (fd : ℤ) (s : S) (j : ℤ) → is_open j (os.listen fd s) ≡ is_open j s
  pub accept-opens :
      (fd : ℤ) (s : S) (j : ℤ)
      → int_eq (os.accept fd s).0 (negsuc 0) ≡ false
      → is_open j (os.accept fd s).1 ≡ (int_eq j (os.accept fd s).0 || is_open j s)
  pub accept_new :
      (fd : ℤ) (s : S)
      → int_eq (os.accept fd s).0 (negsuc 0) ≡ false
      → is_open (os.accept fd s).0 s ≡ false
  pub accept_failed :
      (fd : ℤ) (s : S) (j : ℤ)
      → int_eq (os.accept fd s).0 (negsuc 0) ≡ true
      → is_open j (os.accept fd s).1 ≡ is_open j s
  pub flags-same :
      (fd : ℤ) (f : ℕ) (s t : S) (j : ℤ) → os.set_flags fd f s ≡ some t → is_open j t ≡ is_open j s
  pub no_flags : (s : S) → os.get_flags (negsuc 0) s ≡ none
  pub write-same :
      (fd : ℤ) (str : Bytes) (s : S) (j : ℤ) → is_open j (os.write fd str s).1 ≡ is_open j s
  pub read-same : (fd : ℤ) (n : ℕ) (s : S) (j : ℤ) → is_open j (os.read fd n s).1 ≡ is_open j s
  pub close-shuts :
      (fd : ℤ) (s : S) (j : ℤ) → is_open j (os.close fd s) ≡ (not (int_eq j fd) && is_open j s)

module _ {S A : Type 0} (os : Os S A) (o : Opens os) where
  -- What the loop has to show for itself: a new descriptor and none beside it, or nothing.
  abbrev Opened : S → Option ℤ × S → Type 0
  Opened s (none, t) = (j : ℤ) → o.is_open j t ≡ o.is_open j s
  Opened s (some fd, t) =
      (int_eq fd (negsuc 0) ≡ false)
      × (o.is_open fd s ≡ false)
      × ((j : ℤ) → o.is_open j t ≡ (int_eq j fd || o.is_open j s))

  Opened-from :
      (s t : S) (r : Option ℤ × S)
      → ((j : ℤ) → o.is_open j s ≡ o.is_open j t)
      → Opened s r
      → Opened t r
  Opened-from s t (none, u) same h = λ j. h j ∙ same j
  Opened-from s t (some fd, u) same (valid, new, opens) =
      (valid, sym (same fd) ∙ new, λ j. opens j ∙ ap (λ b. int_eq j fd || b) (same j))

  bind_or_connect-same :
      (srv : Bool) (fd : ℤ) (rp : A) (s : S) (j : ℤ)
      → o.is_open j (bind_or_connect os srv fd rp s).1 ≡ o.is_open j s
  unfolding bind_or_connect
  bind_or_connect-same true fd rp s j = o.bind-same fd rp _ j ∙ o.reuse-same fd s j
  bind_or_connect-same false fd rp s j = o.connect-same fd rp s j

  try_addresses-Opened :
      (srv : Bool) (addrs : List A) (s : S) → Opened s (try_addresses os srv addrs s)
  unfolding try_addresses
  try_addresses-Opened srv [] s = λ j. refl
  try_addresses-Opened srv (rp ∷ rest) s = elim (Bool-cases (int_eq fd (negsuc 0))) [
    | inl unmade ↦ rw unmade (
        Opened-from made s _ (λ j. o.socket_failed rp s j unmade)
          (try_addresses-Opened srv rest made))
    | inr valid ↦ elim (Bool-cases (bind_or_connect os srv fd rp made).0) [
      | inl done ↦ rw (valid, done) (valid, o.socket_new rp s valid, λ j. opened valid j)
      | inr failed ↦
          rw (valid, failed)
            (Opened-from (os.close fd tried) s _ (shut valid)
              (try_addresses-Opened srv rest (os.close fd tried)))
    ]
  ]
    where
      fd : ℤ
      fd = (os.socket rp s).0

      made : S
      made = (os.socket rp s).1

      tried : S
      tried = (bind_or_connect os srv fd rp made).1

      opened :
          int_eq fd (negsuc 0) ≡ false
          → (j : ℤ) → o.is_open j tried ≡ (int_eq j fd || o.is_open j s)
      opened valid j = bind_or_connect-same srv fd rp made j ∙ o.socket-opens rp s j valid

      shut :
          int_eq fd (negsuc 0) ≡ false → (j : ℤ) → o.is_open j (os.close fd tried) ≡ o.is_open j s
      shut valid j =
          o.close-shuts fd tried j
          ∙ ap (λ b. not (int_eq j fd) && b) (opened valid j)
          ∙ elim (Bool-cases (int_eq j fd)) [
            | inl same ↦ ground (
              arith,
              same,
              ap (λ k. o.is_open k s) (int_eq→≡ j fd same) ∙ o.socket_new rp s valid,
            )
            | inr other ↦ ground (arith, other)
          ]

  -- One descriptor more is open if there is a socket, and none if the call threw.
  abbrev pub OpensOne : S → Outcome Socket × S → Type 0
  OpensOne s (throws e, t) = (j : ℤ) → o.is_open j t ≡ o.is_open j s
  OpensOne s (returns k, t) =
      (is_valid k ≡ true)
      × (o.is_open k.sfd s ≡ false)
      × ((j : ℤ) → o.is_open j t ≡ (int_eq j k.sfd || o.is_open j s))
  OpensOne s (spins, t) = ⊥
  OpensOne s (dangles, t) = ⊥

  finish_socket-OpensOne :
      (srv : Bool) (s : S) (r : Option ℤ × S) → Opened s r → OpensOne s (finish_socket os srv r)
  unfolding finish_socket set_listening
  finish_socket-OpensOne srv s (none, t) h = h
  finish_socket-OpensOne true s (some fd, t) (valid, new, opens) =
      (ground (arith, valid), new, λ j. o.listen-same fd t j ∙ opens j)
  finish_socket-OpensOne false s (some fd, t) (valid, new, opens) =
      (ground (arith, valid), new, opens)

  -- The constructor comes back. If it throws, all that it opened on its way is closed again; if it
  -- returns, its socket is valid, its descriptor is new, and no other one has been opened or closed.
  pub new_socket-OpensOne :
      (hostname port : Bytes) (srv : Bool) (s : S) → OpensOne s (new_socket os hostname port srv s)
  unfolding new_socket
  new_socket-OpensOne hostname port srv s =
      elim (Option-cases
        (os.getaddrinfo (if bytes_eq hostname [] then codes "localhost" else hostname) port s)) [
          | inl unknown ↦ rw (unknown, new_socket) (λ j. refl)
          | inr (result, found) ↦
              rw (found, new_socket)
                (finish_socket-OpensOne srv s (try_addresses os srv result s)
                  (try_addresses-Opened srv result s))
        ]
