-- ===== src/Program/Safety/Steady.antt =====
-- Calls that leave the sockets, the handlers and the maps of the program as they are.
use server_coursework.Base.{
  Bool-cases, ℕ, ℤ, pos, negsuc, ◌≡◌, refl, ◌∙◌, Bool, true, Option, none, some, Option-cases, inl,
  inr, arith, Outcome, returns, throws, spins, dangles, Bytes, ◌==◌, int_eq,
}
use server_coursework.Actions.{Ends}
use server_coursework.OrdMap.{OrdMap, lookup, has_key, assign}
use server_coursework.OrdMap.Keys.{int_Less, nat_Less}
use server_coursework.OrdMap.Laws.{assign-IsSorted, lookup-assign, same_iff, same_refl}
use server_coursework.Socket.{
  o_nonblock, after, Ended, Os, Socket, change_flags, add_flag, revert_flag, received_bytes, send,
  recieve,
}
use server_coursework.Socket.Opening.{Opens}
use server_coursework.Connection.{Connection, send_data}
use server_coursework.Request.{Request}
use server_coursework.Program.{Response, Program, Link, on_os}
use server_coursework.Program.HttpConnection.{set_alive, set_response}
use server_coursework.Program.Safety.{IsSafe}

module _ {S A : Type 0} (os : Os S A) (o : Opens os) where
  -- The same descriptors are open.
  abbrev pub Alike : S → S → Type 0
  Alike s t = (j : ℤ) → o.is_open j t ≡ o.is_open j s

  -- A call on the kernel that opens and closes nothing.
  abbrev pub IsQuiet : {B : Type 0} → S → Outcome B × S → Type 0
  IsQuiet s r = Ends (λ b. Alike s) (Alike s) r

  change_flags-IsQuiet : (f : ℕ → ℕ) (k : Socket) (s : S) → IsQuiet s (change_flags os f k s)
  unfolding change_flags
  change_flags-IsQuiet f k s = elim (Option-cases (os.get_flags k.sfd s)) [
    | inl bad ↦ rw (bad, change_flags) (λ j. refl)
    | inr (flags, got) ↦ elim (Option-cases (os.set_flags k.sfd (f flags) s)) [
      | inl bad ↦ rw (got, bad, change_flags) (λ j. refl)
      | inr (t, set) ↦ rw (got, set, change_flags) (λ j. o.flags-same k.sfd (f flags) s t j set)
    ]
  ]

  pub add_flag-IsQuiet : (k : Socket) (flag : ℕ) (s : S) → IsQuiet s (add_flag os k flag s)
  unfolding add_flag
  add_flag-IsQuiet k flag s = change_flags-IsQuiet _ k s

  IsQuiet-from : {B : Type 0} (s t : S) (r : Outcome B × S) → Alike s t → IsQuiet t r → IsQuiet s r
  IsQuiet-from s t (returns b, u) h q = λ j. q j ∙ h j
  IsQuiet-from s t (throws e, u) h q = λ j. q j ∙ h j
  IsQuiet-from s t (spins, u) h q = tt
  IsQuiet-from s t (dangles, u) h q = q

  after-IsQuiet :
      (s : S) (r : Ended S) (next : S → Ended S)
      → IsQuiet s r
      → ((t : S) → IsQuiet t (next t))
      → IsQuiet s (after r next)
  after-IsQuiet s (returns _, t) next h k = IsQuiet-from s t (next t) h (k t)
  after-IsQuiet s (throws e, t) next h k = h
  after-IsQuiet s (spins, t) next h k = tt
  after-IsQuiet s (dangles, t) next h k = h

  pub send-IsQuiet : (k : Socket) (text : Bytes) (s : S) → IsQuiet s (send os k text s)
  unfolding send revert_flag
  send-IsQuiet k text s = elim (Bool-cases (int_eq k.sfd (pos 0))) [
    | inl zero ↦ rw zero (λ j. refl)
    | inr other ↦ rw other (
        after-IsQuiet s (revert_flag os k o_nonblock s) _ (change_flags-IsQuiet _ k s) (λ t.
          IsQuiet-from t (os.write k.sfd text t).1 _ (o.write-same k.sfd text t)
            (change_flags-IsQuiet _ k (os.write k.sfd text t).1)))
  ]

  received_bytes-IsQuiet :
      (s : S) (r : Option Bytes × S) → Alike s r.1 → IsQuiet s (received_bytes os r)
  unfolding received_bytes
  received_bytes-IsQuiet s (none, t) h = h
  received_bytes-IsQuiet s (some bytes, t) h = h

  count_read-IsQuiet :
      (k : Socket) (s : S) (n : ℤ) → os.available k.sfd s ≡ n → IsQuiet s (recieve os k s)
  unfolding recieve
  count_read-IsQuiet k s (negsuc n) e = rw (e, recieve) (λ j. refl)
  count_read-IsQuiet k s (pos n) e = elim (Bool-cases (n == 0)) [
    | inl empty ↦ rw (e, empty, recieve) (λ j. refl)
    | inr some_bytes ↦
        rw (e, some_bytes, recieve)
          (received_bytes-IsQuiet s (os.read k.sfd n s) (o.read-same k.sfd n s))
  ]

  pub recieve-IsQuiet : (k : Socket) (s : S) → IsQuiet s (recieve os k s)
  recieve-IsQuiet k s = count_read-IsQuiet k s (os.available k.sfd s) refl

module _ {K S A : Type 0} {os : Os S A} (o : Opens os) where
  -- The requests of the clients and what the kernel has beside its open descriptors play no part.
  pub steady-IsSafe :
      (p : Program K S) (requests : OrdMap ℤ Request) (s : S)
      → IsSafe o p
      → Alike os o p.os s
      → IsSafe o (record p { request_map = requests; os = s })
  steady-IsSafe p requests s h same = record {
    consistent = h.consistent;
    clients_sorted = h.clients_sorted;
    con_map_sorted = h.con_map_sorted;
    responses_sorted = h.responses_sorted;
    client_keys = h.client_keys;
    client_handlers = h.client_handlers;
    bridges = h.bridges;
    alive = h.alive;
    bridge_handlers = h.bridge_handlers;
    own_response = h.own_response;
    old_responses = h.old_responses;
    opened = λ f e. same f ∙ h.opened f e;
    server_open = same p.server_socket.sfd ∙ h.server_open;
    server_listens = h.server_listens;
  }

  -- A response that is there may be written over.
  pub set_response-IsSafe :
      (p : Program K S) (address : ℕ) (r : Response)
      → IsSafe o p
      → has_key address p.responses ≡ true
      → IsSafe o (set_response address r p)
  unfolding set_response
  set_response-IsSafe p address r h here = record {
    consistent = h.consistent;
    clients_sorted = h.clients_sorted;
    con_map_sorted = h.con_map_sorted;
    responses_sorted = assign-IsSorted address r p.responses h.responses_sorted;
    client_keys = h.client_keys;
    client_handlers = h.client_handlers;
    bridges = h.bridges;
    alive = h.alive;
    bridge_handlers = λ f c a e. ground (
      arith,
      h.bridge_handlers f c a e,
      lookup-assign a address r p.responses,
      same_iff address a,
      here,
    );
    own_response = h.own_response;
    old_responses = λ a e. ground (
      arith,
      h.old_responses a,
      lookup-assign a address r p.responses,
      same_iff address a,
      here,
      e,
    );
    opened = h.opened;
    server_open = h.server_open;
    server_listens = h.server_listens;
  }

  pub set_response-has_key :
      (p : Program K S) (address : ℕ) (r : Response)
      → has_key address (set_response address r p).responses ≡ true
  unfolding set_response
  set_response-has_key p address r =
      ground (arith, lookup-assign address address r p.responses, same_refl address)

  ended-Ends :
      {B : Type 0} (Q : B → Program K S → Type 0) (X : Program K S → Type 0) (p : Program K S)
      (r : Outcome B × S)
      → IsQuiet os o p.os r
      → ((b : B) (s : S) → Alike os o p.os s → Q b (record p { os = s }))
      → ((s : S) → Alike os o p.os s → X (record p { os = s }))
      → Ends Q X (r.0, record p { os = r.1 })
  ended-Ends Q X p (returns b, s) h q x = q b s h
  ended-Ends Q X p (throws e, s) h q x = x s h
  ended-Ends Q X p (spins, s) h q x = tt
  ended-Ends Q X p (dangles, s) h q x = h

  pub on_os-Ends :
      {B : Type 0} (Q : B → Program K S → Type 0) (X : Program K S → Type 0) (f : S → Outcome B × S)
      (p : Program K S)
      → IsQuiet os o p.os (f p.os)
      → ((b : B) (s : S) → Alike os o p.os s → Q b (record p { os = s }))
      → ((s : S) → Alike os o p.os s → X (record p { os = s }))
      → Ends Q X (on_os f p)
  on_os-Ends Q X f p = ended-Ends Q X p (f p.os)

  pub send-Ends :
      (k : Connection) (text : Bytes) (p : Program K S)
      → IsSafe o p
      → Ends (λ _. IsSafe o) (IsSafe o) (on_os (send_data os k text) p)
  send-Ends k text p h =
      on_os-Ends (λ _. IsSafe o) (IsSafe o) (send_data os k text) p
        (send-IsQuiet os o k.socket text p.os) (λ _ s same. steady-IsSafe p p.request_map s h same)
        (λ s same. steady-IsSafe p p.request_map s h same)

module _ {K S : Type 0} where
  pub set_alive-some :
      (c : ℤ) (alive : Bool) (p : Program K S) (host : Bytes) (k : Link)
      → lookup c p.con_map ≡ some (host, k)
      → set_alive c alive p
        ≡ record p { con_map = assign c (host, record k { is_alive = alive }) p.con_map }
  unfolding set_alive
  set_alive-some c alive p host k found = rw (found, set_alive) refl
