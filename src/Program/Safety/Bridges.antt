-- ===== src/Program/Safety/Bridges.antt =====
-- The callbacks of a bridge.
use server_coursework.Base.{
  ℕ, ℤ, ◌≡◌, true, some, Option-cases, Bool-cases, inl, inr, arith, if◌then◌else◌, Bytes, Outcome,
  returns, throws, spins, dangles, IsSound,
}
use server_coursework.Actions.{
  ◌>>◌, Action, lift, pure, modify, Ends, chain-Ends, recover-Ends, Ends-map,
}
use server_coursework.OrdMap.{lookup, has_key}
use server_coursework.OrdMap.Keys.{int_Less, nat_Less}
use server_coursework.Socket.{Os}
use server_coursework.Socket.Opening.{Opens}
use server_coursework.Connection.{recieve_data, send_data}
use server_coursework.Epoll.{Ctl}
use server_coursework.Response.{Response, is_complete}
use server_coursework.Response.Commit
use server_coursework.Response.Sound.{append_data-IsSound}
use server_coursework.Response
use server_coursework.Program.{Program, bridge, Unset, on_os, client_ref, bridge_ref}
use server_coursework.Program.HttpConnection.{
  send_response, response_ref, set_response, take_response, bridge_income,
}
use server_coursework.Program.Proxy.{response_handler}
use server_coursework.Program.Safety.{bridge_fd, IsSafe}
use server_coursework.Program.Safety.Steady.{
  send-IsQuiet, steady-IsSafe, set_response-IsSafe, set_response-has_key, on_os-Ends,
  recieve-IsQuiet, send-IsQuiet,
}

module _ {K S A : Type 0} ⦃ctl : Ctl K⦄ {os : Os S A} (o : Opens os) where
  -- A safe state in which a client and a response are there.
  abbrev IsHeld : ℤ → ℕ → Program K S → Type 0
  IsHeld c address p =
      IsSafe o p × (has_key c p.clients ≡ true) × (has_key address p.responses ≡ true)

  set_response-IsHeld :
      (c : ℤ) (address : ℕ) (r : Response) (p : Program K S)
      → IsHeld c address p
      → IsHeld c address (set_response address r p)
  unfolding set_response
  set_response-IsHeld c address r p h =
      (set_response-IsSafe o p address r h.0 h.2, h.1, set_response-has_key o p address r)

module _ {K S A : Type 0} ⦃ctl : Ctl K⦄ (os : Os S A) (unset : Unset) (o : Opens os) where
  response_handler-Ends :
      (c : ℤ) (address : ℕ) (r : Response) (p : Program K S)
      → IsHeld o c address p
      → Ends (λ _. IsHeld o c address) (IsHeld o c address) (response_handler os c r p)
  unfolding response_handler client_ref send_response
  response_handler-Ends c address r p h = elim (Option-cases (lookup c p.clients)) [
    | inl away ↦ ground (arith, h.1, away)
    | inr (k, found) ↦
        rw (found, response_handler, client_ref)
          (on_os-Ends o (λ _. IsHeld o c address) (IsHeld o c address)
            (send_data os k.connection (Response.Commit.commit r).0) p
            (send-IsQuiet os o k.connection.socket (Response.Commit.commit r).0 p.os)
            (λ _ s same. (steady-IsSafe o p p.request_map s h.0 same, h.1, h.2))
            (λ s same. (steady-IsSafe o p p.request_map s h.0 same, h.1, h.2)))
  ]

  -- What follows `append_data`.
  abbrev taken_response : ℤ → ℕ → Response → Action (Program K S) Unit
  taken_response c address taken =
      modify (set_response address taken)
      >> (if is_complete taken
          then (response_handler os c taken
              >> modify (set_response address (Response.fresh unset.number)))
          else pure tt)

  taken_response-Ends :
      (c : ℤ) (address : ℕ) (taken : Response) (p : Program K S)
      → IsHeld o c address p
      → Ends (λ _. IsHeld o c address) (IsHeld o c address) (taken_response c address taken p)
  taken_response-Ends c address taken p h = elim (Bool-cases (is_complete taken)) [
    | inl complete ↦ rw complete (
        chain-Ends (λ _. IsHeld o c address) _ _
          (response_handler os c taken (set_response address taken p)) _
          (response_handler-Ends c address taken (set_response address taken p) set)
          (λ _ q. set_response-IsHeld o c address (Response.fresh unset.number) q))
    | inr other ↦ rw other set
  ]
    where
      set : IsHeld o c address (set_response address taken p)
      set = set_response-IsHeld o c address taken p h

  lifted-Ends :
      (c : ℤ) (address : ℕ) (m : Outcome Response) (p : Program K S)
      → IsHeld o c address p
      → IsSound m
      → Ends (λ _. IsHeld o c address) (IsHeld o c address) (lift m p)
  lifted-Ends c address (returns taken) p h sound = h
  lifted-Ends c address (throws e) p h sound = h
  lifted-Ends c address spins p h sound = tt
  lifted-Ends c address dangles p h sound = sound

  take_response-Ends :
      (c : ℤ) (address : ℕ) (text : Bytes) (p : Program K S)
      → IsHeld o c address p
      → Ends
          (λ _. IsHeld o c address)
          (IsHeld o c address)
          (take_response os unset (response_handler os c) address text p)
  unfolding take_response response_ref
  take_response-Ends c address text p h = elim (Option-cases (lookup address p.responses)) [
    | inl away ↦ ground (arith, h.2, away)
    | inr (r, found) ↦
        rw (found, take_response, response_ref)
          (chain-Ends (λ _. IsHeld o c address) _ _ (lift (Response.append_data r text) p) _
            (lifted-Ends c address (Response.append_data r text) p h (append_data-IsSound r text))
            (λ taken q. taken_response-Ends c address taken q))
  ]

  pub bridge_income-Ends :
      (f c : ℤ) (address : ℕ) (p : Program K S)
      → IsSafe o p
      → lookup f p.epoll.handlers ≡ some (bridge c address)
      → Ends
          (λ _. IsSafe o)
          (λ q. Unit)
          (bridge_income os unset (response_handler os c) c address p)
  unfolding bridge_income bridge_ref
  bridge_income-Ends f c address p h mine = elim (Option-cases (lookup c p.con_map)) [
    | inl away ↦ ground (arith, h.bridge_handlers f c address mine, away)
    | inr (entry, found) ↦
        rw (found, bridge_income, bridge_ref)
          (chain-Ends (λ _. IsHeld o c address) (λ _. IsSafe o) (λ q. Unit)
            (on_os (recieve_data os entry.1.connection) p) _
            (on_os-Ends o (λ _. IsHeld o c address) (λ q. Unit) (recieve_data os entry.1.connection)
              p (recieve-IsQuiet os o entry.1.connection.socket p.os)
              (λ _ s same. (steady-IsSafe o p p.request_map s h same, owned.1, owned.2))
              (λ s same. tt))
            (λ text q held.
              recover-Ends (λ _. IsSafe o) (IsHeld o c address) (λ q. Unit) _ _
                (Ends-map (λ _. IsHeld o c address) (λ _. IsSafe o) (IsHeld o c address)
                  (IsHeld o c address)
                  (take_response os unset (response_handler os c) address text q)
                  (take_response-Ends c address text q held) (λ _ u k. k.0) (λ u k. k))
                (λ u k. (set_response-IsHeld o c address (Response.fresh unset.number) u k).0)))
  ]
    where
      owned :
          (bridge_fd (lookup c p.con_map) ≡ some f)
          × (has_key c p.clients ≡ true)
          × (has_key address p.responses ≡ true)
      owned = h.bridge_handlers f c address mine
