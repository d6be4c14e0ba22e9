-- ===== src/Program/Safety/Clients.antt =====
-- Data from a client.
use server_coursework.Base.{
  ℤ, ◌≡◌, refl, some, Option-cases, Bool-cases, inl, inr, arith, if◌then◌else◌, Bytes, Outcome,
  returns, throws, spins, dangles, IsSound,
}
use server_coursework.Actions.{
  ◌>>=◌, ◌>>◌, ◌>>◌, Action, pure, lift, modify, Ends, chain-Ends, Ends-map,
}
use server_coursework.OrdMap.{OrdMap, lookup, erase}
use server_coursework.OrdMap.Keys.{int_Less, nat_Less}
use server_coursework.Socket.{Os}
use server_coursework.Socket.Opening.{Opens}
use server_coursework.Connection.{recieve_data}
use server_coursework.Epoll.{Ctl}
use server_coursework.Request.{Request, is_complete}
use server_coursework.Request
use server_coursework.Request.Sound.{append_data-IsSound}
use server_coursework.Program.{Program, Link, Unset, fd_of, on_os, client_ref}
use server_coursework.Program.TcpServer.{client_at, client_income}
use server_coursework.Program.HttpServer.{
  data_income, request_at, set_request, finish_request, client_checked, erase_request,
}
use server_coursework.Program.Proxy.{on_request}
use server_coursework.Program.Safety.{IsSafe}
use server_coursework.Program.Safety.Steady.{steady-IsSafe, on_os-Ends, recieve-IsQuiet}
use server_coursework.Program.Safety.Fresh.{Known}
use server_coursework.Program.Safety.Relay.{on_request-Ends}

module _ {K S A : Type 0} ⦃ctl : Ctl K⦄ (os : Os S A) (unset : Unset) (o : Opens os) where
  -- The requests play no part.
  requests-Known :
      (c : ℤ) (p : Program K S) (requests : OrdMap ℤ Request)
      → Known o c p
      → Known o c (record p { request_map = requests })
  requests-Known c p requests h = (steady-IsSafe o p requests p.os h.0 (λ j. refl), h.1)

  finish_request-Ends :
      (c : ℤ) (r : Request) (p : Program K S)
      → Known o c p
      → Ends (λ _. IsSafe o) (λ q. Unit) (finish_request (on_request os unset) c r p)
  unfolding finish_request client_checked erase_request
  finish_request-Ends c r p h = elim (Option-cases (lookup c p.clients)) [
    | inl away ↦ ground (arith, h.1, away)
    | inr (k, found) ↦
        rw (found, finish_request, client_checked)
          (chain-Ends (λ _. IsSafe o) (λ _. IsSafe o) (λ q. Unit) (on_request os unset c r p) _
            (Ends-map (λ _. IsSafe o) (λ _. IsSafe o) (IsSafe o) (λ q. Unit)
              (on_request os unset c r p) (on_request-Ends os unset o c r p h) (λ _ q safe. safe)
              (λ q safe. tt))
            (λ _ q safe. steady-IsSafe o q (erase c q.request_map) q.os safe (λ j. refl)))
  ]

  -- What follows `append_data`.
  abbrev taken_request : ℤ → Request → Action (Program K S) Unit
  taken_request c taken =
      modify (set_request c taken)
      >> (if is_complete taken then finish_request (on_request os unset) c taken else pure tt)

  taken_request-Ends :
      (c : ℤ) (taken : Request) (p : Program K S)
      → Known o c p
      → Ends (λ _. IsSafe o) (λ q. Unit) (taken_request c taken p)
  unfolding set_request
  taken_request-Ends c taken p h = elim (Bool-cases (is_complete taken)) [
    | inl complete ↦ rw complete (finish_request-Ends c taken (set_request c taken p) set)
    | inr other ↦ rw other set.0
  ]
    where
      set : Known o c (set_request c taken p)
      set = requests-Known c p _ h

  lifted-Ends :
      (c : ℤ) (m : Outcome Request) (p : Program K S)
      → Known o c p
      → IsSound m
      → Ends (λ _. Known o c) (λ q. Unit) (lift m p)
  lifted-Ends c (returns taken) p h sound = h
  lifted-Ends c (throws e) p h sound = tt
  lifted-Ends c spins p h sound = tt
  lifted-Ends c dangles p h sound = sound

  request_at-Known :
      (c d : ℤ) (p : Program K S) → Known o d p → Ends (λ _. Known o d) (λ q. Unit) (request_at c p)
  unfolding request_at set_request
  request_at-Known c d p h = elim (Option-cases (lookup c p.request_map)) [
    | inl away ↦ rw (away, request_at) (requests-Known d p _ h)
    | inr (r, found) ↦ rw (found, request_at) h
  ]

  -- `data_income` behind the reading, for the client `c`.
  abbrev taken_bytes : ℤ → Bytes → Action (Program K S) Unit
  taken_bytes c msg = do
    r ← request_at c
    taken ← lift (Request.append_data r msg)
    taken_request c taken

  taken_bytes-Ends :
      (c : ℤ) (msg : Bytes) (p : Program K S)
      → Known o c p
      → Ends (λ _. IsSafe o) (λ q. Unit) (taken_bytes c msg p)
  taken_bytes-Ends c msg p h =
      chain-Ends (λ _. Known o c) _ _ (request_at c p) _ (request_at-Known c c p h)
        λ r q k.
          chain-Ends (λ _. Known o c) (λ _. IsSafe o) (λ u. Unit)
            (lift (Request.append_data r msg) q) _
            (lifted-Ends c (Request.append_data r msg) q k (append_data-IsSound r msg))
            λ taken u l. taken_request-Ends c taken u l

  pub client_income-Ends :
      (p : Program K S) (k : Link)
      → IsSafe o p
      → lookup (fd_of k) p.clients ≡ some k
      → Ends
          (λ _. IsSafe o)
          (λ q. Unit)
          (client_income os unset (data_income os (on_request os unset)) (fd_of k) p)
  unfolding client_income client_at data_income client_ref
  client_income-Ends p k h found =
      rw (found, client_income, client_at, data_income, found, client_ref)
        (chain-Ends (λ _. Known o (fd_of k)) (λ _. IsSafe o) (λ q. Unit)
          (on_os (recieve_data os k.connection) p) _
          (on_os-Ends o (λ _. Known o (fd_of k)) (λ q. Unit) (recieve_data os k.connection) p
            (recieve-IsQuiet os o k.connection.socket p.os)
            (λ _ s same. (steady-IsSafe o p p.request_map s h same, ground (arith, found)))
            (λ s same. tt))
          (λ msg q. taken_bytes-Ends (fd_of k) msg q))
