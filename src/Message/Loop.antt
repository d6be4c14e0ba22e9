-- ===== src/Message/Loop.antt =====
-- The loop of a `parse` method, for any state and any body, and the rules by which it is proved.
use native.Mathlib.Decide.{dec_le}
use server_coursework.Base.{
  ℕ, zero, suc, ◌+◌, ◌≤◌, ◌<◌, ◌≡◌, ◌≢◌, refl, sym, ap, ◌∙◌, arith, Exception, Outcome, returns,
  throws, spins, dangles, ◌>>=◌, Ensures, Ensures-ne-spins, returns-injective, subst,
}
use server_coursework.Message.{Round, again, leave, resume}

module _ {S : Type 0} (round : S → Outcome (Round S)) where
  -- `while (true)`, for as many rounds as the fuel gives.
  unfoldable pub loop : ℕ → S → Outcome S
  loop zero s = spins
  loop (suc fuel) s = round s >>= resume (loop fuel)

  pub loop-again :
      (s : S) (fuel : ℕ) (t : S) → round s ≡ returns (again t) → loop (suc fuel) s ≡ loop fuel t
  unfolding loop
  loop-again s fuel t e = ap (λ m. m >>= resume (loop fuel)) e

  pub loop-leave :
      (s : S) (fuel : ℕ) (t : S) → round s ≡ returns (leave t) → loop (suc fuel) s ≡ returns t
  unfolding loop
  loop-leave s fuel t e = ap (λ m. m >>= resume (loop fuel)) e

  pub loop-throws :
      (s : S) (fuel : ℕ) (e : Exception) → round s ≡ throws e → loop (suc fuel) s ≡ throws e
  unfolding loop
  loop-throws s fuel x e = ap (λ m. m >>= resume (loop fuel)) e

  -- A state that a round gives back unchanged holds the loop for ever.
  pub loop_fixed : (s : S) → round s ≡ returns (again s) → (fuel : ℕ) → loop fuel s ≡ spins
  unfolding loop
  loop_fixed s e zero = refl
  loop_fixed s e (suc fuel) = loop-again s fuel s e ∙ loop_fixed s e fuel

  -- More rounds than the loop needs change nothing.
  pub loop_settled :
      (fuel more : ℕ) (s : S) → fuel ≤ more → loop fuel s ≢ spins → loop more s ≡ loop fuel s
  unfolding loop
  loop_settled zero more s le h = absurd (h refl)
  loop_settled (suc fuel) zero s le h = absurd (omega arith)
  loop_settled (suc fuel) (suc more) s le h =
      step (round s) h (λ t. loop_settled fuel more t (omega arith))
    where
      step :
          (m : Outcome (Round S))
          → (m >>= resume (loop fuel)) ≢ spins
          → ((t : S) → loop fuel t ≢ spins → loop more t ≡ loop fuel t)
          → (m >>= resume (loop more)) ≡ (m >>= resume (loop fuel))
      step (returns (again t)) h k = k t h
      step (returns (leave t)) h k = refl
      step (throws e) h k = refl
      step spins h k = refl
      step dangles h k = refl

  -- What every round does to a state holds between the first state and the last.
  module _ (Keeps : S → S → Type 0)
      (keeps_trans : (s t u : S) → Keeps s t → Keeps t u → Keeps s u) where
    abbrev pub KeepsRound : S → Round S → Type 0
    KeepsRound s (again t) = Keeps s t
    KeepsRound s (leave t) = Keeps s t

    pub loop-Keeps :
        (P : S → Type 0)
        → ((s : S) → P s → Ensures (KeepsRound s) (round s))
        → ((s t : S) → P s → Keeps s t → P t)
        → (fuel : ℕ) (s t : S) → P s
        → loop fuel s ≡ returns t
        → Keeps s t
    unfolding loop
    loop-Keeps P each stays zero s t p e = absurd (cc)
    loop-Keeps P each stays (suc fuel) s t p e =
        step (round s) (each s p) e
          λ q k d. keeps_trans s q t k (loop-Keeps P each stays fuel q t (stays s q p k) d)
      where
        step :
            (m : Outcome (Round S))
            → Ensures (KeepsRound s) m
            → (m >>= resume (loop fuel)) ≡ returns t
            → ((q : S) → Keeps s q → loop fuel q ≡ returns t → Keeps s t)
            → Keeps s t
        step (returns (again q)) k e go = go q k e
        step (returns (leave q)) k e go = subst (Keeps s) (returns-injective e) k
        step (throws x) k e go = absurd (cc)
        step spins k e go = absurd k
        step dangles k e go = absurd k

-- A loop each of whose rounds leaves, throws, or keeps the invariant with a smaller measure.
module _ {S : Type 0} (round : S → Outcome (Round S)) (Inv : S → Type 0) (Done : S → Type 0)
    (measure : S → ℕ) where
  -- A round that goes on.
  pub record Advances (s t : S) : Type 0 where
    pub kept : Inv t
    pub less : measure t < measure s

  abbrev pub After : S → Round S → Type 0
  After s (again t) = Advances s t
  After s (leave t) = Done t

  module _ (progress : (s : S) → Inv s → Ensures (After s) (round s)) where
    pub loop-Done : (fuel : ℕ) (s : S) → measure s < fuel → Inv s → Ensures Done (loop round fuel s)
    unfolding loop
    loop-Done zero s m i = absurd (omega arith)
    loop-Done (suc fuel) s m i =
        step (round s) (progress s i) λ t a. loop-Done fuel t (omega (arith, a.less)) a.kept
      where
        step :
            (m : Outcome (Round S))
            → Ensures (After s) m
            → ((t : S) → Advances s t → Ensures Done (loop round fuel t))
            → Ensures Done (m >>= resume (loop round fuel))
        step (returns (again t)) a k = k t a
        step (returns (leave t)) a k = a
        step (throws e) a k = tt
        step spins a k = a
        step dangles a k = a

    loop-ne-spins : (fuel : ℕ) (s : S) → measure s < fuel → Inv s → loop round fuel s ≢ spins
    loop-ne-spins fuel s m i = Ensures-ne-spins Done _ (loop-Done fuel s m i)

    -- Two fuels above the measure give one result.
    pub loop-enough :
        (fuel other : ℕ) (s : S)
        → Inv s
        → measure s < fuel
        → measure s < other
        → loop round fuel s ≡ loop round other s
    loop-enough fuel other s i m n = elim (dec_le fuel other) [
      | yes le ↦ sym (loop_settled round fuel other s le (loop-ne-spins fuel s m i))
      | no gt ↦ loop_settled round other fuel s (omega arith) (loop-ne-spins other s n i)
    ]

    pub again-Advances : (s : S) → Inv s → (t : S) → round s ≡ returns (again t) → Advances s t
    again-Advances s i t e = subst (Ensures (After s)) e (progress s i)

    -- A round that goes on does not change what the loop comes to.
    pub run-again :
        (fuel other : ℕ) (s : S)
        → Inv s
        → (t : S) → round s ≡ returns (again t)
        → measure s < fuel
        → measure t < other
        → loop round fuel s ≡ loop round other t
    run-again fuel other s i t e m n =
        let a = again-Advances s i t e in
        loop-enough fuel (suc (measure s)) s i m (omega arith)
        ∙ loop-again round s (measure s) t e
        ∙ loop-enough (measure s) other t a.kept a.less n

    pub run-leave :
        (fuel : ℕ) (s : S)
        → Inv s
        → (t : S) → round s ≡ returns (leave t)
        → measure s < fuel
        → loop round fuel s ≡ returns t
    run-leave fuel s i t e m =
        loop-enough fuel (suc (measure s)) s i m (omega arith) ∙ loop-leave round s (measure s) t e

    pub run-throws :
        (fuel : ℕ) (s : S)
        → Inv s
        → (e : Exception) → round s ≡ throws e
        → measure s < fuel
        → loop round fuel s ≡ throws e
    run-throws fuel s i x e m =
        loop-enough fuel (suc (measure s)) s i m (omega arith) ∙ loop-throws round s (measure s) x e

    -- States whose rounds agree come to one result.
    pub run_same :
        (fuel other : ℕ) (s t : S)
        → Inv s
        → Inv t
        → round s ≡ round t
        → measure s < fuel
        → measure t < other
        → loop round fuel s ≡ loop round other t
    unfolding loop
    run_same fuel other s t i j e m n =
        loop-enough fuel (suc rounds) s i m (omega arith)
        ∙ ap (λ o. o >>= resume (loop round rounds)) e
        ∙ loop-enough (suc rounds) other t j (omega arith) n
      where
        rounds : ℕ
        rounds = measure s + measure t

    -- A round that cannot go on is all that the loop does.
    pub run_last :
        (fuel : ℕ) (s : S) (m : Outcome S)
        → Inv s
        → round s ≡ (m >>= λ t. returns (leave t))
        → measure s < fuel
        → loop round fuel s ≡ m
    unfolding loop
    run_last fuel s m i e n =
        loop-enough fuel (suc (measure s)) s i n (omega arith)
        ∙ ap (λ o. o >>= resume (loop round (measure s))) e
        ∙ leaves m
      where
        leaves :
            (m : Outcome S)
            → ((m >>= λ t. returns (leave t)) >>= resume (loop round (measure s))) ≡ m
        leaves (returns t) = refl
        leaves (throws x) = refl
        leaves spins = refl
        leaves dangles = refl
