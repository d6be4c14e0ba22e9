-- ===== src/Actions.antt =====
-- Calls that change a state: what they come to, and the state behind them. What was done before an
-- exception stays done.
use server_coursework.Base.{Outcome, returns, throws, spins, dangles}

abbrev pub Action : Type 0 → Type 0 → Type 0
Action P A = P → Outcome A × P

module _ {P A : Type 0} where
  abbrev pub pure : A → Action P A
  pure a p = (returns a, p)

  abbrev pub gets : (P → A) → Action P A
  gets f p = (returns (f p), p)

  abbrev pub lift : Outcome A → Action P A
  lift o p = (o, p)

abbrev pub modify : {P : Type 0} → (P → P) → Action P Unit
modify f p = (returns tt, f p)

-- What follows a call, by how it ended.
abbrev pub chain : {P A B : Type 0} → Outcome A × P → (A → Action P B) → Outcome B × P
chain (returns a, p) f = f a p
chain (throws e, p) f = (throws e, p)
chain (spins, p) f = (spins, p)
chain (dangles, p) f = (dangles, p)

infixl 5 ◌>>=◌ ◌>>◌
abbrev pub ◌>>=◌ : {P A B : Type 0} → Action P A → (A → Action P B) → Action P B
◌>>=◌ m f p = chain (m p) f

abbrev pub ◌>>◌ : {P A B : Type 0} → Action P A → Action P B → Action P B
m >> k = m >>= λ _. k

-- `try { m } catch (std::exception) { handler }`
abbrev pub recover : {P A : Type 0} → Outcome A × P → Action P A → Outcome A × P
recover (returns a, p) handler = (returns a, p)
recover (throws e, p) handler = handler p
recover (spins, p) handler = (spins, p)
recover (dangles, p) handler = (dangles, p)

abbrev pub attempt : {P A : Type 0} → Action P A → Action P A → Action P A
attempt m handler p = recover (m p) handler

-- An exception that nothing catches ends the program.
abbrev pub settle : {P : Type 0} → Outcome {0} Unit × P → Outcome P
settle (returns _, p) = returns p
settle (throws e, p) = throws e
settle (spins, p) = spins
settle (dangles, p) = dangles

-- How a call has ended: `Q` is asked of what it returned and of the state, `X` of the state behind an
-- exception, and no reference dangled.
abbrev pub Ends : {P A : Type 0} → (A → P → Type 0) → (P → Type 0) → Outcome A × P → Type 0
Ends Q X (returns a, p) = Q a p
Ends Q X (throws e, p) = X p
Ends Q X (spins, p) = Unit
Ends Q X (dangles, p) = ⊥

pub chain-Ends :
    {P A B : Type 0} (R : A → P → Type 0) (Q : B → P → Type 0) (X : P → Type 0) (r : Outcome A × P)
    (f : A → Action P B)
    → Ends R X r
    → ((a : A) (p : P) → R a p → Ends Q X (f a p))
    → Ends Q X (chain r f)
chain-Ends R Q X (returns a, p) f h k = k a p h
chain-Ends R Q X (throws e, p) f h k = h
chain-Ends R Q X (spins, p) f h k = tt
chain-Ends R Q X (dangles, p) f h k = h

pub recover-Ends :
    {P A : Type 0} (Q : A → P → Type 0) (X Y : P → Type 0) (r : Outcome A × P)
    (handler : Action P A)
    → Ends Q X r
    → ((p : P) → X p → Ends Q Y (handler p))
    → Ends Q Y (recover r handler)
recover-Ends Q X Y (returns a, p) handler h k = h
recover-Ends Q X Y (throws e, p) handler h k = k p h
recover-Ends Q X Y (spins, p) handler h k = tt
recover-Ends Q X Y (dangles, p) handler h k = h

pub Ends-map :
    {P A : Type 0} (Q R : A → P → Type 0) (X Y : P → Type 0) (r : Outcome A × P)
    → Ends Q X r
    → ((a : A) (p : P) → Q a p → R a p)
    → ((p : P) → X p → Y p)
    → Ends R Y r
Ends-map Q R X Y (returns a, p) h f g = f a p h
Ends-map Q R X Y (throws e, p) h f g = g p h
Ends-map Q R X Y (spins, p) h f g = tt
Ends-map Q R X Y (dangles, p) h f g = h

-- What every call leaves true of the state in front of it and the state behind it, however it ends.
module _ {P : Type 0} (R : P → P → Type 0) where
  abbrev pub Moves : {A : Type 0} → Action P A → Type 0
  Moves m = (p : P) → R p (m p).1

  module _ (trans : (p q r : P) → R p q → R q r → R p r) where
    chain-Moves :
        {A B : Type 0} (p : P) (r : Outcome A × P) (f : A → Action P B)
        → R p r.1
        → ((a : A) → Moves (f a))
        → R p (chain r f).1
    chain-Moves p (returns a, q) f h k = trans p q (f a q).1 h (k a q)
    chain-Moves p (throws e, q) f h k = h
    chain-Moves p (spins, q) f h k = h
    chain-Moves p (dangles, q) f h k = h

    pub bind-Moves :
        {A B : Type 0} (m : Action P A) (f : A → Action P B)
        → Moves m
        → ((a : A) → Moves (f a))
        → Moves (m >>= f)
    bind-Moves m f h k p = chain-Moves p (m p) f (h p) k

    recover-Moves :
        {A : Type 0} (p : P) (r : Outcome A × P) (handler : Action P A)
        → R p r.1
        → Moves handler
        → R p (recover r handler).1
    recover-Moves p (returns a, q) handler h k = h
    recover-Moves p (throws e, q) handler h k = trans p q (handler q).1 h (k q)
    recover-Moves p (spins, q) handler h k = h
    recover-Moves p (dangles, q) handler h k = h

    pub attempt-Moves :
        {A : Type 0} (m handler : Action P A) → Moves m → Moves handler → Moves (attempt m handler)
    attempt-Moves m handler h k p = recover-Moves p (m p) handler (h p) k

pub Ends-Moves :
    {P A : Type 0} (Q : A → P → Type 0) (X F : P → Type 0) (r : Outcome A × P)
    → Ends Q X r
    → F r.1
    → Ends (λ a q. Q a q × F q) X r
Ends-Moves Q X F (returns a, p) h f = (h, f)
Ends-Moves Q X F (throws e, p) h f = h
Ends-Moves Q X F (spins, p) h f = h
Ends-Moves Q X F (dangles, p) h f = h
