-- ===== src/Message/Sound.antt =====
-- A loop uses no object that is gone if its rounds use none.
use server_coursework.Base.{ℕ, zero, suc, Outcome, IsSound, IsSound-bind}
use server_coursework.Message.{Round, again, leave, resume}
use server_coursework.Message.Loop.{loop}

resume-IsSound :
    {S : Type 0} (rest : S → Outcome S) (r : Round S)
    → ((t : S) → IsSound (rest t))
    → IsSound (resume rest r)
resume-IsSound rest (again t) sound = sound t
resume-IsSound rest (leave t) sound = tt

module _ {S : Type 0} (round : S → Outcome (Round S)) (sound : (s : S) → IsSound (round s)) where
  pub loop-IsSound : (fuel : ℕ) (s : S) → IsSound (loop round fuel s)
  unfolding loop
  loop-IsSound zero s = tt
  loop-IsSound (suc fuel) s =
      IsSound-bind (round s) (resume (loop round fuel)) (sound s)
        λ r. resume-IsSound (loop round fuel) r (loop-IsSound fuel)
