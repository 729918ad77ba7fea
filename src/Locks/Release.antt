-- ===== src/Locks/Release.antt =====
-- The locks of src/main.rs, src/interfaces.rs and src/acp_interface.rs are released, unless there is a
-- deadlock.
use rooster.Base.{ℕ, zero, suc, ◌≤◌, ◌≡◌, ◌⊎◌, inl, inr, List, equality_nat, arith}
use rooster.Interface.{Ref}
use rooster.Locks.{Tasks, start}
use rooster.Locks.Steps.{Step, Reaches}
use rooster.Locks.Exclusion.{IsExclusive}
use rooster.Locks.Exclusion.Runs.{Step-IsExclusive, Reaches-IsExclusive}
use rooster.Locks.Work.{work, IsInside, Works, rests, works_on, Step-work}
use rooster.Locks.Progress.{AnyDeadlock, progress}

then-Works :
    (n : ℕ) (s t u : Tasks) (step : Step s t) → IsInside step → Works n t u → Works (suc n) s u
then-Works _ s t _ step i rests = works_on rests step i
then-Works _ s t u step i (works_on {n} {t = v} w last j) =
    works_on (then-Works n s t v step i w) last j

release-within :
    (k : ℕ) (s : Tasks)
    → IsExclusive s
    → work s ≤ k
    → (n : ℕ) × (t : Tasks) × Works n s t × ((work t ≡ 0) ⊎ AnyDeadlock t)
release-within zero s h fits = (0, s, rests, inl (omega arith))
release-within (suc k) s h fits = elim (progress s h) [
  | inl e ↦ (0, s, rests, inl e)
  | inr (inr d) ↦ (0, s, rests, inr d)
  | inr (inl (t, step, i)) ↦
      let less = Step-work s t step i in
      let (n, u, w, ends) = release-within k t (Step-IsExclusive s t step h) (omega arith) in
      (suc n, u, then-Works n s t u step i w, ends)
]

-- However the tasks have come to hold locks, those that hold some can go on, without any task taking
-- its first lock, until no lock is held, unless they end in one of the two deadlocks.
pub work-released :
    (interfaces : ℕ) (joinlinks : List Ref) (s : Tasks)
    → Reaches (start interfaces joinlinks) s
    → (n : ℕ) × (t : Tasks) × Works n s t × ((work t ≡ 0) ⊎ AnyDeadlock t)
work-released interfaces joinlinks s r =
    release-within (work s) s (Reaches-IsExclusive interfaces joinlinks s r) (omega arith)
