-- ===== src/Tracer/Log.antt =====
-- How the history of requests, as src/trace/tracer.cpp makes them, is read: whether a thread that is
-- let go was in a state to be let go.
use gravelbox.Base.{ℕ, suc, ◌≡◌, Bool, true, false, List, [], ◌∷◌, ◌==◌, if◌then◌else◌}
use gravelbox.Tracer.Types.{
  minus, Action, set_options, inspected, decided, read_regs, wrote_regs, resumed_with, erased,
}

-- What the log says of a thread since it was last let go.
pub data Standing : Type 0 where
  free undecided refused allowed cancelled : Standing

unfoldable pub standing : ℕ → List Action → Standing
standing p [] = free
standing p (inspected q ∷ l) = if q == p then undecided else standing p l
standing p (decided q _ v ∷ l) = if q == p then (if v then allowed else refused) else standing p l
standing p (wrote_regs q r ∷ l) =
    let before = standing p l in
    if q == p then (if r.orig_rax == minus 1 then cancelled else before) else before
standing p (resumed_with q _ ∷ l) = if q == p then free else standing p l
standing p (erased q ∷ l) = if q == p then free else standing p l
standing p (set_options _ _ ∷ l) = standing p l
standing p (read_regs _ ∷ l) = standing p l

-- A thread in a system call that was not decided, or was refused and not cancelled, must not run on.
unfoldable pub may_resume : Standing → Bool
may_resume undecided = false
may_resume refused = false
may_resume _ = true

-- Every thread that was let go was in a state to be let go.
abbrev pub Mediated : List Action → Type 0
Mediated [] = Unit
Mediated (resumed_with p _ ∷ l) = (may_resume (standing p l) ≡ true) × Mediated l
Mediated (_ ∷ l) = Mediated l

-- How often a thread was let go.
unfoldable pub resumes : ℕ → List Action → ℕ
resumes p [] = 0
resumes p (resumed_with q _ ∷ l) = if q == p then suc (resumes p l) else resumes p l
resumes p (_ ∷ l) = resumes p l
