-- ===== src/Scheduler/Run.antt =====
-- `Scheduler::run_next_process` of kernel/process/scheduler.cpp.
use tetra_os.Base.{
  ℕ, zero, suc, ◌<◌, ◌≡◌, refl, inl, inr, Option, none, some, List, [], ◌∷◌, length, if◌then◌else◌,
  arith, Bool-cases,
}
use tetra_os.Scheduler.{
  Process, ProcessListItem, Scheduler, is_ready, first_ready, run_next_process,
}
use tetra_os.Scheduler.Chain.{IsChain, processes}

-- The first process of a list that is ready.
abbrev ready_of : List Process → Option Process
ready_of [] = none
ready_of (p ∷ ps) = let rest = ready_of ps in if is_ready p then some p else rest

first_ready_lem :
    (items : ℕ → ProcessListItem) (fuel from : ℕ) (more : List ℕ) (p : Process)
    → length more < fuel
    → IsChain items from more
    → ready_of (processes items more) ≡ some p
    → first_ready fuel items from ≡ some p
unfolding first_ready
first_ready_lem items zero from more p h chain e = absurd (omega arith)
first_ready_lem items (suc fuel) from [] p h chain e = absurd (cc)
first_ready_lem items (suc fuel) from (a ∷ more) p h chain e =
    rw chain.0 (elim (Bool-cases (is_ready (items a).process)) [
      | inl yes_ready ↦ rw yes_ready (rw yes_ready at e)
      | inr not_ready ↦ rw not_ready (
          first_ready_lem items fuel (items a).next more p (omega arith) chain.2
            (rw not_ready at e))
    ])

-- Where the list has a process that is ready, `run_next_process` ends with the first of them as the
-- current process, and changes nothing else.
pub run_next_process-ready_of :
    (fuel : ℕ) (s : Scheduler) (addresses : List ℕ) (p : Process)
    → length addresses < fuel
    → IsChain s.items s.first_process addresses
    → ready_of (processes s.items addresses) ≡ some p
    → run_next_process fuel s ≡ some (p, record s { current_process = some p })
unfolding run_next_process
run_next_process-ready_of fuel s addresses p enough chain e =
    rw (first_ready_lem s.items fuel s.first_process addresses p enough chain e, run_next_process)
      refl
