-- ===== src/Chain/Lock.antt =====
-- The lock file (chain/chain.go, `AcquireFileLock` and `Release`): the loop of one process against
-- the answers of the operating system, and many processes on one lock file, whose steps a schedule
-- interleaves.
pub mod Waiting
pub mod Exclusion
pub mod Stale
use toyblockchain.Prelude.{
  ℕ, ◌+◌, Bool, true, false, Option, none, some, List, [], ◌∷◌, ltb, ◌==◌, if◌then◌else◌, Result,
  ok, err,
}

pub data LockError : Type 0 where
  creating_lock locked_by_another : LockError

-- the answer of `os.OpenFile` with `O_CREATE|O_EXCL`
pub data Opened : Type 0 where
  created exists denied : Opened

pub record Attempt : Type 0 where
  pub opened : Opened
  -- `time.Now()` after it, in nanoseconds
  pub now : ℕ

-- The loop; `none` while it goes on after the attempts.
unfoldable pub acquire_by : ℕ → List Attempt → Option (Result LockError (Unit {0}))
acquire_by deadline [] = none
acquire_by deadline (a ∷ attempts) =
    let rest = acquire_by deadline attempts in
    elim a.opened [
      | created ↦ some (ok tt)
      | denied ↦ some (err creating_lock)
      | exists ↦ if ltb deadline a.now then some (err locked_by_another) else rest
    ]

unfoldable pub acquire_file_lock : ℕ → ℕ → List Attempt → Option (Result LockError (Unit {0}))
acquire_file_lock now timeout attempts = acquire_by (now + timeout) attempts

pub data ProcessState : Type 0 where
  outside waiting holding refused released exited : ProcessState

pub record Processes : Type 0 where
  pub lock_file : Bool
  pub process : ℕ → ProcessState

pub data LockEvent : Type 0 where
  -- a call of `AcquireFileLock`
  begin : ℕ → LockEvent
  -- a round of its loop, after the deadline or not
  attempt : ℕ → Bool → LockEvent
  -- the deferred `Release`
  release : ℕ → LockEvent
  -- an end of the process that runs no deferred calls, as `os.Exit` does
  exit : ℕ → LockEvent

abbrev pub set_process : (ℕ → ProcessState) → ℕ → ProcessState → ℕ → ProcessState
set_process f i s j = if i == j then s else f j

module _ (m : Processes) (i : ℕ) where
  abbrev pub become : ProcessState → Processes
  become s = record m { process = set_process m.process i s }

  unfoldable pub begin_in : ProcessState → Processes
  begin_in outside = become waiting
  begin_in _ = m

  unfoldable pub attempt_in : Bool → Bool → ProcessState → Processes
  attempt_in late lock waiting =
      if lock
      then (if late then become refused else m)
      else record (become holding) { lock_file = true }
  attempt_in late lock _ = m

  unfoldable pub release_in : ProcessState → Processes
  release_in holding = record (become released) { lock_file = false }
  release_in _ = m

unfoldable pub lock_step : LockEvent → Processes → Processes
unfolding begin_in attempt_in release_in
lock_step (begin i) m = begin_in m i (m.process i)
lock_step (attempt i late) m = attempt_in m i late m.lock_file (m.process i)
lock_step (release i) m = release_in m i (m.process i)
lock_step (exit i) m = become m i exited

unfoldable pub lock_run : List LockEvent → Processes → Processes
lock_run [] m = m
lock_run (e ∷ es) m = lock_run es (lock_step e m)

-- No lock file and no process.
abbrev pub nobody : Processes
nobody = record { lock_file = false; process = λ i. outside }
