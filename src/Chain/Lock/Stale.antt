-- ===== src/Chain/Lock/Stale.antt =====
-- A lock file that nobody removes (chain/chain.go; main.go ends with `os.Exit` on an error).
use mathlib.Core.Path.{sym, subst}
use toyblockchain.Prelude.{ℕ, ◌≡◌, ◌≢◌, refl, Bool, true, false, List, [], ◌∷◌}
use toyblockchain.Chain.Lock.{
  ProcessState, outside, waiting, holding, refused, released, exited, Processes, LockEvent, begin,
  attempt, release, exit, begin_in, attempt_in, release_in, lock_step, lock_run, nobody, become,
}
use toyblockchain.Chain.Lock.Exclusion.{still_holding, lock_run-IsExclusive, nobody-IsExclusive}

-- Without a holder a lock file stays: no process ever holds the lock again.
record IsStale (m : Processes) : Type 0 where
  locked : m.lock_file ≡ true
  unheld : (i : ℕ) → m.process i ≢ holding

become-IsStale :
    (m : Processes) (i : ℕ) (s : ProcessState) → s ≢ holding → IsStale m → IsStale (become m i s)
become-IsStale m i s other v = record {
  locked = v.locked;
  unheld = λ j h. v.unheld j (still_holding m.process i j s other h).0;
}

begin_in-IsStale : (m : Processes) (i : ℕ) (s : ProcessState) → IsStale m → IsStale (begin_in m i s)
unfolding begin_in
begin_in-IsStale m i outside v = become-IsStale m i waiting (λ e. cc) v
begin_in-IsStale m i waiting v = v
begin_in-IsStale m i holding v = v
begin_in-IsStale m i refused v = v
begin_in-IsStale m i released v = v
begin_in-IsStale m i exited v = v

attempt_in-IsStale :
    (m : Processes) (i : ℕ) (late : Bool) (s : ProcessState)
    → IsStale m
    → IsStale (attempt_in m i late true s)
unfolding attempt_in
attempt_in-IsStale m i true waiting v = become-IsStale m i refused (λ e. cc) v
attempt_in-IsStale m i false waiting v = v
attempt_in-IsStale m i late outside v = v
attempt_in-IsStale m i late holding v = v
attempt_in-IsStale m i late refused v = v
attempt_in-IsStale m i late released v = v
attempt_in-IsStale m i late exited v = v

release_in-IsStale :
    (m : Processes) (i : ℕ) (s : ProcessState)
    → m.process i ≡ s
    → IsStale m
    → IsStale (release_in m i s)
unfolding release_in
release_in-IsStale m i holding e v = absurd (v.unheld i e)
release_in-IsStale m i outside e v = v
release_in-IsStale m i waiting e v = v
release_in-IsStale m i refused e v = v
release_in-IsStale m i released e v = v
release_in-IsStale m i exited e v = v

lock_step-IsStale : (e : LockEvent) (m : Processes) → IsStale m → IsStale (lock_step e m)
unfolding lock_step
lock_step-IsStale (begin i) m v = begin_in-IsStale m i (m.process i) v
lock_step-IsStale (attempt i late) m v =
    subst (λ (lock : Bool). IsStale (attempt_in m i late lock (m.process i))) (sym v.locked)
      (attempt_in-IsStale m i late (m.process i) v)
lock_step-IsStale (release i) m v = release_in-IsStale m i (m.process i) refl v
lock_step-IsStale (exit i) m v = become-IsStale m i exited (λ e. cc) v

lock_run-IsStale : (es : List LockEvent) (m : Processes) → IsStale m → IsStale (lock_run es m)
unfolding lock_run
lock_run-IsStale [] m v = v
lock_run-IsStale (e ∷ es) m v = lock_run-IsStale es (lock_step e m) (lock_step-IsStale e m v)

-- A process that exits while it holds the lock, with no deferred `Release`, leaves the lock file, and
-- under any schedule no process holds the lock after that.
pub lock_run-stale :
    (before after : List LockEvent) (i j : ℕ)
    → (lock_run before nobody).process i ≡ holding
    → (lock_run after (lock_step (exit i) (lock_run before nobody))).process j ≢ holding
unfolding lock_step
lock_run-stale before after i j held =
    let m = lock_run before nobody in
    let v = lock_run-IsExclusive before nobody nobody-IsExclusive in
    let gone : IsStale (become m i exited) = record {
      locked = v.locked i held;
      unheld = λ k h.
          let (was, other) = still_holding m.process i k exited (λ e. cc) h in
          other (v.only i k held was);
    } in
    (lock_run-IsStale after (become m i exited) gone).unheld j
