-- ===== src/Chain/Lock/Exclusion.antt =====
-- Who holds the lock file (chain/chain.go).
use toyblockchain.Prelude.{
  ℕ, ◌≡◌, ◌≢◌, refl, sym, ◌∙◌, inl, inr, Bool, true, false, Bool-cases, List, [], ◌∷◌, ◌==◌, arith,
}
use toyblockchain.Chain.Lock.{
  ProcessState, outside, waiting, holding, refused, released, exited, Processes, LockEvent, begin,
  attempt, release, exit, begin_in, attempt_in, release_in, lock_step, lock_run, nobody,
  set_process, become,
}

-- A process that holds the lock has made the lock file, and is the only one.
pub record IsExclusive (m : Processes) : Type 0 where
  pub locked : (i : ℕ) → m.process i ≡ holding → m.lock_file ≡ true
  pub only : (i j : ℕ) → m.process i ≡ holding → m.process j ≡ holding → i ≡ j

pub still_holding :
    (f : ℕ → ProcessState) (i j : ℕ) (s : ProcessState)
    → s ≢ holding
    → set_process f i s j ≡ holding
    → (f j ≡ holding) × (i ≢ j)
still_holding f i j s other h = elim (Bool-cases (i == j)) [
  | inl e ↦ let now : s ≡ holding = sym (rw e refl) ∙ h in absurd (other now)
  | inr e ↦ (sym (rw e refl) ∙ h, ground arith)
]

-- A step of a process that does not end up with the lock.
become-IsExclusive :
    (m : Processes) (i : ℕ) (s : ProcessState)
    → s ≢ holding
    → IsExclusive m
    → IsExclusive (become m i s)
become-IsExclusive m i s other v = record {
  locked = λ j h. v.locked j (still_holding m.process i j s other h).0;
  only = λ j k h g.
      v.only j k (still_holding m.process i j s other h).0
        (still_holding m.process i k s other g).0;
}

begin_in-IsExclusive :
    (m : Processes) (i : ℕ) (s : ProcessState) → IsExclusive m → IsExclusive (begin_in m i s)
unfolding begin_in
begin_in-IsExclusive m i outside v = become-IsExclusive m i waiting (λ e. cc) v
begin_in-IsExclusive m i waiting v = v
begin_in-IsExclusive m i holding v = v
begin_in-IsExclusive m i refused v = v
begin_in-IsExclusive m i released v = v
begin_in-IsExclusive m i exited v = v

-- The process that makes the lock file is the only holder, since there was no file.
held-IsExclusive :
    (m : Processes) (i : ℕ)
    → m.lock_file ≡ false
    → IsExclusive m
    → IsExclusive (record (become m i holding) { lock_file = true })
held-IsExclusive m i free v =
    let nobody_else : (j : ℕ) → set_process m.process i holding j ≡ holding → i ≡ j = λ j h.
      elim (Bool-cases (i == j)) [
        | inl e ↦ ground arith
        | inr e ↦
            let before : m.process j ≡ holding = sym (rw e refl) ∙ h in cc (v.locked j before, free)
      ] in
    record { locked = λ j h. refl; only = λ j k h g. sym (nobody_else j h) ∙ nobody_else k g }

attempt_in-IsExclusive :
    (m : Processes) (i : ℕ) (late lock : Bool) (s : ProcessState)
    → m.lock_file ≡ lock
    → IsExclusive m
    → IsExclusive (attempt_in m i late lock s)
unfolding attempt_in
attempt_in-IsExclusive m i true true waiting e v = become-IsExclusive m i refused (λ h. cc) v
attempt_in-IsExclusive m i false true waiting e v = v
attempt_in-IsExclusive m i late false waiting e v = held-IsExclusive m i e v
attempt_in-IsExclusive m i late lock outside e v = v
attempt_in-IsExclusive m i late lock holding e v = v
attempt_in-IsExclusive m i late lock refused e v = v
attempt_in-IsExclusive m i late lock released e v = v
attempt_in-IsExclusive m i late lock exited e v = v

-- Nobody else held the lock, so nobody holds it now.
freed-IsExclusive :
    (m : Processes) (i : ℕ)
    → m.process i ≡ holding
    → IsExclusive m
    → IsExclusive (record (become m i released) { lock_file = false })
freed-IsExclusive m i held v =
    let nobody_now : (j : ℕ) → set_process m.process i released j ≢ holding = λ j h.
      let (before, other) = still_holding m.process i j released (λ e. cc) h in
      other (v.only i j held before) in
    record { locked = λ j h. absurd (nobody_now j h); only = λ j k h g. absurd (nobody_now j h) }

release_in-IsExclusive :
    (m : Processes) (i : ℕ) (s : ProcessState)
    → m.process i ≡ s
    → IsExclusive m
    → IsExclusive (release_in m i s)
unfolding release_in
release_in-IsExclusive m i holding e v = freed-IsExclusive m i e v
release_in-IsExclusive m i outside e v = v
release_in-IsExclusive m i waiting e v = v
release_in-IsExclusive m i refused e v = v
release_in-IsExclusive m i released e v = v
release_in-IsExclusive m i exited e v = v

lock_step-IsExclusive :
    (e : LockEvent) (m : Processes) → IsExclusive m → IsExclusive (lock_step e m)
unfolding lock_step
lock_step-IsExclusive (begin i) m v = begin_in-IsExclusive m i (m.process i) v
lock_step-IsExclusive (attempt i late) m v =
    attempt_in-IsExclusive m i late m.lock_file (m.process i) refl v
lock_step-IsExclusive (release i) m v = release_in-IsExclusive m i (m.process i) refl v
lock_step-IsExclusive (exit i) m v = become-IsExclusive m i exited (λ e. cc) v

pub lock_run-IsExclusive :
    (es : List LockEvent) (m : Processes) → IsExclusive m → IsExclusive (lock_run es m)
unfolding lock_run
lock_run-IsExclusive [] m v = v
lock_run-IsExclusive (e ∷ es) m v =
    lock_run-IsExclusive es (lock_step e m) (lock_step-IsExclusive e m v)

pub nobody-IsExclusive : IsExclusive nobody
nobody-IsExclusive = record { locked = λ k h. cc; only = λ k l h g. cc }

-- Mutual exclusion: under any schedule from no lock file and no process, also where processes exit
-- without a `Release`, at most one process holds the lock.
pub lock_run-exclusive :
    (es : List LockEvent) (i j : ℕ)
    → (lock_run es nobody).process i ≡ holding
    → (lock_run es nobody).process j ≡ holding
    → i ≡ j
lock_run-exclusive es i j = (lock_run-IsExclusive es nobody nobody-IsExclusive).only i j
