-- ===== src/Chain/Lock/Waiting.antt =====
-- `AcquireFileLock` returns (chain/chain.go).
use toyblockchain.Prelude.{
  if◌then◌else◌, false, ℕ, ◌+◌, ◌*◌, ◌<◌, ◌≤◌, ◌≡◌, refl, inl, inr, Bool-cases, true, false, some,
  List, [], ◌∷◌, length, ltb, Result, ok, err, arith,
}
use toyblockchain.Chain.Lock.{
  creating_lock, Opened, created, exists, denied, Attempt, LockError, locked_by_another, acquire_by,
  acquire_file_lock,
}

-- A clock that does not go back, and sleeps of at least 100 milliseconds between the attempts.
abbrev pub IsPaced : ℕ → List Attempt → Type 0
IsPaced now [] = Unit
IsPaced now (a ∷ attempts) = (now ≤ a.now) × IsPaced (a.now + 100000000) attempts

acquire_by_returns :
    (deadline now : ℕ) (attempts : List Attempt)
    → IsPaced now attempts
    → deadline + 100000000 < now + length attempts * 100000000
    → now ≤ deadline + 100000000
    → (r : Result LockError (Unit {0})) × (acquire_by deadline attempts ≡ some r)
unfolding acquire_by
acquire_by_returns deadline now [] paced enough soon = absurd (omega arith)
acquire_by_returns deadline now (a ∷ attempts) paced enough soon =
    elim (Bool-cases (ltb deadline a.now)) [
      | inl late ↦ answered (a.opened) late
      | inr early ↦
          let later =
            acquire_by_returns deadline (a.now + 100000000) attempts paced.1
              (omega (arith, paced.0)) (ground arith) in
          waited (a.opened) early later
    ]
  where
    Returns : Opened → Type 0
    Returns o =
        (r : Result LockError (Unit {0})) × (elim o [
          | created ↦ some (ok tt)
          | denied ↦ some (err creating_lock)
          | exists ↦
              if ltb deadline a.now
              then some (err locked_by_another)
              else acquire_by deadline attempts
        ]
          ≡ some r)

    answered : (o : Opened) → ltb deadline a.now ≡ true → Returns o
    answered created late = (ok tt, refl)
    answered denied late = (err creating_lock, refl)
    answered exists late = (err locked_by_another, rw late refl)

    waited :
        (o : Opened)
        → ltb deadline a.now ≡ false
        → (r : Result LockError (Unit {0})) × (acquire_by deadline attempts ≡ some r)
        → Returns o
    waited created early later = (ok tt, refl)
    waited denied early later = (err creating_lock, refl)
    waited exists early (r, e) = (r, rw early e)

-- `AcquireFileLock` returns: with a clock that does not go back and sleeps of at least 100
-- milliseconds, the loop ends within as many rounds as the timeout has tenths of a second, and two.
pub acquire_file_lock_returns :
    (now timeout : ℕ) (attempts : List Attempt)
    → IsPaced now attempts
    → timeout + 100000000 < length attempts * 100000000
    → (r : Result LockError (Unit {0})) × (acquire_file_lock now timeout attempts ≡ some r)
unfolding acquire_file_lock
acquire_file_lock_returns now timeout attempts paced enough =
    acquire_by_returns (now + timeout) now attempts paced (omega arith) (omega arith)
