-- ===== src/Block/Mine.antt =====
-- Concurrent mining (block/block.go, `Mine`). The goroutines are interleaved by a schedule, one
-- access to shared state at a time: each worker's step is a function of the shared state and of where
-- the worker stands, and each event of the schedule moves one goroutine, or the caller's context.
-- An event that is not enabled changes nothing.
pub mod Invariant
pub mod Steps
pub mod Runs
pub mod Outcomes
use toyblockchain.Prelude.{
  ℕ, zero, suc, ◌+◌, ◌-◌, ◌^◌, Bool, true, false, not, ◌&&◌, ◌||◌, Option, none, some, List, [],
  ◌∷◌, ltb, leb, ◌==◌, if◌then◌else◌, Result, ok, err, fail_if, ◌>>=◌, ◌>>◌,
}
use toyblockchain.Prelude.Int.{ℤ, pos, pos_part, ltb_ℤ, leb_ℤ}
use toyblockchain.Prelude.Int64.{u64}
use toyblockchain.Prelude.Bytes.{Bytes}
use toyblockchain.Platform.{Platform}
use toyblockchain.Block.Types.{Block}
use toyblockchain.Block.Hash.{compute_hash, meets_difficulty}

pub record MiningLimits : Type 0 where
  pub max_attempts : ℕ
  pub max_nonce : ℕ
  pub workers : ℤ

pub data MiningError : Type 0 where
  invalid_difficulty : ℤ → MiningError
  mining_timeout : MiningError
  mining_cancelled : MiningError
  max_attempts_reached : MiningError
  max_nonce_reached : MiningError

-- `ctx.Err()` once the caller's context is done
pub data Expiry : Type 0 where
  deadline_exceeded cancelled_by_caller : Expiry

-- Where a worker stands, with its local variables.
pub data WorkerState : Type 0 where
  -- the `select` at the head of the loop
  polling : (nonce : ℕ) → WorkerState
  -- before the test of `MaxNonce` and `attempts.Add(1)`
  counting : (nonce : ℕ) → WorkerState
  -- before the test of `MaxAttempts`
  counted : (nonce current_attempt : ℕ) → WorkerState
  -- before the hash of the local copy
  hashing : (nonce : ℕ) → WorkerState
  -- before the `select` that sends
  sending : (nonce : ℕ) → WorkerState
  -- before `cancel()`
  stopping : WorkerState
  returned : WorkerState

-- Where `Mine` itself stands: in its `select`, or returned, with the nonce that was found.
pub data MainState : Type 0 where
  waiting : MainState
  found : (nonce : ℕ) → MainState
  failed : MiningError → MainState

-- The nonce stands for the `workerResult` too: its hash is that of the block with the nonce.
pub record Shared : Type 0 where
  pub attempts : ℕ
  pub maximum_attempts_reached : Bool
  -- `miningContext` is done
  pub cancelled : Bool
  pub result_channel : Option ℕ

pub record Miner : Type 0 where
  pub shared : Shared
  pub open shared use *
  pub expired : Option Expiry
  pub worker : ℕ → WorkerState
  pub main : MainState

pub data Event : Type 0 where
  -- a step of one worker
  work : ℕ → Event
  -- the caller's context is done
  expire : Expiry → Event
  -- and so, then, is `miningContext`
  propagate : Event
  -- the cases of the `select` in `Mine`
  receive : Event
  see_expired : Event
  see_workers_done : Event

abbrev pub is_some {ℓ} : {A : Type ℓ} → Option A → Bool
is_some none = false
is_some (some _) = true

abbrev pub update : (ℕ → WorkerState) → ℕ → WorkerState → ℕ → WorkerState
update f i w j = if i == j then w else f j

-- `workerCount`, for a machine with `cpus` processors
unfoldable pub worker_count : MiningLimits → ℤ → ℕ
worker_count limits cpus =
    let count = if leb_ℤ limits.workers (pos 0) then cpus else limits.workers in
    if ltb_ℤ count (pos 1) then 1 else pos_part count

abbrev pub expiry_error : Expiry → MiningError
expiry_error deadline_exceeded = mining_timeout
expiry_error cancelled_by_caller = mining_cancelled

abbrev pub is_returned : WorkerState → Bool
is_returned returned = true
is_returned _ = false

-- `workerGroup.Wait()` returns
unfoldable pub all_returned : ℕ → (ℕ → WorkerState) → Bool
all_returned zero worker = true
all_returned (suc n) worker = is_returned (worker n) && all_returned n worker

module _ (p : Platform) (b : Block) (limits : MiningLimits) (n : ℕ) where
  -- `candidate.ComputeHash()`, and whether it is good enough
  abbrev pub candidate_hash : ℕ → Bytes
  candidate_hash nonce = compute_hash p (record b { nonce = nonce })

  abbrev pub is_hit : ℕ → Bool
  is_hit nonce = meets_difficulty (candidate_hash nonce) b.difficulty

  abbrev pub is_past_maximum : ℕ → Bool
  is_past_maximum nonce = ltb 0 limits.max_nonce && ltb limits.max_nonce nonce

  abbrev pub is_past_attempts : ℕ → Bool
  is_past_attempts attempt = ltb 0 limits.max_attempts && ltb limits.max_attempts attempt

  -- `nonce > ^uint64(0)-step`, with the number of workers as the step
  abbrev pub would_overflow : ℕ → Bool
  would_overflow nonce = ltb (2 ^ 64 - 1 - n) nonce

  -- the `select` that sends to the channel if it is empty
  unfoldable pub send_result : ℕ → Shared → Option ℕ → Shared × WorkerState
  send_result nonce s none = (record s { result_channel = some nonce }, stopping)
  send_result nonce s (some _) = (s, returned)

  unfoldable pub worker_step : Shared → WorkerState → Shared × WorkerState
  unfolding send_result
  worker_step s (polling nonce) = (s, if s.cancelled then returned else counting nonce)
  worker_step s (counting nonce) =
      let attempt = u64 (s.attempts + 1) in
      if is_past_maximum nonce
      then (s, returned)
      else (record s { attempts = attempt }, counted nonce attempt)
  worker_step s (counted nonce attempt) =
      if is_past_attempts attempt
      then (record s { maximum_attempts_reached = true }, stopping)
      else (s, hashing nonce)
  worker_step s (hashing nonce) = (
    s,
    if is_hit nonce
        then sending nonce
        else if would_overflow nonce
        then returned
        else polling (nonce + n),
  )
  worker_step s (sending nonce) = send_result nonce s s.result_channel
  worker_step s stopping = (record s { cancelled = true }, returned)
  worker_step s returned = (s, returned)

  -- what `Mine` does with the channel when it receives, or tries to
  unfoldable pub take_result : Option ℕ → Miner → Miner → Miner
  take_result (some nonce) m otherwise = record m {
    shared = record (m.shared) { result_channel = none };
    main = found nonce;
  }
  take_result none m otherwise = otherwise

  unfoldable pub fail_expired : Option Expiry → Miner → Miner
  fail_expired none m = m
  fail_expired (some e) m = record m { main = failed (expiry_error e) }

  -- `Mine` returns without a result after all workers.
  abbrev pub fail_exhausted : Miner → Miner
  fail_exhausted m = record m {
    main = failed (if m.maximum_attempts_reached then max_attempts_reached else max_nonce_reached);
  }

  unfoldable pub main_step : Event → Miner → Miner
  unfolding take_result fail_expired all_returned
  main_step receive m = take_result m.result_channel m m
  main_step see_expired m = fail_expired m.expired m
  main_step see_workers_done m =
      if all_returned n m.worker then take_result m.result_channel m (fail_exhausted m) else m
  main_step _ m = m

  abbrev pub is_waiting : MainState → Bool
  is_waiting waiting = true
  is_waiting _ = false

  unfoldable pub step : Event → Miner → Miner
  unfolding worker_step main_step
  step (work i) m =
      let (s, w) = worker_step m.shared (m.worker i) in
      if ltb i n then record m { shared = s; worker = update m.worker i w } else m
  step (expire e) m = if is_some m.expired then m else record m { expired = some e }
  step propagate m =
      if is_some m.expired then record m { shared = record (m.shared) { cancelled = true } } else m
  step event m = if is_waiting m.main then main_step event m else m

  -- All workers have been started; worker i begins with nonce i.
  abbrev pub start : Miner
  start = record {
    shared = record {
      attempts = 0;
      maximum_attempts_reached = false;
      cancelled = false;
      result_channel = none;
    };
    expired = none;
    worker = polling;
    main = waiting;
  }

  unfoldable pub run : List Event → Miner → Miner
  run [] m = m
  run (e ∷ es) m = run es (step e m)

  -- `Mine` under a schedule: `none` while it has not returned. A block that is mined has the nonce
  -- that was found and its hash.
  unfoldable pub outcome : MainState → Option (Result MiningError Block)
  outcome waiting = none
  outcome (found nonce) = some (ok (record b { nonce = nonce; hash = candidate_hash nonce }))
  outcome (failed e) = some (err e)

  unfoldable pub mine : List Event → Option (Result MiningError Block)
  unfolding run outcome
  mine events =
      if ltb_ℤ b.difficulty (pos 0) || ltb_ℤ (pos 64) b.difficulty
      then some (err (invalid_difficulty b.difficulty))
      else outcome (run events start).main
