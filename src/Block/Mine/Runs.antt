-- ===== src/Block/Mine/Runs.antt =====
-- The invariant over whole runs.
use toyblockchain.Prelude.{
  ℕ, zero, suc, ◌^◌, ◌<◌, ◌≡◌, refl, ◌⊎◌, inl, inr, Bool, true, false, Bool-cases, Option, none,
  some, List, [], ◌∷◌, arith, ltb, ◌==◌, if◌then◌else◌,
}
use native.Mathlib.Decide.{dec_lt}
use toyblockchain.Platform.{Platform}
use toyblockchain.Block.Types.{Block}
use toyblockchain.Block.Mine.{
  fail_expired, fail_exhausted, MiningLimits, Expiry, WorkerState, polling, counting, counted,
  hashing, sending, stopping, returned, MainState, waiting, found, failed, Shared, Miner, Event,
  work, expire, propagate, receive, see_expired, see_workers_done, is_some, update, all_returned,
  is_returned, worker_step, take_result, main_step, is_waiting, step, run,
}
use toyblockchain.Block.Mine.Invariant.{IsExhausted, WorkerOk, ChannelOk, MainOk, Inv}
use toyblockchain.Block.Mine.Steps.{WorkOk, worker_step-ok, cause, with_shared, WorkerOk-cause}

all_returned-at :
    (n : ℕ) (worker : ℕ → WorkerState) (i : ℕ)
    → all_returned n worker ≡ true
    → i < n
    → worker i ≡ returned
unfolding all_returned
all_returned-at zero worker i h lt = absurd (omega arith)
all_returned-at (suc n) worker i h lt = elim (dec_lt i n) [
  | yes below ↦ all_returned-at n worker i (ground arith) below
  | no last ↦ let e : i ≡ n = omega arith in rw e (is_returned_lem (worker n) (ground arith))
]
  where
    is_returned_lem : (w : WorkerState) → is_returned w ≡ true → w ≡ returned
    is_returned_lem w h = ground arith

module _ (p : Platform) (b : Block) (limits : MiningLimits) (n : ℕ) (small : n < 2 ^ 64) where
  -- The workers and the cause after a change that takes no cause away.
  others_ok :
      (m m' : Miner)
      → Inv p b limits n m
      → (cause p b limits n m ≡ true → cause p b limits n m' ≡ true)
      → (i : ℕ) → i < n
      → WorkerOk p b limits n (cause p b limits n m') i (m.worker i)
  others_ok m m' inv grows i lt =
      WorkerOk-cause p b limits n (cause p b limits n m) (cause p b limits n m') i (m.worker i)
        grows (inv.workers_ok i lt)

  work-Inv :
      (m : Miner) (i : ℕ) → Inv p b limits n m → Inv p b limits n (step p b limits n (work i) m)
  unfolding step
  work-Inv m i inv = elim (Bool-cases (ltb i n)) [
    | inr out ↦ rw out inv
    | inl within ↦ rw within (
        after (worker_step p b limits n m.shared (m.worker i)) (
          worker_step-ok p b limits n small m inv i (ground arith) (m.worker i)
            (inv.workers_ok i (ground arith))))
  ]
    where
      after :
          (r : Shared × WorkerState)
          → WorkOk p b limits n m i r.0 r.1
          → Inv p b limits n (record m { shared = r.0; worker = update m.worker i r.1 })
      after r ok = record {
        workers_ok = λ j lt. elim (Bool-cases (i == j)) [
          | inl same ↦ let e : i ≡ j = ground arith in rw same (rw (← e) ok.here)
          | inr other ↦ rw other (others_ok m (with_shared p b limits n m r.0) inv ok.grows j lt)
        ];
        channel_ok = ok.channel;
        main_ok = inv.main_ok;
        cancelled_cause = ok.cancelled;
      }

  MainOk-expired : (c : Bool) (w : MainState) → MainOk p b limits n c w → MainOk p b limits n true w
  MainOk-expired c waiting v = tt
  MainOk-expired c (found k) v = v
  MainOk-expired c (failed e) v = λ h. inr refl

  expire-Inv :
      (m : Miner) (e : Expiry)
      → Inv p b limits n m
      → Inv p b limits n (step p b limits n (expire e) m)
  unfolding step
  expire-Inv m e inv = elim (Bool-cases (is_some m.expired)) [
    | inl done ↦ rw done inv
    | inr first ↦ rw first (record {
      workers_ok = others_ok m (record m { expired = some e }) inv (λ _. refl);
      channel_ok = inv.channel_ok;
      main_ok = MainOk-expired (is_some m.expired) m.main inv.main_ok;
      cancelled_cause = λ _. refl;
    })
  ]

  propagate-Inv :
      (m : Miner) → Inv p b limits n m → Inv p b limits n (step p b limits n propagate m)
  unfolding step
  propagate-Inv m inv = elim (Bool-cases (is_some m.expired)) [
    | inl done ↦ rw done (record {
      workers_ok = inv.workers_ok;
      channel_ok = inv.channel_ok;
      main_ok = inv.main_ok;
      cancelled_cause = λ _. ground arith;
    })
    | inr still ↦ rw still inv
  ]

  -- `Mine` returns: nothing of the workers' invariants is lost, since its return is a cause.
  finish-Inv :
      (m m' : Miner)
      → Inv p b limits n m
      → m'.worker ≡ m.worker
      → is_waiting p b limits n m'.main ≡ false
      → ChannelOk p b limits n m'.result_channel
      → MainOk p b limits n (is_some m'.expired) m'.main
      → Inv p b limits n m'
  finish-Inv m m' inv same out channel main = record {
    workers_ok = λ i lt. rw same (others_ok m m' inv (λ _. caused) i lt);
    channel_ok = channel;
    main_ok = main;
    cancelled_cause = λ _. caused;
  }
    where
      caused : cause p b limits n m' ≡ true
      caused = ground arith

  take_result-Inv :
      (o : Option ℕ) (m otherwise : Miner)
      → Inv p b limits n m
      → ChannelOk p b limits n o
      → (o ≡ none → Inv p b limits n otherwise)
      → Inv p b limits n (take_result p b limits n o m otherwise)
  unfolding take_result
  take_result-Inv none m otherwise inv ch other = other refl
  take_result-Inv (some k) m otherwise inv ch other = finish-Inv m _ inv refl refl tt ch

  fail_expired-Inv :
      (o : Option Expiry) (m : Miner)
      → o ≡ m.expired
      → Inv p b limits n m
      → Inv p b limits n (fail_expired p b limits n o m)
  unfolding fail_expired
  fail_expired-Inv none m e inv = inv
  fail_expired-Inv (some x) m e inv =
      finish-Inv m _ inv refl refl inv.channel_ok (λ h. inr (ground arith))

  -- With all workers back, no result and attempts to spare, an `ErrMaxNonce` is honest unless the
  -- caller's context is done.
  IsExhausted-all :
      (m : Miner)
      → Inv p b limits n m
      → is_waiting p b limits n m.main ≡ true
      → all_returned n m.worker ≡ true
      → m.result_channel ≡ none
      → m.maximum_attempts_reached ≡ false
      → ((i : ℕ) → i < n → IsExhausted p b limits n i) ⊎ (is_some m.expired ≡ true)
  IsExhausted-all m inv waits all empty spare = elim (Bool-cases (is_some m.expired)) [
    | inl done ↦ inr done
    | inr going ↦ inl λ i lt.
        back i (m.worker i) (inv.workers_ok i lt) (all_returned-at n m.worker i all lt)
          (ground arith)
  ]
    where
      back :
          (i : ℕ) (w : WorkerState)
          → WorkerOk p b limits n (cause p b limits n m) i w
          → w ≡ returned
          → cause p b limits n m ≡ false
          → IsExhausted p b limits n i
      back i returned (inl e) q h = e
      back i returned (inr c) q h = cc
      back i (polling k) v q h = cc
      back i (counting k) v q h = cc
      back i (counted k a) v q h = cc
      back i (hashing k) v q h = cc
      back i (sending k) v q h = cc
      back i stopping v q h = cc

  fail_exhausted-Inv :
      (m : Miner)
      → Inv p b limits n m
      → is_waiting p b limits n m.main ≡ true
      → all_returned n m.worker ≡ true
      → m.result_channel ≡ none
      → Inv p b limits n (fail_exhausted p b limits n m)
  fail_exhausted-Inv m inv waits all empty =
      finish-Inv m _ inv refl refl inv.channel_ok
        (λ h. IsExhausted-all m inv waits all empty (ground arith))

  main_step-Inv :
      (e : Event) (m : Miner)
      → is_waiting p b limits n m.main ≡ true
      → Inv p b limits n m
      → Inv p b limits n (main_step p b limits n e m)
  unfolding main_step
  main_step-Inv receive m waits inv =
      take_result-Inv m.result_channel m m inv inv.channel_ok (λ _. inv)
  main_step-Inv see_expired m waits inv = fail_expired-Inv m.expired m refl inv
  main_step-Inv see_workers_done m waits inv = elim (Bool-cases (all_returned n m.worker)) [
    | inl all ↦ rw all (
        take_result-Inv m.result_channel m (fail_exhausted p b limits n m) inv inv.channel_ok
          (λ empty. fail_exhausted-Inv m inv waits all empty))
    | inr not_all ↦ rw not_all inv
  ]
  main_step-Inv (work i) m waits inv = inv
  main_step-Inv (expire e) m waits inv = inv
  main_step-Inv propagate m waits inv = inv

  main_event-Inv :
      (e : Event) (m : Miner)
      → Inv p b limits n m
      → Inv p b limits n (if is_waiting p b limits n m.main then main_step p b limits n e m else m)
  main_event-Inv e m inv = elim (Bool-cases (is_waiting p b limits n m.main)) [
    | inl waits ↦ rw waits (main_step-Inv e m waits inv)
    | inr out ↦ rw out inv
  ]

  step-Inv : (e : Event) (m : Miner) → Inv p b limits n m → Inv p b limits n (step p b limits n e m)
  unfolding step
  step-Inv (work i) m inv = work-Inv m i inv
  step-Inv (expire e) m inv = expire-Inv m e inv
  step-Inv propagate m inv = propagate-Inv m inv
  step-Inv receive m inv = main_event-Inv receive m inv
  step-Inv see_expired m inv = main_event-Inv see_expired m inv
  step-Inv see_workers_done m inv = main_event-Inv see_workers_done m inv

  -- Every run keeps the invariant.
  pub run-Inv :
      (es : List Event) (m : Miner) → Inv p b limits n m → Inv p b limits n (run p b limits n es m)
  unfolding run
  run-Inv [] m inv = inv
  run-Inv (e ∷ es) m inv = run-Inv es (step p b limits n e m) (step-Inv e m inv)
