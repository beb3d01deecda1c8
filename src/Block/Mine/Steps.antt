-- ===== src/Block/Mine/Steps.antt =====
-- Every event of a mining run keeps the invariant.
use toyblockchain.Prelude.{
  ℕ, suc, ◌+◌, ◌*◌, ◌^◌, ◌≤◌, ◌<◌, ◌≡◌, refl, ◌⊎◌, inl, inr, Bool, true, false, Bool-cases, Option,
  none, some, arith, if◌then◌else◌,
}
use native.Mathlib.Decide.{dec_lt}
use toyblockchain.Platform.{Platform}
use toyblockchain.Block.Types.{Block}
use toyblockchain.Block.Mine.{
  send_result, MiningLimits, WorkerState, polling, counting, counted, hashing, sending, stopping,
  returned, Shared, Miner, is_some, is_hit, is_past_maximum, is_past_attempts, would_overflow,
  worker_step,
}
use toyblockchain.Block.Mine.Invariant.{Swept, At, IsExhausted, has_cause, WorkerOk, ChannelOk, Inv}

module _ (p : Platform) (b : Block) (limits : MiningLimits) (n : ℕ) where
  abbrev hit : ℕ → Bool
  hit = is_hit p b limits n

  pub WorkerOk-cause :
      (c d : Bool) (i : ℕ) (w : WorkerState)
      → (c ≡ true → d ≡ true)
      → WorkerOk p b limits n c i w
      → WorkerOk p b limits n d i w
  WorkerOk-cause c d i (polling k) h v = v
  WorkerOk-cause c d i (counting k) h v = v
  WorkerOk-cause c d i (counted k a) h v = v
  WorkerOk-cause c d i (hashing k) h v = v
  WorkerOk-cause c d i (sending k) h v = v
  WorkerOk-cause c d i stopping h v = h v
  WorkerOk-cause c d i returned h (inl e) = inl e
  WorkerOk-cause c d i returned h (inr e) = inr (h e)

  le-mul_next : (j k : ℕ) → j < k → j * n + n ≤ k * n
  le-mul_next j k h = grind arith

  -- Of the nonces of one worker, those below the next are those below this one and this one.
  below_next :
      (i j k : ℕ) → i + j * n < i + k * n + n → (i + j * n < i + k * n) ⊎ (i + j * n ≡ i + k * n)
  below_next i j k h = elim (dec_lt j k) [
    | yes less ↦ inl (grind (arith, le-mul_next j k less))
    | no not_less ↦ elim (dec_lt k j) [
      | yes more ↦ absurd (grind (arith, le-mul_next k j more))
      | no not_more ↦ inr (let e : j ≡ k = omega arith in rw e)
    ]
  ]

  Swept-next :
      (i j k : ℕ)
      → k ≡ i + j * n
      → Swept p b limits n i k
      → hit k ≡ false
      → Swept p b limits n i (k + n)
  Swept-next i j k e swept miss j' below = elim (below_next i j' j (omega (arith, e))) [
    | inl before ↦ swept j' (omega (arith, e))
    | inr same ↦ rw (same, ← e) miss
  ]

  -- The state after the shared part has become `s`.
  abbrev pub with_shared : Miner → Shared → Miner
  with_shared m s = record m { shared = s }

  abbrev pub cause : Miner → Bool
  cause = has_cause p b limits n

  -- What a step of worker i must keep.
  pub record WorkOk (m : Miner) (i : ℕ) (s : Shared) (w : WorkerState) : Type 0 where
    pub grows : cause m ≡ true → cause (with_shared m s) ≡ true
    pub here : WorkerOk p b limits n (cause (with_shared m s)) i w
    pub channel : ChannelOk p b limits n s.result_channel
    pub cancelled : s.cancelled ≡ true → cause (with_shared m s) ≡ true

  IsExhausted-past :
      (i k : ℕ)
      → At p b limits n i k
      → is_past_maximum p b limits n k ≡ true
      → IsExhausted p b limits n i
  IsExhausted-past i k a past j r = a.2 j (ground arith)

  IsExhausted-overflow :
      (i k : ℕ)
      → n < 2 ^ 64
      → At p b limits n i k
      → hit k ≡ false
      → would_overflow p b limits n k ≡ true
      → IsExhausted p b limits n i
  IsExhausted-overflow i k small a miss over j r =
      Swept-next i a.0.0 k a.0.1 a.2 miss j (ground arith)

  module _ (small : n < 2 ^ 64) (m : Miner) (inv : Inv p b limits n m) (i : ℕ) (lt : i < n) where
    -- A step that leaves the shared state alone.
    still : (w : WorkerState) → WorkerOk p b limits n (cause m) i w → WorkOk m i m.shared w
    still w v = record {
      grows = λ e. e;
      here = v;
      channel = inv.channel_ok;
      cancelled = inv.cancelled_cause;
    }

    worker_step-polling :
        (k : ℕ)
        → At p b limits n i k
        → let (s, w) = worker_step p b limits n m.shared (polling k) in WorkOk m i s w
    unfolding worker_step
    worker_step-polling k a = go m.cancelled inv.cancelled_cause
      where
        go :
            (c : Bool)
            → (c ≡ true → cause m ≡ true)
            → WorkOk m i m.shared (if c then returned else counting k)
        go true h = still returned (inr (h refl))
        go false h = still (counting k) a

    worker_step-counting :
        (k : ℕ)
        → At p b limits n i k
        → let (s, w) = worker_step p b limits n m.shared (counting k) in WorkOk m i s w
    unfolding worker_step
    worker_step-counting k a = elim (Bool-cases (is_past_maximum p b limits n k)) [
      | inl past ↦ rw past (still returned (inl (IsExhausted-past i k a past)))
      | inr within ↦ rw within (record {
        grows = λ e. e;
        here = (a, within);
        channel = inv.channel_ok;
        cancelled = inv.cancelled_cause;
      })
    ]

    worker_step-counted :
        (k c : ℕ)
        → WorkerOk p b limits n (cause m) i (counted k c)
        → let (s, w) = worker_step p b limits n m.shared (counted k c) in WorkOk m i s w
    unfolding worker_step
    worker_step-counted k c v = elim (Bool-cases (is_past_attempts p b limits n c)) [
      | inl past ↦ rw past (record {
        grows = λ e. ground arith;
        here = ground arith;
        channel = inv.channel_ok;
        cancelled = λ e. ground arith;
      })
      | inr within ↦ rw within (still (hashing k) v)
    ]

    worker_step-hashing :
        (k : ℕ)
        → WorkerOk p b limits n (cause m) i (hashing k)
        → let (s, w) = worker_step p b limits n m.shared (hashing k) in WorkOk m i s w
    unfolding worker_step
    worker_step-hashing k v = elim (Bool-cases (hit k)) [
      | inl hits ↦ rw hits (still (sending k) (v.0, v.1, hits))
      | inr miss ↦ elim (Bool-cases (would_overflow p b limits n k)) [
        | inl over ↦
            rw (miss, over) (still returned (inl (IsExhausted-overflow i k small v.0 miss over)))
        | inr room ↦
            rw (miss, room)
              (still (polling (k + n)) (
                (suc v.0.0.0, omega (arith, v.0.0.1)),
                ground arith,
                Swept-next i v.0.0.0 k v.0.0.1 v.0.2 miss,
              ))
      ]
    ]

    worker_step-sending :
        (k : ℕ)
        → WorkerOk p b limits n (cause m) i (sending k)
        → let (s, w) = worker_step p b limits n m.shared (sending k) in WorkOk m i s w
    unfolding worker_step
    worker_step-sending k v = go m.result_channel (λ e. ground arith)
      where
        go :
            (o : Option ℕ)
            → (is_some o ≡ true → cause m ≡ true)
            → let (s, w) = send_result p b limits n k m.shared o in WorkOk m i s w
        go none h = record {
          grows = λ e. ground arith;
          here = ground arith;
          channel = (i, lt, v.0, v.1, v.2);
          cancelled = λ e. ground arith;
        }
        go (some r) h = still returned (inr (h refl))

    worker_step-stopping :
        cause m ≡ true → let (s, w) = worker_step p b limits n m.shared stopping in WorkOk m i s w
    unfolding worker_step
    worker_step-stopping v = record {
      grows = λ e. e;
      here = inr v;
      channel = inv.channel_ok;
      cancelled = λ e. v;
    }

    pub worker_step-ok :
        (w : WorkerState)
        → WorkerOk p b limits n (cause m) i w
        → let (s, w') = worker_step p b limits n m.shared w in WorkOk m i s w'
    worker_step-ok (polling k) v = worker_step-polling k v
    worker_step-ok (counting k) v = worker_step-counting k v
    worker_step-ok (counted k c) v = worker_step-counted k c v
    worker_step-ok (hashing k) v = worker_step-hashing k v
    worker_step-ok (sending k) v = worker_step-sending k v
    worker_step-ok stopping v = worker_step-stopping v
    worker_step-ok returned v = unfold worker_step in still returned v
