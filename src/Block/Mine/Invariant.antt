-- ===== src/Block/Mine/Invariant.antt =====
-- What holds in every state of a mining run.
use toyblockchain.Prelude.{
  ℕ, ◌+◌, ◌*◌, ◌^◌, ◌<◌, ◌≡◌, ◌⊎◌, Bool, true, false, not, ◌||◌, Option, none, some, arith,
}
use toyblockchain.Platform.{Platform}
use toyblockchain.Block.Types.{Block}
use toyblockchain.Block.Mine.{
  MiningLimits, max_nonce_reached, WorkerState, polling, counting, counted, hashing, sending,
  stopping, returned, MainState, waiting, found, failed, Miner, is_some, is_hit, is_past_maximum,
  is_waiting, start,
}

module _ (p : Platform) (b : Block) (limits : MiningLimits) (n : ℕ) where
  -- A nonce that `Mine` may try.
  abbrev pub IsInRange : ℕ → Type 0
  IsInRange k = (k < 2 ^ 64) × (is_past_maximum p b limits n k ≡ false)

  -- Every nonce of worker i below k misses.
  abbrev pub Swept : ℕ → ℕ → Type 0
  Swept i k = (j : ℕ) → i + j * n < k → is_hit p b limits n (i + j * n) ≡ false

  -- Worker i is at a nonce of its own, which no wrap-around has changed, and has missed all below.
  abbrev pub At : ℕ → ℕ → Type 0
  At i k = ((j : ℕ) × (k ≡ i + j * n)) × (k < 2 ^ 64) × Swept i k

  -- Every nonce of worker i that may be tried misses.
  abbrev pub IsExhausted : ℕ → Type 0
  IsExhausted i = (j : ℕ) → IsInRange (i + j * n) → is_hit p b limits n (i + j * n) ≡ false

  -- A reason to stop early: the caller's context is done, the attempts are used up, a result is on its
  -- way, or `Mine` has returned.
  abbrev pub has_cause : Miner → Bool
  has_cause m =
      is_some m.expired
      || m.maximum_attempts_reached
      || is_some m.result_channel
      || not (is_waiting p b limits n m.main)

  abbrev pub WorkerOk : Bool → ℕ → WorkerState → Type 0
  WorkerOk cause i (polling k) = At i k
  WorkerOk cause i (counting k) = At i k
  WorkerOk cause i (counted k _) = At i k × (is_past_maximum p b limits n k ≡ false)
  WorkerOk cause i (hashing k) = At i k × (is_past_maximum p b limits n k ≡ false)
  WorkerOk cause i (sending k) =
      At i k × (is_past_maximum p b limits n k ≡ false) × (is_hit p b limits n k ≡ true)
  WorkerOk cause i stopping = cause ≡ true
  WorkerOk cause i returned = IsExhausted i ⊎ (cause ≡ true)

  -- A nonce that was found is a hit in range, and the first one of its worker.
  abbrev pub IsFound : ℕ → Type 0
  IsFound k =
      (i : ℕ) × (i < n)
      × At i k
      × (is_past_maximum p b limits n k ≡ false)
      × (is_hit p b limits n k ≡ true)

  abbrev pub ChannelOk : Option ℕ → Type 0
  ChannelOk none = Unit
  ChannelOk (some k) = IsFound k

  abbrev pub MainOk : Bool → MainState → Type 0
  MainOk expired waiting = Unit
  MainOk expired (found k) = IsFound k
  MainOk expired (failed e) =
      e ≡ max_nonce_reached → ((i : ℕ) → i < n → IsExhausted i) ⊎ (expired ≡ true)

  pub record Inv (m : Miner) : Type 0 where
    pub workers_ok : (i : ℕ) → i < n → WorkerOk (has_cause m) i (m.worker i)
    pub channel_ok : ChannelOk m.result_channel
    pub main_ok : MainOk (is_some m.expired) m.main
    pub cancelled_cause : m.cancelled ≡ true → has_cause m ≡ true

  pub start-Inv : n < 2 ^ 64 → Inv (start p b limits n)
  start-Inv small = record {
    workers_ok = λ i lt. ((0, omega arith), omega arith, λ j below. absurd (omega arith));
    channel_ok = tt;
    main_ok = tt;
    cancelled_cause = λ e. cc;
  }
