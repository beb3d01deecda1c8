-- ===== src/Block/Mine/Outcomes.antt =====
-- What the results of `Mine` mean.
use toyblockchain.Prelude.{
  ◌∙◌, ℕ, ◌+◌, ◌*◌, ◌/◌, ◌%◌, ◌^◌, ◌<◌, ◌≡◌, ◌≢◌, refl, ◌⊎◌, inl, inr, true, false, ◌||◌,
  Bool-cases, some, List, [], ◌∷◌, arith, Result, ok, err, All,
}
use toyblockchain.Prelude.Int.{pos, ltb_ℤ}
use native.Mathlib.Decide.{dec_lt}
use toyblockchain.Platform.{Platform}
use toyblockchain.Block.Types.{Block}
use toyblockchain.Block.Hash.{compute_hash, meets_difficulty}
use toyblockchain.Block.Mine.{
  invalid_difficulty, MiningLimits, MiningError, max_nonce_reached, MainState, waiting, found,
  failed, Miner, Event, expire, is_some, is_hit, take_result, main_step, step, start, run, outcome,
  mine, candidate_hash, fail_expired,
}
use toyblockchain.Block.Mine.Invariant.{IsInRange, IsExhausted, IsFound, MainOk, Inv, start-Inv}
use toyblockchain.Block.Mine.Runs.{run-Inv}

-- A schedule in which the caller's context lasts.
abbrev pub IsCalm : Event → Type 0
IsCalm (expire _) = ⊥
IsCalm _ = Unit

abbrev pub IsUninterrupted : List Event → Type 0
IsUninterrupted = All IsCalm

module _ (p : Platform) (b : Block) (limits : MiningLimits) (n : ℕ) (small : n < 2 ^ 64) where
  final-Inv : (es : List Event) → Inv p b limits n (run p b limits n es (start p b limits n))
  final-Inv es = run-Inv p b limits n small es _ (start-Inv p b limits n small)

  -- A block that `Mine` returns differs from the given one in its nonce and hash only.
  outcome-ok :
      (w : MainState) {b' : Block}
      → outcome p b limits n w ≡ some (ok b')
      → (k : ℕ) × (w ≡ found k)
        × (b' ≡ record b { nonce = k; hash = candidate_hash p b limits n k })
  unfolding outcome
  outcome-ok waiting e = cc
  outcome-ok (found k) e = (k, refl, cc)
  outcome-ok (failed x) e = cc

  mine-outcome :
      (es : List Event) {r : Result MiningError Block}
      → mine p b limits n es ≡ some r
      → r ≢ err (invalid_difficulty b.difficulty)
      → outcome p b limits n (run p b limits n es (start p b limits n)).main ≡ some r
  unfolding mine
  mine-outcome es e valid =
      elim (Bool-cases (ltb_ℤ b.difficulty (pos 0) || ltb_ℤ (pos 64) b.difficulty)) [
        | inl bad ↦ absurd (valid (ground arith))
        | inr good ↦ ground arith
      ]

  outcome-err :
      (w : MainState) {x : MiningError} → outcome p b limits n w ≡ some (err x) → w ≡ failed x
  unfolding outcome
  outcome-err waiting e = cc
  outcome-err (found k) e = cc
  outcome-err (failed x) e = cc

  found_lem : (m : Miner) (k : ℕ) → Inv p b limits n m → m.main ≡ found k → IsFound p b limits n k
  found_lem m k inv e = go m.main inv.main_ok e
    where
      go :
          (w : MainState)
          → MainOk p b limits n (is_some m.expired) w
          → w ≡ found k
          → IsFound p b limits n k
      go waiting v q = cc
      go (found j) v q = let same : j ≡ k = cc in rw (← same) v
      go (failed x) v q = cc

  exhausted_lem :
      (m : Miner)
      → Inv p b limits n m
      → m.main ≡ failed max_nonce_reached
      → ((i : ℕ) → i < n → IsExhausted p b limits n i) ⊎ (is_some m.expired ≡ true)
  exhausted_lem m inv e = go m.main inv.main_ok e
    where
      go :
          (w : MainState)
          → MainOk p b limits n (is_some m.expired) w
          → w ≡ failed max_nonce_reached
          → ((i : ℕ) → i < n → IsExhausted p b limits n i) ⊎ (is_some m.expired ≡ true)
      go waiting v q = cc
      go (found j) v q = cc
      go (failed x) v q = v (cc)

  -- Only `expire` ends the caller's context.
  step-expired : (e : Event) (m : Miner) → IsCalm e → (step p b limits n e m).expired ≡ m.expired
  unfolding step main_step take_result fail_expired
  step-expired (expire x) m h = absurd h
  step-expired e m h = ground arith

  run-expired :
      (es : List Event) (m : Miner)
      → IsUninterrupted es
      → (run p b limits n es m).expired ≡ m.expired
  unfolding run
  run-expired [] m h = refl
  run-expired (e ∷ es) m h = run-expired es (step p b limits n e m) h.1 ∙ step-expired e m h.0

  -- Whatever the schedule, a block that `Mine` returns carries the hash of its own header, meets its
  -- difficulty with a nonce that the limits allow, and is otherwise the block that was given.
  pub mine_sound :
      (es : List Event) (b' : Block)
      → mine p b limits n es ≡ some (ok b')
      → (b'.hash ≡ compute_hash p b')
        × (meets_difficulty b'.hash b'.difficulty ≡ true)
        × IsInRange p b limits n b'.nonce
        × (b' ≡ record b { nonce = b'.nonce; hash = b'.hash })
  mine_sound es b' e =
      let (k, at, same) = outcome-ok _ (mine-outcome es e (λ q. cc)) in
      let (i, lt, a, within, hit) = found_lem _ k (final-Inv es) at in
      rw same (unfold compute_hash in refl, hit, (a.1, within), refl)

  -- If `Mine` reports that the greatest nonce was reached, and the caller's context lasted, then no
  -- nonce that the limits allow meets the difficulty.
  pub mine_exhaustive :
      (es : List Event) (k : ℕ)
      → 0 < n
      → IsUninterrupted es
      → mine p b limits n es ≡ some (err max_nonce_reached)
      → IsInRange p b limits n k
      → is_hit p b limits n k ≡ false
  mine_exhaustive es k positive calm e r =
      go (exhausted_lem _ (final-Inv es) (outcome-err _ (mine-outcome es e (λ q. cc))))
    where
      go :
          ((i : ℕ) → i < n → IsExhausted p b limits n i)
            ⊎ (is_some (run p b limits n es (start p b limits n)).expired ≡ true)
          → is_hit p b limits n k ≡ false
      go (inl all) =
          let e : k ≡ k % n + k / n * n = grind arith in
          rw e (all (k % n) (grind arith) (k / n) (rw (← e) r))
      go (inr late) = cc (run-expired es (start p b limits n) calm)

  IsFound-first : (k j : ℕ) → n ≡ 1 → IsFound p b limits n k → j < k → is_hit p b limits n j ≡ false
  IsFound-first k j one (i, lt, a, within, hit) below =
      let at : j ≡ i + j * n = rw one (omega arith) in rw at (a.2 j (rw (← at) below))

  IsFound-unique : (k l : ℕ) → n ≡ 1 → IsFound p b limits n k → IsFound p b limits n l → k ≡ l
  IsFound-unique k l one fk fl = elim (dec_lt k l) [
    | yes less ↦ cc (IsFound-first l k one fl less, fk.4)
    | no not_less ↦ elim (dec_lt l k) [
      | yes more ↦ cc (IsFound-first k l one fk more, fl.4)
      | no not_more ↦ omega arith
    ]
  ]

  -- With one worker the nonce that `Mine` finds is the least that meets the difficulty, so two runs
  -- that succeed return the same block.
  pub mine_first :
      (es fs : List Event) (b' c' : Block)
      → n ≡ 1
      → mine p b limits n es ≡ some (ok b')
      → mine p b limits n fs ≡ some (ok c')
      → ((k : ℕ) → k < b'.nonce → is_hit p b limits n k ≡ false) × (b' ≡ c')
  mine_first es fs b' c' one e f =
      let (k, at, same) = outcome-ok _ (mine-outcome es e (λ q. cc)) in
      let (l, at', same') = outcome-ok _ (mine-outcome fs f (λ q. cc)) in
      let found_k = found_lem _ k (final-Inv es) at in
      let found_l = found_lem _ l (final-Inv fs) at' in
      let same_nonce : k ≡ l = IsFound-unique k l one found_k found_l in
      (rw same (λ j below. IsFound-first k j one found_k below), cc (same, same', same_nonce))
