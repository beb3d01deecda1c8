-- ===== src/Chain/Growth/Policy.antt =====
-- Changing the rules of a chain in use (`SetDifficulty` of chain/chain.go, `ConfigureRetarget` of
-- chain/retarget.go).
use toyblockchain.Prelude.{
  zero, Option, ℕ, suc, ◌+◌, ◌^◌, ◌<◌, ◌≡◌, ◌≢◌, refl, ap, sym, ◌∙◌, none, List, [], ◌∷◌, length,
  ok, fail_if, wrap_err, wrap_err-ok, >>=-eq-ok, arith,
}
use mathlib.Core.Path.{subst}
use toyblockchain.Prelude.Int.{ℤ, pos}
use toyblockchain.Prelude.Int64.{IsInt64, add64, add64_nonneg}
use toyblockchain.Platform.{Platform}
use toyblockchain.Block.Types.{Block}
use toyblockchain.Chain.Types.{
  Chain, DifficultyRule, RetargetConfig, difficulty_out_of_range, retarget_too_late, invalid_config,
  latest,
}
use toyblockchain.Chain.Retarget.{
  validate_config, is_out_of_range, is_past_genesis, configure_retarget,
}
use toyblockchain.Chain.Difficulty.{set_rule, set_difficulty, expected_difficulty, walk_heights}
use toyblockchain.Chain.Difficulty.Early.{expected_difficulty-set_rule}
use toyblockchain.Chain.Validation.Exact.{IsValid}
use toyblockchain.Chain.Growth.Blocks.{
  IsBefore, last_option, last_option-last_block, AreValid-last, AreValid-agree,
}
use toyblockchain.Chain.Growth.Live.{IsLive}

set_rule-ne-nil : (h d : ℤ) (rules : List DifficultyRule) → set_rule h d rules ≢ []
unfolding set_rule
set_rule-ne-nil h d [] e = cc
set_rule-ne-nil h d (r ∷ rules) e = ground arith

genesis-length :
    (bs : List Block) {u : Unit {0}}
    → fail_if (is_past_genesis bs) retarget_too_late ≡ ok u
    → length bs ≡ 1
genesis-length [] e = cc
genesis-length (b ∷ []) e = refl
genesis-length (b ∷ d ∷ bs) e = cc

expected_difficulty-genesis :
    (c : Chain) (config : RetargetConfig) (n : ℕ)
    → n < 1
    → expected_difficulty (record c { retarget = config }) (pos n) ≡ expected_difficulty c (pos n)
unfolding expected_difficulty walk_heights
expected_difficulty-genesis c config zero h = refl
expected_difficulty-genesis c config (suc n) h = absurd (omega arith)

module _ (p : Platform) where
  -- Other rules that leave the difficulty of every block as it was.
  regulated-IsLive :
      (c : Chain) (rules : List DifficultyRule) (config : RetargetConfig)
      → let c' = record c { difficulty_schedule = rules; retarget = config } in
        IsLive p c
        → rules ≢ []
        → validate_config config ≡ ok tt
        → IsInt64 config.interval
        → length c.blocks < 2 ^ 63
        → ((n : ℕ)
            → n < length c.blocks
            → expected_difficulty c' (pos n) ≡ expected_difficulty c (pos n))
        → IsLive p c'
  regulated-IsLive c rules config live some_rules valid interval small agree =
      let c' : Chain = record c { difficulty_schedule = rules; retarget = config } in
      record {
        valid = record {
          has_blocks = live.valid.has_blocks;
          has_rules = some_rules;
          config = valid;
          blocks =
              AreValid-agree p c c' none c.blocks 0 (λ n h. agree n (omega arith)) live.valid.blocks
                refl (omega arith);
          final = live.valid.final;
          replayed = live.valid.replayed;
        };
        pooled = live.pooled;
        replayable = live.replayable;
        interval = interval;
      }

  -- The height of the next block is the number of blocks.
  pub next_height :
      (c : Chain) (b : Block)
      → IsValid p c
      → length c.blocks < 2 ^ 63
      → latest c ≡ ok b
      → add64 b.height (pos 1) ≡ pos (length c.blocks)
  next_height c b valid small at =
      let end = last_option-last_block c.blocks b at in
      let n = length c.blocks in
      let from_zero : n ≡ 0 + n = omega arith in
      let last : IsBefore (last_option none c.blocks) n =
        rw from_zero (AreValid-last p c none c.blocks 0 valid.blocks refl (omega arith)) in
      let (m, next, height) = subst (λ (o : Option Block). IsBefore o n) end last in
      let sum : add64 (pos m) (pos 1) ≡ pos (m + 1) =
        add64_nonneg (pos m) (pos 1) refl refl (omega arith) in
      let same : m + 1 ≡ n = omega arith in
      ap (λ (h : ℤ). add64 h (pos 1)) height ∙ (sum ∙ ap pos same)

  -- Where `SetDifficulty` succeeds on a chain in use of less than 2^63 blocks, the chain is still in
  -- use: the blocks that it has are as valid as before.
  pub set_difficulty-IsLive :
      (c c' : Chain) (d : ℤ)
      → IsLive p c
      → length c.blocks < 2 ^ 63
      → set_difficulty c d ≡ ok c'
      → IsLive p c'
  unfolding set_difficulty
  set_difficulty-IsLive c c' d live small e =
      let (u, range, e1) = >>=-eq-ok (fail_if (is_out_of_range d) difficulty_out_of_range) _ e in
      let (b, found, e2) = >>=-eq-ok (latest c) _ e1 in
      let height = next_height c b live.valid small found in
      let rules = set_rule (pos (length c.blocks)) d c.difficulty_schedule in
      let same : record c {
        difficulty_schedule = set_rule (add64 b.height (pos 1)) d c.difficulty_schedule;
      }
          ≡ c' =
        cc e2 in
      let same' : record c { difficulty_schedule = rules } ≡ c' =
        ap (λ (h : ℤ). record c { difficulty_schedule = set_rule h d c.difficulty_schedule })
          (sym height)
        ∙ same in
      rw (sym same') (
        regulated-IsLive c rules c.retarget live (set_rule-ne-nil _ d c.difficulty_schedule)
          live.valid.config live.interval small
          (λ n h. expected_difficulty-set_rule c (length c.blocks) d n h))

  -- Where `ConfigureRetarget` succeeds on a chain in use, with an interval that is an `int`, the chain
  -- is still in use.
  pub configure_retarget-IsLive :
      (c c' : Chain) (config : RetargetConfig)
      → IsLive p c
      → IsInt64 config.interval
      → configure_retarget c config ≡ ok c'
      → IsLive p c'
  unfolding configure_retarget
  configure_retarget-IsLive c c' config live interval e =
      let (u, early, e1) = >>=-eq-ok (fail_if (is_past_genesis c.blocks) retarget_too_late) _ e in
      let (v, passed, e2) = >>=-eq-ok (wrap_err invalid_config (validate_config config)) _ e1 in
      let same : record c { retarget = config } ≡ c' = cc e2 in
      let one = genesis-length c.blocks early in
      rw (sym same) (
        regulated-IsLive c c.difficulty_schedule config live live.valid.has_rules
          (wrap_err-ok invalid_config (validate_config config) passed) interval (omega arith)
          (λ n h. expected_difficulty-genesis c config n (omega arith)))
