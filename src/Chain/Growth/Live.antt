-- ===== src/Chain/Growth/Live.antt =====
-- Chains in use (chain/chain.go): `NewWithRetarget` makes them, and `AddTransaction` and `MineBlock`
-- keep them valid.
use toyblockchain.Prelude.{
  ap, is_empty-snoc, is_empty_iff, take-append-drop, arith, drop, ◌≤◌, ℕ, ◌^◌, ◌<◌, ◌+◌, length,
  some, List, wrap_err-ok, ◌>>◌, wrap_err, ◌≡◌, refl, ◌∙◌, sym, none, [], ◌∷◌, ◌++◌, ok, >>-ok_iff,
}
use toyblockchain.Prelude.Int64.{IsInt64}
use toyblockchain.Prelude.Int.{ℤ, pos, ◌≤ℤ◌}
use toyblockchain.Chain.Growth.Mined.{Mined, mine_block-Mined}
use toyblockchain.Block.Mine.{MiningLimits, Event, worker_count}
use toyblockchain.Chain.Difficulty.{expected_difficulty}
use toyblockchain.Chain.Growth.Blocks.{
  IsBefore, last_option, AreValid-last, AreValid-agree, AreValid-append, IsLinked-height,
}
use toyblockchain.Chain.Growth.Pool.{apply_pool-split}
use toyblockchain.Platform.{Platform}
use toyblockchain.Block.Types.{Block, Transaction}
use toyblockchain.Ledger.{new, replay, rebuild, validate_transaction, Ledger, transfer}
use toyblockchain.Chain.Types.{last_block, rejected, Chain}
use toyblockchain.Chain.Difficulty.Stable.{
  expected_difficulty-append, longer, IsUsable, expected_difficulty-pending,
}
use toyblockchain.Chain.Methods.{mine_block, add_transaction, chain_ledger, apply_pool}
use toyblockchain.Chain.Validation.Exact.{AreValid, IsValidBlock, validate_config_iff, IsValid}
use toyblockchain.Chain.Growth.Blocks.{
  last_option-last_block, replay_step, replay-append, AreValid-alike,
}
use toyblockchain.Chain.Growth.Pool.{apply_pool-apply_from, apply_pool-snoc}

module _ (p : Platform) where
  -- A chain in use: valid, with a pending pool that can be replayed on its ledger.
  pub record IsLive (c : Chain) : Type 0 where
    pub valid : IsValid p c
    pub pooled : Ledger
    pub replayable : apply_pool p c.pending valid.final ≡ ok pooled
    pub interval : IsInt64 c.retarget.interval

  -- Where `AddTransaction` succeeds on a chain in use, the chain has the transaction at the end of
  -- its pool, all else is as before, and the chain is in use: the pool can still be replayed.
  pub add_transaction-IsLive :
      (c c' : Chain) (tx : Transaction)
      → IsLive c
      → add_transaction p c tx ≡ ok c'
      → IsLive c' × (c' ≡ record c { pending = c.pending ++ tx ∷ [] })
  unfolding add_transaction chain_ledger
  add_transaction-IsLive c c' tx live e =
      let grown : Chain = record c { pending = c.pending ++ tx ∷ [] } in
      let run : add_transaction p c tx
          ≡ (wrap_err rejected (validate_transaction p live.pooled tx) >> ok grown) =
        rw (live.valid.replayed, live.replayable) refl in
      let (passed, done) =
        (>>-ok_iff (wrap_err rejected (validate_transaction p live.pooled tx)) (ok grown) c').0
          (sym run ∙ e) in
      let accepted = wrap_err-ok rejected (validate_transaction p live.pooled tx) passed in
      let same : grown ≡ c' = cc done in
      rw (sym same) (
        record {
          valid = record {
            has_blocks = live.valid.has_blocks;
            has_rules = live.valid.has_rules;
            config = live.valid.config;
            blocks =
                AreValid-alike p c grown none c.blocks (expected_difficulty-pending c grown.pending)
                  live.valid.blocks;
            final = live.valid.final;
            replayed = live.valid.replayed;
          };
          pooled = transfer live.pooled tx;
          replayable =
              apply_pool-snoc p c.pending tx live.valid.final live.pooled live.replayable accepted;
          interval = live.interval;
        },
        refl,
      )

  Mined-IsValidBlock :
      (c c' : Chain) (clock : ℤ) (b : Block) (previous : Block)
      → Mined p c c' clock b
      → last_block c.blocks ≡ ok previous
      → previous.timestamp ≤ℤ clock
      → IsValidBlock p c (some previous) b
  Mined-IsValidBlock c c' clock b previous mined last early =
      let same : mined.previous ≡ previous = cc (mined.last, last) in
      record {
        target = mined.target;
        sealed = mined.sealed;
        linked =
            (mined.height ∙ rw same refl, rw mined.timestamp early, mined.prev_hash ∙ rw same refl);
      }

  usable : (c : Chain) → IsValid p c → IsInt64 c.retarget.interval → IsUsable c.retarget
  usable c valid interval = (((validate_config_iff c.retarget).0 valid.config).0, interval)

  -- the blocks of the grown chain
  grown-AreValid :
      (c : Chain) (b : Block) (txs : List Transaction) (previous : Block)
      → IsValid p c
      → IsValidBlock p c (some previous) b
      → last_block c.blocks ≡ ok previous
      → IsInt64 c.retarget.interval
      → length c.blocks + 1 < 2 ^ 63
      → AreValid p (longer c (b ∷ []) txs) none (c.blocks ++ b ∷ [])
  grown-AreValid c b txs previous valid next last interval small =
      let grown : Chain = longer c (b ∷ []) txs in
      let at_end = last_option-last_block c.blocks previous last in
      let agree : (k : ℕ)
          → k ≤ length c.blocks
          → expected_difficulty grown (pos k) ≡ expected_difficulty c (pos k) =
        λ k. expected_difficulty-append c (b ∷ []) txs k (usable c valid interval) (omega arith) in
      let n = length c.blocks in
      let from_zero : n ≡ 0 + n = omega arith in
      let before : IsBefore (last_option none c.blocks) n =
        rw from_zero (AreValid-last p c none c.blocks 0 valid.blocks refl (omega arith)) in
      let height : b.height ≡ pos n =
        IsLinked-height (last_option none c.blocks) b n (rw at_end next.linked) before
          (omega arith) in
      AreValid-append p grown none c.blocks b
        (AreValid-agree p c grown none c.blocks 0 (λ k h. agree k (omega arith)) valid.blocks refl
          (omega arith))
        (rw at_end (record {
          target =
              ap (expected_difficulty grown) height
              ∙ (agree n (omega arith) ∙ (sym (ap (expected_difficulty c) height) ∙ next.target));
          sealed = next.sealed;
          linked = next.linked;
        }))

  grown-replayed :
      (c : Chain) (b : Block) (l m : Ledger)
      → rebuild p c.blocks ≡ ok l
      → apply_pool p b.transactions l ≡ ok m
      → rebuild p (c.blocks ++ b ∷ []) ≡ ok m
  unfolding rebuild replay
  grown-replayed c b l m e f =
      replay-append p c.blocks (b ∷ []) new l e
      ∙ replay_step p b [] l m (apply_pool-apply_from p b.height 0 b.transactions l m f)

  -- Where `MineBlock` succeeds on a chain in use, shorter than 2^63 - 1 blocks, at a time not before
  -- that of its last block and with a worker count that fits 64 bits, the chain has one block more and
  -- is in use: `Validate` accepts it, and what is left of its pool, whose front is in the new block,
  -- can be replayed.
  pub mine_block-IsLive :
      (c c' : Chain) (clock : ℤ) (limits : MiningLimits) (cpus : ℤ) (events : List Event)
      (b previous : Block)
      → IsLive c
      → last_block c.blocks ≡ ok previous
      → previous.timestamp ≤ℤ clock
      → length c.blocks + 1 < 2 ^ 63
      → worker_count limits cpus < 2 ^ 64
      → mine_block p c clock limits cpus events ≡ some (ok (c', b))
      → IsLive c' × (c'.blocks ≡ c.blocks ++ b ∷ []) × (c.pending ≡ b.transactions ++ c'.pending)
  mine_block-IsLive c c' clock limits cpus events b previous live last early small few e =
      let mined = mine_block-Mined p c c' clock limits cpus events b few e in
      let next = Mined-IsValidBlock c c' clock b previous mined last early in
      let rest = drop mined.count c.pending in
      let parts : b.transactions ++ rest ≡ c.pending =
        rw mined.transactions (take-append-drop mined.count c.pending) in
      let (m, taken, left) =
        apply_pool-split p b.transactions rest live.valid.final live.pooled
          (rw parts live.replayable) in
      rw mined.result (
        record {
          valid = record {
            has_blocks = (is_empty_iff (c.blocks ++ b ∷ [])).0 (is_empty-snoc c.blocks b);
            has_rules = live.valid.has_rules;
            config = live.valid.config;
            blocks = grown-AreValid c b rest previous live.valid next last live.interval small;
            final = m;
            replayed = grown-replayed c b live.valid.final m live.valid.replayed taken;
          };
          pooled = live.pooled;
          replayable = left;
          interval = live.interval;
        },
        refl,
        sym parts,
      )
