-- ===== src/Chain/Growth/Genesis.antt =====
-- A new chain (chain/chain.go, `NewWithRetarget`).
use toyblockchain.Prelude.{
  wrap_err, if◌then◌else◌, sym, ℕ, ◌^◌, ◌<◌, ◌≡◌, refl, ap, ◌∙◌, arith, some, List, [], Result, ok,
  err, >>-ok_iff, wrap_err-ok,
}
use toyblockchain.Prelude.Int.{leb_ℤ, ltb_ℤ, ℤ, pos}
use toyblockchain.Prelude.Int64.{IsInt64}
use toyblockchain.Platform.{Platform}
use toyblockchain.Block.Types.{Block}
use toyblockchain.Block.Mine.{MiningLimits, Event, worker_count, mine}
use toyblockchain.Block.Mine.Outcomes.{mine_sound}
use toyblockchain.Block.Create.{new_block, genesis_header, new_genesis_block}
use toyblockchain.Ledger.{rebuild, replay, apply_block, apply_from, new}
use toyblockchain.Chain.Types.{invalid_config, Chain, RetargetConfig, ChainError}
use toyblockchain.Chain.Difficulty.{
  default_difficulty, expected_difficulty, walk_heights, initial_rules, sort_rules, insert_rule,
}
use toyblockchain.Chain.Retarget.{validate_config}
use toyblockchain.Chain.Methods.{
  with_mined, check_new, initial_chain, new_with_retarget, apply_pool,
}
use toyblockchain.Chain.Growth.Mined.{with_mined-ok}
use toyblockchain.Chain.Growth.Live.{IsLive}

module _ (p : Platform) where
  initial_chain-IsLive :
      (d max : ℤ) (retarget : RetargetConfig) (limits : MiningLimits) (n : ℕ) (events : List Event)
      (b : Block)
      → n < 2 ^ 64
      → IsInt64 retarget.interval
      → validate_config retarget ≡ ok tt
      → mine p (genesis_header p d) limits n events ≡ some (ok b)
      → IsLive p (initial_chain d max retarget b)
  unfolding new_block expected_difficulty sort_rules insert_rule initial_rules walk_heights rebuild
      replay apply_block apply_from apply_pool
  initial_chain-IsLive d max retarget limits n events b few interval config mined =
      let header = genesis_header p d in
      let (digest, work, range, shape) = mine_sound p header limits n few events b mined in
      let height : b.height ≡ pos 0 = ap Block.height shape in
      let difficulty : b.difficulty ≡ d = ap Block.difficulty shape in
      let transactions : b.transactions ≡ [] = ap Block.transactions shape in
      let c = initial_chain d max retarget b in
      record {
        valid = record {
          has_blocks = λ e. cc;
          has_rules = λ e. cc;
          config = config;
          blocks = (
            record {
              target = ap (expected_difficulty c) height ∙ ap ok (sym difficulty);
              sealed = record {
                root = ap Block.merkle_root shape ∙ rw transactions refl;
                digest = digest;
                work = work;
              };
              linked = (height, ap Block.prev_hash shape);
            },
            tt,
          );
          final = new;
          replayed = rw transactions refl;
        };
        pooled = new;
        replayable = refl;
        interval = interval;
      }

  check_new-config :
      (d : ℤ) (retarget : RetargetConfig)
      → check_new d retarget ≡ ok tt
      → validate_config retarget ≡ ok tt
  unfolding check_new
  check_new-config d retarget e =
      wrap_err-ok invalid_config (validate_config retarget)
        ((>>-ok_iff (wrap_err invalid_config (validate_config retarget)) _ tt).0 e).0

  -- Where `NewWithRetarget` succeeds with a policy whose interval is an `int`, under any schedule of
  -- the mining, the chain that it makes is in use and has no pending transactions.
  pub new_with_retarget-IsLive :
      (difficulty max : ℤ) (limits : MiningLimits) (cpus : ℤ) (events : List Event)
      (retarget : RetargetConfig) (c : Chain)
      → IsInt64 retarget.interval
      → new_with_retarget p difficulty max limits cpus events retarget ≡ some (ok c)
      → IsLive p c × (c.pending ≡ [])
  unfolding new_with_retarget new_genesis_block worker_count
  new_with_retarget-IsLive difficulty max limits cpus events retarget c interval e =
      go (check_new d retarget) refl
    where
      d : ℤ
      d = if ltb_ℤ difficulty (pos 0) then default_difficulty else difficulty

      most : ℤ
      most = if leb_ℤ max (pos 0) then pos 10 else max

      go :
          (r : Result ChainError (Unit {0}))
          → check_new d retarget ≡ r
          → IsLive p c × (c.pending ≡ [])
      go (err x) f = absurd (ground arith)
      go (ok u) f =
          let mining : with_mined (new_genesis_block p d limits cpus events)
                (initial_chain d most retarget)
              ≡ some (ok c) =
            ground arith in
          let (b, mined, same) = with_mined-ok p _ (initial_chain d most retarget) c mining in
          rw same (
            initial_chain-IsLive d most retarget (record limits { workers = pos 1 }) 1 events b
                (omega arith) interval (check_new-config d retarget f) mined,
            refl,
          )
