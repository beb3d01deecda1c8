-- ===== src/Chain/Fork/Stability.antt =====
-- Exchanging chains (chain/fork.go with `MineBlock` of chain/chain.go).
use toyblockchain.Prelude.{
  ◌+◌, ◌^◌, ◌<◌, ◌≤◌, ◌≡◌, ◌≢◌, refl, ap, sym, ◌∙◌, true, some, List, [], ◌∷◌, ◌++◌, length, ok,
  err, leb, arith,
}
use toyblockchain.Prelude.Int.{ℤ, pos, ◌≤ℤ◌}
use toyblockchain.Prelude.Int64.{IsInt64}
use toyblockchain.Prelude.Bytes.{Bytes}
use toyblockchain.Platform.{Platform}
use toyblockchain.Block.Types.{Block}
use toyblockchain.Block.Hash.{meets_difficulty}
use toyblockchain.Block.Mine.{MiningLimits, Event, worker_count}
use toyblockchain.Chain.Difficulty.{sort_rules}
use toyblockchain.Chain.Types.{Chain, last_block}
use toyblockchain.Chain.Methods.{mine_block}
use toyblockchain.Chain.Validation.{validate_chain}
use toyblockchain.Chain.Validation.Exact.{validate_chain_iff}
use toyblockchain.Chain.Growth.Live.{IsLive, mine_block-IsLive}
use toyblockchain.Chain.Growth.Mined.{mine_block-Mined}
use toyblockchain.Chain.Fork.{
  ChainJson, ForkResolutionResult, candidate_not_stronger, check_fork, resolve_fork, total_work,
  work_of,
}
use toyblockchain.Chain.Fork.Work.{
  ShareGenesis, AreCompatible, IsStronger, genesis_differs_iff, consensus_differs_iff,
  block_work_pos, work_of-append,
}
use toyblockchain.Chain.Fork.Choice.{IsEncodable, resolve_fork_iff, resolve_fork-IsLive}

ShareGenesis_sym : (bs ds : List Block) → ShareGenesis bs ds → ShareGenesis ds bs
ShareGenesis_sym [] ds h = absurd h
ShareGenesis_sym (b ∷ bs) [] h = absurd h
ShareGenesis_sym (b ∷ bs) (d ∷ ds) h = sym h

ShareGenesis_self : (bs ds : List Block) → bs ≢ [] → ShareGenesis bs (bs ++ ds)
ShareGenesis_self [] ds h = h refl
ShareGenesis_self (b ∷ bs) ds h = refl

ShareGenesis_refl : (bs : List Block) → bs ≢ [] → ShareGenesis bs bs
ShareGenesis_refl [] h = h refl
ShareGenesis_refl (b ∷ bs) h = refl

meets_difficulty_nonneg : (hash : Bytes) (d : ℤ) → meets_difficulty hash d ≡ true → pos 0 ≤ℤ d
unfolding meets_difficulty
meets_difficulty_nonneg hash d h = ground arith

module _ (p : Platform) (json : ChainJson) where
  resolve_fork_weak :
      (c d : Chain)
      → validate_chain p c ≡ ok tt
      → validate_chain p d ≡ ok tt
      → ShareGenesis c.blocks d.blocks
      → AreCompatible c d
      → total_work d ≤ total_work c
      → resolve_fork p json c d ≡ err candidate_not_stronger
  unfolding resolve_fork check_fork
  resolve_fork_weak c d valid valid' genesis compatible less =
      let test : leb (total_work d) (total_work c) ≡ true = ground arith in
      rw
        (
          valid,
          valid',
          (genesis_differs_iff c.blocks d.blocks).1 genesis,
          (consensus_differs_iff c d).1 compatible,
          test,
        )
        refl

  -- After a chain has replaced another, neither replaces the other again: the chain that was adopted
  -- refuses the candidate that it came from, and the candidate refuses the chain that gave way, both
  -- for want of more work.
  pub resolve_fork-settles :
      (c d c' : Chain) (r : ForkResolutionResult)
      → IsEncodable p json d
      → IsInt64 d.retarget.interval
      → resolve_fork p json c d ≡ ok (c', r)
      → (resolve_fork p json c' d ≡ err candidate_not_stronger)
        × (resolve_fork p json d c ≡ err candidate_not_stronger)
  unfolding total_work
  resolve_fork-settles c d c' r encodable interval e =
      let v = (resolve_fork_iff p json c d encodable).0 ((c', r), e) in
      let done = resolve_fork-IsLive p json c d c' r encodable interval e in
      let valid' : validate_chain p c' ≡ ok tt = (validate_chain_iff p c').1 done.live.valid in
      let genesis : ShareGenesis c'.blocks d.blocks =
        rw done.blocks
          (ShareGenesis_refl d.blocks ((validate_chain_iff p d).0 v.candidate_valid).has_blocks) in
      let compatible : AreCompatible c' d = record {
        retarget = ap Chain.retarget done.rules;
        max_tx_per_block = ap Chain.max_tx_per_block done.rules;
        schedule = ap (λ (x : Chain). sort_rules x.difficulty_schedule) done.rules;
      } in
      let more = v.more_work in
      (
        resolve_fork_weak c' d valid' v.candidate_valid genesis compatible
            (rw done.blocks (omega arith)),
        resolve_fork_weak d c v.candidate_valid v.current_valid
            (ShareGenesis_sym c.blocks d.blocks v.genesis)
            (record {
              retarget = sym v.compatible.retarget;
              max_tx_per_block = sym v.compatible.max_tx_per_block;
              schedule = sym v.compatible.schedule;
            })
            (omega arith),
      )

  -- A chain that has mined a block is adopted by every copy of the chain before it: where `MineBlock`
  -- succeeds under the conditions that keep a chain in use, and the new chain survives encoding,
  -- `ResolveFork` of the old chain with the new one succeeds.
  pub resolve_fork-mine_block :
      (c c' : Chain) (clock : ℤ) (limits : MiningLimits) (cpus : ℤ) (events : List Event)
      (b previous : Block)
      → IsLive p c
      → last_block c.blocks ≡ ok previous
      → previous.timestamp ≤ℤ clock
      → length c.blocks + 1 < 2 ^ 63
      → worker_count limits cpus < 2 ^ 64
      → mine_block p c clock limits cpus events ≡ some (ok (c', b))
      → IsEncodable p json c'
      → (r : Chain × ForkResolutionResult) × (resolve_fork p json c c' ≡ ok r)
        × (r.0.blocks ≡ c.blocks ++ b ∷ [])
  unfolding total_work work_of
  resolve_fork-mine_block c c' clock limits cpus events b previous live last early small few e
        encodable =
      let mined = mine_block-Mined p c c' clock limits cpus events b few e in
      let (live', blocks, pool) =
        mine_block-IsLive p c c' clock limits cpus events b previous live last early small few e in
      let gain =
        block_work_pos b.difficulty
          (meets_difficulty_nonneg b.hash b.difficulty mined.sealed.work) in
      let v : IsStronger p c c' = record {
        current_valid = (validate_chain_iff p c).1 live.valid;
        candidate_valid = (validate_chain_iff p c').1 live'.valid;
        genesis = rw blocks (ShareGenesis_self c.blocks (b ∷ []) live.valid.has_blocks);
        compatible = record {
          retarget = sym (ap Chain.retarget mined.result);
          max_tx_per_block = sym (ap Chain.max_tx_per_block mined.result);
          schedule = sym (ap (λ (x : Chain). sort_rules x.difficulty_schedule) mined.result);
        };
        more_work = rw blocks (omega (arith, gain, work_of-append c.blocks (b ∷ [])));
      } in
      let ((c'', r), run) = (resolve_fork_iff p json c c' encodable).1 v in
      let done = resolve_fork-IsLive p json c c' c'' r encodable live'.interval run in
      ((c'', r), run, done.blocks ∙ blocks)
