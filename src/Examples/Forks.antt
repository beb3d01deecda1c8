-- ===== src/Examples/Forks.antt =====
-- Two copies of a chain, one of which has mined a block, and the theorems on forks and on the rules.
use toyblockchain.Prelude.{
  ℕ, ◌≡◌, ◌⊎◌, ◌↔◌, refl, [], ◌∷◌, ◌++◌, length, arith, Result, ok, err, if◌then◌else◌,
}
use toyblockchain.Prelude.Int.{pos, negsuc}
use toyblockchain.Prelude.Bytes.{Bytes, bytes_eq}
use toyblockchain.Chain.Types.{Chain, RetargetConfig}
use toyblockchain.Chain.Retarget.{validate_config, configure_retarget}
use toyblockchain.Chain.Growth.Live.{IsLive, mine_block-IsLive}
use toyblockchain.Chain.Growth.Policy.{set_difficulty-IsLive, configure_retarget-IsLive}
use toyblockchain.Chain.Fork.{
  ChainJson, ForkResolutionResult, candidate_not_stronger, resolve_fork, common_ancestor_height,
}
use toyblockchain.Chain.Fork.Work.{IsStronger}
use toyblockchain.Chain.Fork.Choice.{Replaced, resolve_fork_iff, resolve_fork-IsLive}
use toyblockchain.Chain.Fork.Stability.{resolve_fork-settles, resolve_fork-mine_block}
use toyblockchain.Chain.Fork.Ancestor.{SameHashAt, PartAfter, common_ancestor_height_lem}
use toyblockchain.Block.Mine.{worker_count}
use toyblockchain.Examples.Toy.{toy}
use toyblockchain.Examples.Chains.{
  fresh, pooled, grown, harder, first, genesis, no_limits, at_once, quick, fresh-IsLive,
  pooled-IsLive, first-mined, harder-set,
}

-- A chain is written as the number of its blocks, and read back for two chains.
abbrev pub toy_text : Chain → Bytes
toy_text c = length c.blocks ∷ []

unfoldable pub toy_parse : Bytes → Result (Unit {0}) Chain
toy_parse s =
    if bytes_eq s (1 ∷ []) then ok fresh else if bytes_eq s (2 ∷ []) then ok grown else err tt

abbrev pub toy_json : ChainJson
toy_json = record { marshal = toy_text; marshal_indent = toy_text; unmarshal = toy_parse }

pub grown-IsLive : IsLive toy grown
unfolding worker_count
grown-IsLive =
    (mine_block-IsLive toy pooled grown (pos 100) no_limits (pos 4) at_once first genesis
      pooled-IsLive refl (omega arith) (omega arith) (omega arith) first-mined).0

pub grown-encodable : toy_json.unmarshal (toy_json.marshal grown) ≡ ok grown
unfolding toy_parse bytes_eq
grown-encodable = refl

adoption_example :
    (r : Chain × ForkResolutionResult) × (resolve_fork toy toy_json pooled grown ≡ ok r)
    × (r.0.blocks ≡ pooled.blocks ++ first ∷ [])
unfolding worker_count
adoption_example =
    resolve_fork-mine_block toy toy_json pooled grown (pos 100) no_limits (pos 4) at_once first
      genesis pooled-IsLive refl (omega arith) (omega arith) (omega arith) first-mined
      grown-encodable

adopted :
    (r : Chain × ForkResolutionResult) × (resolve_fork toy toy_json pooled grown ≡ ok r)
    × (r.0.blocks ≡ pooled.blocks ++ first ∷ [])
unfolding worker_count
adopted =
    resolve_fork-mine_block toy toy_json pooled grown (pos 100) no_limits (pos 4) at_once first
      genesis pooled-IsLive refl (omega arith) (omega arith) (omega arith) first-mined
      grown-encodable

fork_iff_example :
    ((r : Chain × ForkResolutionResult) × (resolve_fork toy toy_json pooled grown ≡ ok r))
    ↔ IsStronger toy pooled grown
fork_iff_example = resolve_fork_iff toy toy_json pooled grown grown-encodable

fork_live_example : Replaced toy toy_json pooled grown adopted.0.0 adopted.0.1
fork_live_example =
    resolve_fork-IsLive toy toy_json pooled grown adopted.0.0 adopted.0.1 grown-encodable
      (omega arith, omega arith) adopted.1

fork_settles_example :
    (resolve_fork toy toy_json adopted.0.0 grown ≡ err candidate_not_stronger)
    × (resolve_fork toy toy_json grown pooled ≡ err candidate_not_stronger)
fork_settles_example =
    resolve_fork-settles toy toy_json pooled grown adopted.0.0 adopted.0.1 grown-encodable
      (omega arith, omega arith) adopted.1

ancestor_example :
    ((common_ancestor_height grown fresh ≡ negsuc 0) × ¬ SameHashAt 0 grown.blocks fresh.blocks)
    ⊎ ((k : ℕ) × (common_ancestor_height grown fresh ≡ pos k)
        × PartAfter k grown.blocks fresh.blocks)
ancestor_example = common_ancestor_height_lem toy grown fresh grown-IsLive.valid (omega arith)

policy_example : IsLive toy harder
policy_example =
    set_difficulty-IsLive toy fresh harder (pos 3) fresh-IsLive.0 (omega arith) harder-set

abbrev slower : RetargetConfig
slower = record quick { target_block_seconds = pos 60 }

slower-set : configure_retarget fresh slower ≡ ok (record fresh { retarget = slower })
unfolding configure_retarget validate_config
slower-set = refl

retarget_example : IsLive toy (record fresh { retarget = slower })
retarget_example =
    configure_retarget-IsLive toy fresh (record fresh { retarget = slower }) slower fresh-IsLive.0
      (omega arith, omega arith) slower-set
