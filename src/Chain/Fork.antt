-- ===== src/Chain/Fork.antt =====
-- Choosing between two chains (chain/fork.go). `json.Marshal` and `json.Unmarshal` of a chain, by which
-- it is copied and stored, are a parameter, and no pointer is nil.
pub mod Pool
pub mod Work
pub mod Survivors
pub mod Choice
pub mod Stability
pub mod Ancestor
use toyblockchain.Prelude.{
  ℕ, ◌+◌, ◌^◌, Bool, true, false, not, ◌&&◌, ◌||◌, List, [], ◌∷◌, ◌++◌, ◌==◌, leb, if◌then◌else◌,
  Result, ok, err, fail_if, wrap_err, ◌>>=◌, ◌>>◌,
}
use toyblockchain.Prelude.Int.{ℤ, pos, negsuc, eqb_ℤ}
use toyblockchain.Prelude.Bytes.{Bytes, bytes_eq, hex_encode}
use toyblockchain.Platform.{Platform}
use toyblockchain.Block.Types.{Block, Transaction}
use toyblockchain.Chain.Types.{
  Chain, ChainError, DifficultyRule, RetargetConfig, panicked, index_out_of_range, latest,
}
use toyblockchain.Chain.Difficulty.{sort_rules}
use toyblockchain.Chain.Methods.{add_transaction}
use toyblockchain.Chain.Validation.{validate_chain}

pub record ChainJson : Type 0 where
  pub marshal : Chain → Bytes
  pub marshal_indent : Chain → Bytes
  -- `err tt` where the text is no chain
  pub unmarshal : Bytes → Result (Unit {0}) Chain

pub data ForkError : Type 0 where
  current_invalid : ChainError → ForkError
  candidate_invalid : ChainError → ForkError
  different_genesis : ForkError
  incompatible_consensus : ForkError
  candidate_not_stronger : ForkError
  copying_candidate : ForkError
  fork_panicked : ChainError → ForkError

pub record ForkResolutionResult : Type 0 where
  pub old_height : ℤ
  pub new_height : ℤ
  pub common_ancestor_height : ℤ
  pub old_work : ℕ
  pub new_work : ℕ
  pub pending_kept : ℕ
  pub pending_dropped : ℕ

abbrev pub block_work : ℤ → ℕ
block_work (pos d) = 16 ^ d
block_work (negsuc d) = 0

-- the loop of `TotalWork`
unfoldable pub work_of : List Block → ℕ
work_of [] = 0
work_of (b ∷ bs) = block_work b.difficulty + work_of bs

unfoldable pub total_work : Chain → ℕ
total_work c = work_of c.blocks

-- The loop of `CommonAncestorHeight` with the ancestor so far.
unfoldable pub common_from : ℤ → List Block → List Block → ℤ
common_from ancestor [] rights = ancestor
common_from ancestor (left ∷ lefts) [] = ancestor
common_from ancestor (left ∷ lefts) (right ∷ rights) =
    let rest = common_from left.height lefts rights in
    if bytes_eq left.hash right.hash then rest else ancestor

unfoldable pub common_ancestor_height : Chain → Chain → ℤ
common_ancestor_height c candidate = common_from (negsuc 0) c.blocks candidate.blocks

-- `==` on the structs
unfoldable pub rule_eq : DifficultyRule → DifficultyRule → Bool
rule_eq r s = eqb_ℤ r.start_height s.start_height && eqb_ℤ r.difficulty s.difficulty

abbrev pub bool_eq : Bool → Bool → Bool
bool_eq true b = b
bool_eq false b = not b

unfoldable pub config_eq : RetargetConfig → RetargetConfig → Bool
config_eq r s =
    bool_eq r.enabled s.enabled
    && eqb_ℤ r.interval s.interval
    && eqb_ℤ r.target_block_seconds s.target_block_seconds
    && eqb_ℤ r.min_difficulty s.min_difficulty
    && eqb_ℤ r.max_difficulty s.max_difficulty

-- Lists of one length, compared rule by rule.
unfoldable pub rules_eq : List DifficultyRule → List DifficultyRule → Bool
rules_eq [] [] = true
rules_eq (r ∷ rules) (s ∷ others) = rule_eq r s && rules_eq rules others
rules_eq _ _ = false

unfoldable pub same_difficulty_schedule : List DifficultyRule → List DifficultyRule → Bool
same_difficulty_schedule left right = rules_eq (sort_rules left) (sort_rules right)

-- `c.Blocks[0].Hash != candidate.Blocks[0].Hash`, true where a chain has no block
unfoldable pub genesis_differs : List Block → List Block → Bool
genesis_differs (b ∷ bs) (d ∷ ds) = not (bytes_eq b.hash d.hash)
genesis_differs _ _ = true

unfoldable pub consensus_differs : Chain → Chain → Bool
consensus_differs c candidate =
    not (config_eq c.retarget candidate.retarget)
    || not (eqb_ℤ c.max_tx_per_block candidate.max_tx_per_block)
    || not (same_difficulty_schedule c.difficulty_schedule candidate.difficulty_schedule)

-- a key of the set `seen`
unfoldable pub contains : Bytes → List Bytes → Bool
contains k [] = false
contains k (j ∷ js) = bytes_eq j k || contains k js

-- The variables of the loop in `revalidatePending`.
pub record Revalidation : Type 0 where
  pub seen : List Bytes
  pub target : Chain
  pub kept : ℕ
  pub dropped : ℕ

module _ (p : Platform) where
  unfoldable pub transaction_identifier : Transaction → Bytes
  transaction_identifier tx = hex_encode (p.sha256 (p.marshal_transaction tx))

  unfoldable pub count_added : Revalidation → Result ChainError Chain → Revalidation
  count_added s (err e) = record s { dropped = s.dropped + 1 }
  count_added s (ok target) = record s { target = target; kept = s.kept + 1 }

  -- the body of the loop
  unfoldable pub revalidate_one : Revalidation → Transaction → Revalidation
  revalidate_one s tx =
      let identifier = transaction_identifier tx in
      if contains identifier s.seen
      then record s { dropped = s.dropped + 1 }
      else count_added (record s { seen = identifier ∷ s.seen }) (add_transaction p s.target tx)

  unfoldable pub revalidate : List Transaction → Revalidation → Revalidation
  revalidate [] s = s
  revalidate (tx ∷ txs) s = revalidate txs (revalidate_one s tx)

  unfoldable pub revalidate_pending : Chain → List Transaction → Revalidation
  revalidate_pending target txs =
      revalidate txs (record { seen = []; target = target; kept = 0; dropped = 0 })

  -- The guards of `ResolveFork`.
  unfoldable pub check_fork : Chain → Chain → Result ForkError (Unit {0})
  check_fork c candidate = do
    wrap_err current_invalid (validate_chain p c)
    wrap_err candidate_invalid (validate_chain p candidate)
    fail_if (genesis_differs c.blocks candidate.blocks) different_genesis
    fail_if (consensus_differs c candidate) incompatible_consensus
    fail_if (leb (total_work candidate) (total_work c)) candidate_not_stronger

  -- What the current chain becomes, and the report.
  unfoldable pub adopt : Chain → Chain → Block → Block → Revalidation → Chain × ForkResolutionResult
  adopt c candidate old new s = (
    s.target,
    record {
      old_height = old.height;
      new_height = new.height;
      common_ancestor_height = common_ancestor_height c candidate;
      old_work = total_work c;
      new_work = total_work candidate;
      pending_kept = s.kept;
      pending_dropped = s.dropped;
    },
  )

  unfoldable pub resolve_fork :
      ChainJson → Chain → Chain → Result ForkError (Chain × ForkResolutionResult)
  resolve_fork json c candidate = do
    check_fork c candidate
    old ← wrap_err fork_panicked (latest c)
    copy ← wrap_err (λ _. copying_candidate) (json.unmarshal (json.marshal candidate))
    let s = revalidate_pending (record copy { pending = [] }) (copy.pending ++ c.pending)
    new ← wrap_err fork_panicked (latest s.target)
    ok (adopt c candidate old new s)
