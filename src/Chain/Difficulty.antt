-- ===== src/Chain/Difficulty.antt =====
-- The difficulty that a height must have, and its schedule (chain/chain.go, `ExpectedDifficulty` and
-- `SetDifficulty`). `sort.Slice` is the insertion sort that Go uses on at most twelve elements; on
-- rules with different start heights every sort agrees with it. The loop counts to a height that is
-- less than 2^63 - 1, where Go's own counter does not wrap.
pub mod Stable
pub mod Rules
pub mod Schedule
pub mod Bounds
pub mod Setting
pub mod Early
use toyblockchain.Prelude.{
  ℕ, zero, suc, Bool, true, false, List, [], ◌∷◌, ◌++◌, if◌then◌else◌, Result, ok, err, fail_if,
  ◌>>=◌, ◌>>◌,
}
use toyblockchain.Prelude.Int.{ℤ, pos, negsuc, ltb_ℤ, leb_ℤ, eqb_ℤ}
use toyblockchain.Prelude.Int64.{add64}
use toyblockchain.Chain.Types.{Chain, DifficultyRule, ChainError, difficulty_out_of_range, latest}
use toyblockchain.Chain.Retarget.{should_retarget, retarget_difficulty, is_out_of_range}

abbrev pub default_difficulty : ℤ
default_difficulty = pos 4

unfoldable pub insert_rule : DifficultyRule → List DifficultyRule → List DifficultyRule
insert_rule r [] = r ∷ []
insert_rule r (s ∷ rules) =
    let rest = insert_rule r rules in
    if leb_ℤ r.start_height s.start_height then r ∷ s ∷ rules else s ∷ rest

-- Of two rules with one start height the earlier stays first.
unfoldable pub sort_rules : List DifficultyRule → List DifficultyRule
sort_rules [] = []
sort_rules (r ∷ rules) = insert_rule r (sort_rules rules)

-- the difficulty after the rules that a loop passes, the rules that are left, and whether it passed any
pub record Progress : Type 0 where
  pub current : ℤ
  pub rules : List DifficultyRule
  pub manual_rule_applied : Bool

-- the loop before the first block
unfoldable pub initial_rules : List DifficultyRule → Progress → Progress
initial_rules [] g = record g { rules = [] }
initial_rules (r ∷ rules) g =
    let rest = initial_rules rules (record g { current = r.difficulty }) in
    if leb_ℤ r.start_height (pos 0) then rest else record g { rules = r ∷ rules }

-- the inner loop at a height
unfoldable pub rules_at : ℤ → List DifficultyRule → Progress → Progress
rules_at height [] g = record g { rules = [] }
rules_at height (r ∷ rules) g =
    let rest =
      rules_at height rules (record g { current = r.difficulty; manual_rule_applied = true }) in
    if eqb_ℤ r.start_height height then rest else record g { rules = r ∷ rules }

abbrev pub start_progress : ℤ → Progress
start_progress current = record { current = current; rules = []; manual_rule_applied = false }

module _ (c : Chain) where
  unfoldable pub retarget_at : ℤ → ℤ → Result ChainError ℤ
  retarget_at height current = should_retarget c.retarget height >>= λ due.
      if due then retarget_difficulty c.retarget c.blocks height current else ok current

  -- the body of the loop over the heights
  unfoldable pub difficulty_step : ℤ → Progress → Result ChainError ℤ
  difficulty_step height g =
      if g.manual_rule_applied then ok g.current else retarget_at height g.current

  -- `count` rounds, the first one at `height`
  unfoldable pub walk_heights : ℕ → ℕ → List DifficultyRule → ℤ → Result ChainError ℤ
  walk_heights zero height rules current = ok current
  walk_heights (suc count) height rules current =
      let g = rules_at (pos height) rules (start_progress current) in
      difficulty_step (pos height) g >>= λ next. walk_heights count (suc height) g.rules next

  unfoldable pub expected_difficulty : ℤ → Result ChainError ℤ
  expected_difficulty (negsuc n) = ok default_difficulty
  expected_difficulty (pos n) =
      let g =
        initial_rules (sort_rules c.difficulty_schedule) (start_progress default_difficulty) in
      walk_heights n 1 g.rules g.current

-- The loop over the schedule: the first rule of the height is changed, or one is added at the end.
unfoldable pub set_rule : ℤ → ℤ → List DifficultyRule → List DifficultyRule
set_rule start difficulty [] = record { start_height = start; difficulty = difficulty } ∷ []
set_rule start difficulty (r ∷ rules) =
    let rest = set_rule start difficulty rules in
    if eqb_ℤ r.start_height start then record r { difficulty = difficulty } ∷ rules else r ∷ rest

unfoldable pub set_difficulty : Chain → ℤ → Result ChainError Chain
set_difficulty c difficulty = do
  fail_if (is_out_of_range difficulty) difficulty_out_of_range
  last ← latest c
  ok (record c {
    difficulty_schedule = set_rule (add64 last.height (pos 1)) difficulty c.difficulty_schedule;
  })
