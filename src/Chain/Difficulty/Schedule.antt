-- ===== src/Chain/Difficulty/Schedule.antt =====
-- `ExpectedDifficulty` height by height (chain/chain.go).
use toyblockchain.Prelude.{
  ap, >>=-ok, >>=_assoc, ℕ, zero, suc, ◌+◌, ◌≡◌, refl, sym, ◌∙◌, none, some, List, Result, ok,
  ◌>>=◌, >>=-cong, arith,
}
use toyblockchain.Prelude.Int.{ℤ, pos}
use toyblockchain.Chain.Types.{Chain, DifficultyRule, ChainError}
use toyblockchain.Chain.Difficulty.{
  default_difficulty, expected_difficulty, initial_rules, rules_at, sort_rules, start_progress,
  retarget_at, difficulty_step, walk_heights,
}
use toyblockchain.Chain.Difficulty.Rules.{
  rule_for-sort_rules, rule_for-initial_rules, rule_for-rest_after, rest_after-IsFrom,
  rules_at-left_at, initial_rules-IsFrom, left_at, sort_rules-IsFrom, rest_after, rules_at-rule_for,
  rule_for, IsFrom,
}

module _ (c : Chain) where
  -- The last round of the loop.
  walk_heights-snoc :
      (n h : ℕ) (rules : List DifficultyRule) (current : ℤ)
      → walk_heights c (suc n) h rules current ≡ (
          walk_heights c n h rules current >>= λ d.
          difficulty_step c
            (pos (h + n))
            (rules_at (pos (h + n)) (rest_after n h rules) (start_progress d)))
  unfolding walk_heights rest_after
  walk_heights-snoc zero h rules current =
      let same : h + 0 ≡ h = omega arith in
      rw same (>>=-ok (difficulty_step c (pos h) (rules_at (pos h) rules (start_progress current))))
  walk_heights-snoc (suc n) h rules current =
      let g = rules_at (pos h) rules (start_progress current) in
      let left : g.rules ≡ left_at (pos h) rules = rules_at-left_at (pos h) rules current in
      let same : h + suc n ≡ suc h + n = omega arith in
      let first = difficulty_step c (pos h) g in
      let last : ℤ → Result ChainError ℤ = λ d.
        difficulty_step c (pos (suc h + n))
          (rules_at (pos (suc h + n)) (rest_after n (suc h) g.rules) (start_progress d)) in
      let run : ℕ → ℤ → Result ChainError ℤ = λ k next. walk_heights c k (suc h) g.rules next in
      let each =
        >>=-cong first (run (suc n)) (λ next. run n next >>= last)
          (λ next e. walk_heights-snoc n (suc h) g.rules next) in
      rw (same, sym left) (each ∙ sym (>>=_assoc first (run n) last))

  difficulty_step-rule_for :
      (h : ℤ) (rules : List DifficultyRule) (d : ℤ)
      → IsFrom h rules
      → difficulty_step c h (rules_at h rules (start_progress d))
        ≡ elim (rule_for h rules) [ some x ↦ ok x | none ↦ retarget_at c h d ]
  unfolding difficulty_step
  difficulty_step-rule_for h rules d from =
      let (a, b) = rules_at-rule_for h rules (start_progress d) from in ground arith

-- `ExpectedDifficulty` of a height above 0 is that of the height before, unless the schedule has a
-- rule for the height, which sets it (the last one, where there are several), or a retarget is due,
-- which works it out from the blocks.
pub expected_difficulty-suc :
    (c : Chain) (n : ℕ)
    → expected_difficulty c (pos (suc n)) ≡ (
        expected_difficulty c (pos n) >>= λ d. elim (rule_for (pos (suc n)) c.difficulty_schedule) [
          | some x ↦ ok x
          | none ↦ retarget_at c (pos (suc n)) d
        ])
unfolding expected_difficulty
expected_difficulty-suc c n =
    let sorted = sort_rules c.difficulty_schedule in
    let g = initial_rules sorted (start_progress default_difficulty) in
    let (h, from) = sort_rules-IsFrom c.difficulty_schedule in
    let start = initial_rules-IsFrom h sorted (start_progress default_difficulty) from in
    let end = rest_after-IsFrom n 1 g.rules start in
    let found : rule_for (pos (suc n)) (rest_after n 1 g.rules)
        ≡ rule_for (pos (suc n)) c.difficulty_schedule =
      rule_for-rest_after n 1 (suc n) g.rules (omega arith)
      ∙ (rule_for-initial_rules (suc n) sorted (start_progress default_difficulty) (omega arith)
          ∙ rule_for-sort_rules (pos (suc n)) c.difficulty_schedule) in
    let last : (k : ℕ)
        → k ≡ suc n
        → IsFrom (pos k) (rest_after n 1 g.rules)
        → (d : ℤ)
        → difficulty_step c (pos k) (rules_at (pos k) (rest_after n 1 g.rules) (start_progress d))
          ≡ elim (rule_for (pos (suc n)) c.difficulty_schedule) [
            | some x ↦ ok x
            | none ↦ retarget_at c (pos (suc n)) d
          ] =
      λ k e low d.
        difficulty_step-rule_for c (pos k) (rest_after n 1 g.rules) d low
        ∙ (ap
              (λ (x : ℕ). elim (rule_for (pos x) (rest_after n 1 g.rules)) [
                | some y ↦ ok y
                | none ↦ retarget_at c (pos x) d
              ])
              e
            ∙ rw found refl) in
    walk_heights-snoc c n 1 g.rules g.current
    ∙ >>=-cong (walk_heights c n 1 g.rules g.current) _ _ (λ d e. last (1 + n) (omega arith) end d)
