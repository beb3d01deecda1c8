-- ===== src/Chain/Difficulty/Early.antt =====
-- The rules up to height 0 (chain/chain.go, `ExpectedDifficulty` before its loop).
use toyblockchain.Prelude.{
  ℕ, zero, suc, ◌<◌, ◌≡◌, refl, ap, sym, ◌∙◌, inl, inr, Bool-cases, true, false, List, [], ◌∷◌,
  if◌then◌else◌, ok, arith,
}
use toyblockchain.Prelude.Int.{ℤ, pos, ◌≤ℤ◌, leb_ℤ, eqb_ℤ}
use toyblockchain.Chain.Types.{Chain, DifficultyRule}
use toyblockchain.Chain.Difficulty.{
  Progress, insert_rule, sort_rules, initial_rules, set_rule, expected_difficulty, walk_heights,
  start_progress, default_difficulty, retarget_at,
}
use toyblockchain.Chain.Difficulty.Rules.{IsFrom, sort_rules-IsFrom, rule_for}
use toyblockchain.Chain.Difficulty.Schedule.{expected_difficulty-suc}

early : List DifficultyRule → List DifficultyRule
early [] = []
early (r ∷ rules) = if leb_ℤ r.start_height (pos 0) then r ∷ early rules else early rules

early-IsFrom :
    (h : ℤ) (rules : List DifficultyRule) → pos 1 ≤ℤ h → IsFrom h rules → early rules ≡ []
unfolding early
early-IsFrom h [] late from = refl
early-IsFrom h (r ∷ rules) late from =
    let none_later = early-IsFrom r.start_height rules (omega (arith, from.0)) from.1 in
    ground arith

early-insert_rule :
    (h : ℤ) (r : DifficultyRule) (rules : List DifficultyRule)
    → IsFrom h rules
    → early (insert_rule r rules)
      ≡ (if leb_ℤ r.start_height (pos 0) then insert_rule r (early rules) else early rules)
unfolding early insert_rule
early-insert_rule h r [] from = refl
early-insert_rule h r (s ∷ rules) from =
    let later = early-insert_rule s.start_height r rules from.1 in
    let nothing : leb_ℤ s.start_height (pos 0) ≡ false → early rules ≡ [] =
      λ late. early-IsFrom s.start_height rules (ground arith) from.1 in
    elim (Bool-cases (leb_ℤ r.start_height (pos 0))) [
      | inl b ↦
          let deeper : early (insert_rule r rules) ≡ insert_rule r (early rules) =
            later ∙ rw b refl in
          elim (Bool-cases (leb_ℤ s.start_height (pos 0))) [
            | inl c ↦ elim (Bool-cases (leb_ℤ r.start_height s.start_height)) [
              | inl a ↦ rw (a, b, c, a) refl
              | inr a ↦ rw (a, b, c, deeper, a) refl
            ]
            | inr c ↦
                let before : leb_ℤ r.start_height s.start_height ≡ true = ground arith in
                rw (before, b, c, nothing c) refl
          ]
      | inr b ↦
          let deeper : early (insert_rule r rules) ≡ early rules = later ∙ rw b refl in
          elim (Bool-cases (leb_ℤ r.start_height s.start_height)) [
            | inl a ↦ rw (a, b) refl
            | inr a ↦ rw (a, b, deeper) refl
          ]
    ]

early-sort_rules :
    (rules : List DifficultyRule) → early (sort_rules rules) ≡ sort_rules (early rules)
unfolding early sort_rules
early-sort_rules [] = refl
early-sort_rules (r ∷ rules) =
    let (h, from) = sort_rules-IsFrom rules in
    let first = early-insert_rule h r (sort_rules rules) from in
    let later = early-sort_rules rules in
    elim (Bool-cases (leb_ℤ r.start_height (pos 0))) [
      | inl e ↦ first ∙ rw (e, later) refl
      | inr e ↦ first ∙ rw (e, later) refl
    ]

early-set_rule :
    (h d : ℤ) (rules : List DifficultyRule) → pos 1 ≤ℤ h → early (set_rule h d rules) ≡ early rules
unfolding early set_rule
early-set_rule h d [] late = ground arith
early-set_rule h d (r ∷ rules) late = let later = early-set_rule h d rules late in ground arith

-- the difficulty of the last rule, if there is one
last_difficulty : List DifficultyRule → ℤ → ℤ
last_difficulty [] d = d
last_difficulty (r ∷ rules) d = last_difficulty rules r.difficulty

initial_rules-early :
    (h : ℤ) (rules : List DifficultyRule) (g : Progress)
    → IsFrom h rules
    → (initial_rules rules g).current ≡ last_difficulty (early rules) g.current
unfolding initial_rules early last_difficulty
initial_rules-early h [] g from = refl
initial_rules-early h (r ∷ rules) g from =
    let later =
      initial_rules-early r.start_height rules (record g { current = r.difficulty }) from.1 in
    elim (Bool-cases (leb_ℤ r.start_height (pos 0))) [
      | inl e ↦ rw e later
      | inr e ↦
          let nothing = early-IsFrom r.start_height rules (ground arith) from.1 in
          rw (e, nothing) refl
    ]

expected_difficulty-zero :
    (c : Chain)
    → expected_difficulty c (pos 0)
      ≡ ok (last_difficulty (sort_rules (early c.difficulty_schedule)) default_difficulty)
unfolding expected_difficulty walk_heights
expected_difficulty-zero c =
    let (h, from) = sort_rules-IsFrom c.difficulty_schedule in
    let start =
      initial_rules-early h (sort_rules c.difficulty_schedule) (start_progress default_difficulty)
        from in
    ap ok (
      start
      ∙ ap (λ (rules : List DifficultyRule). last_difficulty rules default_difficulty)
          (early-sort_rules c.difficulty_schedule))

rule_for-set_rule_other :
    (h k d : ℤ) (rules : List DifficultyRule)
    → eqb_ℤ h k ≡ false
    → rule_for k (set_rule h d rules) ≡ rule_for k rules
unfolding set_rule rule_for
rule_for-set_rule_other h k d [] other = ground arith
rule_for-set_rule_other h k d (r ∷ rules) other =
    let later = rule_for-set_rule_other h k d rules other in ground arith

-- A rule that is set leaves the difficulties of the heights below it as they were.
pub expected_difficulty-set_rule :
    (c : Chain) (h : ℕ) (d : ℤ) (n : ℕ)
    → n < h
    → expected_difficulty
        (record c { difficulty_schedule = set_rule (pos h) d c.difficulty_schedule })
        (pos n)
      ≡ expected_difficulty c (pos n)
unfolding retarget_at
expected_difficulty-set_rule c h d zero lt =
    let c' : Chain = record c { difficulty_schedule = set_rule (pos h) d c.difficulty_schedule } in
    expected_difficulty-zero c'
    ∙ (ap
          (λ (rules : List DifficultyRule).
            ok (last_difficulty (sort_rules rules) default_difficulty))
          (early-set_rule (pos h) d c.difficulty_schedule (omega arith))
        ∙ sym (expected_difficulty-zero c))
expected_difficulty-set_rule c h d (suc n) lt =
    let c' : Chain = record c { difficulty_schedule = set_rule (pos h) d c.difficulty_schedule } in
    let before = expected_difficulty-set_rule c h d n (omega arith) in
    let rule : rule_for (pos (suc n)) c'.difficulty_schedule
        ≡ rule_for (pos (suc n)) c.difficulty_schedule =
      rule_for-set_rule_other (pos h) (pos (suc n)) d c.difficulty_schedule (ground arith) in
    expected_difficulty-suc c' n ∙ (rw (before, rule) refl ∙ sym (expected_difficulty-suc c n))
