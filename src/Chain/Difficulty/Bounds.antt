-- ===== src/Chain/Difficulty/Bounds.antt =====
-- The range of the difficulties (chain/chain.go, chain/retarget.go).
use toyblockchain.Prelude.{
  ℕ, zero, suc, ◌≡◌, refl, inl, inr, Bool-cases, Option, none, some, Option-cases, List, [], ◌∷◌,
  All, ok, >>=-eq-ok, arith, if◌then◌else◌,
}
use toyblockchain.Prelude.Int.{ℤ, pos, ◌≤ℤ◌, leb_ℤ}
use toyblockchain.Prelude.{Bool, true, false, sym, ◌∙◌, ◌||◌, length, ◌>>=◌}
use toyblockchain.Prelude.Int.{ltb_ℤ}
use toyblockchain.Prelude.Int64.{sub64}
use toyblockchain.Chain.Retarget.{adjust}
use toyblockchain.Block.Types.{Block}
use toyblockchain.Chain.Types.{Chain, DifficultyRule, RetargetConfig}
use toyblockchain.Chain.Retarget.{
  validate_config, should_retarget, retarget_difficulty, clamp, block_at,
}
use toyblockchain.Chain.Difficulty.{
  Progress, default_difficulty, expected_difficulty, retarget_at, initial_rules, sort_rules,
  insert_rule, start_progress, walk_heights,
}
use toyblockchain.Chain.Difficulty.Rules.{rule_for}
use toyblockchain.Chain.Difficulty.Schedule.{expected_difficulty-suc}
use toyblockchain.Chain.Validation.Exact.{validate_config_iff}

-- A number of hexadecimal zeros that a hash can begin with.
abbrev pub IsMineable : ℤ → Type 0
IsMineable d = (pos 0 ≤ℤ d) × (d ≤ℤ pos 64)

abbrev pub HasMineable : List DifficultyRule → Type 0
HasMineable rules = All (λ r. IsMineable r.difficulty) rules

clamp-IsMineable :
    (r : RetargetConfig) (next : ℤ) → validate_config r ≡ ok tt → IsMineable (clamp r next)
unfolding clamp
clamp-IsMineable r next valid =
    let (i, t, low, between, high) = (validate_config_iff r).0 valid in ground arith

retarget_difficulty-IsMineable :
    (r : RetargetConfig) (bs : List Block) (height current d : ℤ)
    → validate_config r ≡ ok tt
    → IsMineable current
    → retarget_difficulty r bs height current ≡ ok d
    → IsMineable d
unfolding retarget_difficulty
retarget_difficulty-IsMineable r bs height current d valid range e =
    go (ltb_ℤ (sub64 height r.interval) (pos 1) || leb_ℤ (pos (length bs)) (sub64 height (pos 1))) e
  where
    next : Block → Block → ℤ
    next first last = clamp r (adjust r (sub64 last.timestamp first.timestamp) current)

    go :
        (b : Bool)
        → (if b
            then ok current
            else block_at bs (sub64 height r.interval) >>= λ first.
                block_at bs (sub64 height (pos 1)) >>= λ last. ok (next first last))
          ≡ ok d
        → IsMineable d
    go true e = let same : current ≡ d = cc e in rw (sym same) range
    go false e =
        let (first, f, e1) = >>=-eq-ok (block_at bs (sub64 height r.interval)) _ e in
        let (last, l, e2) = >>=-eq-ok (block_at bs (sub64 height (pos 1))) _ e1 in
        let same : next first last ≡ d = cc e2 in
        rw (sym same)
          (clamp-IsMineable r (adjust r (sub64 last.timestamp first.timestamp) current) valid)

retarget_at-IsMineable :
    (c : Chain) (height current d : ℤ)
    → validate_config c.retarget ≡ ok tt
    → IsMineable current
    → retarget_at c height current ≡ ok d
    → IsMineable d
unfolding retarget_at
retarget_at-IsMineable c height current d valid range e =
    let (due, f, e1) = >>=-eq-ok (should_retarget c.retarget height) _ e in go due e1
  where
    go :
        (b : Bool)
        → (if b then retarget_difficulty c.retarget c.blocks height current else ok current) ≡ ok d
        → IsMineable d
    go true e1 = retarget_difficulty-IsMineable c.retarget c.blocks height current d valid range e1
    go false e1 = let same : current ≡ d = cc e1 in rw (sym same) range

insert_rule-HasMineable :
    (r : DifficultyRule) (rules : List DifficultyRule)
    → IsMineable r.difficulty
    → HasMineable rules
    → HasMineable (insert_rule r rules)
unfolding insert_rule
insert_rule-HasMineable r [] here later = (here, tt)
insert_rule-HasMineable r (s ∷ rules) here later =
    let deeper = insert_rule-HasMineable r rules here later.1 in
    elim (Bool-cases (leb_ℤ r.start_height s.start_height)) [
      | inl e ↦ let front : HasMineable (r ∷ s ∷ rules) = (here, later) in rw e front
      | inr e ↦ let kept : HasMineable (s ∷ insert_rule r rules) = (later.0, deeper) in rw e kept
    ]

sort_rules-HasMineable :
    (rules : List DifficultyRule) → HasMineable rules → HasMineable (sort_rules rules)
unfolding sort_rules
sort_rules-HasMineable [] all = tt
sort_rules-HasMineable (r ∷ rules) all =
    insert_rule-HasMineable r (sort_rules rules) all.0 (sort_rules-HasMineable rules all.1)

initial_rules-IsMineable :
    (rules : List DifficultyRule) (g : Progress)
    → HasMineable rules
    → IsMineable g.current
    → IsMineable (initial_rules rules g).current
unfolding initial_rules
initial_rules-IsMineable [] g all here = here
initial_rules-IsMineable (r ∷ rules) g all here =
    let later = initial_rules-IsMineable rules (record g { current = r.difficulty }) all.1 all.0 in
    elim (Bool-cases (leb_ℤ r.start_height (pos 0))) [ inl e ↦ rw e later | inr e ↦ rw e here ]

rule_for-IsMineable :
    (h : ℤ) (rules : List DifficultyRule) (d : ℤ)
    → HasMineable rules
    → rule_for h rules ≡ some d
    → IsMineable d
unfolding rule_for
rule_for-IsMineable h [] d all e = cc
rule_for-IsMineable h (r ∷ rules) d all e = elim (Option-cases (rule_for h rules)) [
  | inl f ↦ let same : r.difficulty ≡ d = ground arith in rw (sym same) all.0
  | inr (x, f) ↦ rule_for-IsMineable h rules d all.1 (ground arith)
]

genesis-IsMineable :
    (c : Chain) (d : ℤ)
    → HasMineable c.difficulty_schedule
    → expected_difficulty c (pos 0) ≡ ok d
    → IsMineable d
unfolding expected_difficulty walk_heights
genesis-IsMineable c d all e =
    let g = initial_rules (sort_rules c.difficulty_schedule) (start_progress default_difficulty) in
    let same : g.current ≡ d = cc e in
    rw (sym same) (
      initial_rules-IsMineable (sort_rules c.difficulty_schedule)
        (start_progress default_difficulty) (sort_rules-HasMineable c.difficulty_schedule all)
        (omega arith, omega arith))

rule_or_retarget-IsMineable :
    (c : Chain) (h x d : ℤ)
    → validate_config c.retarget ≡ ok tt
    → HasMineable c.difficulty_schedule
    → IsMineable x
    → (o : Option ℤ) → rule_for h c.difficulty_schedule ≡ o
    → elim o [ some y ↦ ok y | none ↦ retarget_at c h x ] ≡ ok d
    → IsMineable d
rule_or_retarget-IsMineable c h x d valid all range none f e =
    retarget_at-IsMineable c h x d valid range e
rule_or_retarget-IsMineable c h x d valid all range (some y) f e =
    let same : y ≡ d = cc e in rw (sym same) (rule_for-IsMineable h c.difficulty_schedule y all f)

-- Under a valid policy and a schedule of difficulties between 0 and 64, every difficulty that
-- `ExpectedDifficulty` gives is between 0 and 64.
pub expected_difficulty-IsMineable :
    (c : Chain) (n : ℕ) (d : ℤ)
    → validate_config c.retarget ≡ ok tt
    → HasMineable c.difficulty_schedule
    → expected_difficulty c (pos n) ≡ ok d
    → IsMineable d
expected_difficulty-IsMineable c zero d valid all e = genesis-IsMineable c d all e
expected_difficulty-IsMineable c (suc n) d valid all e =
    let h = pos (suc n) in
    let (x, before, e1) =
      >>=-eq-ok (expected_difficulty c (pos n)) _ (sym (expected_difficulty-suc c n) ∙ e) in
    rule_or_retarget-IsMineable c h x d valid all
      (expected_difficulty-IsMineable c n x valid all before) (rule_for h c.difficulty_schedule)
      refl e1
