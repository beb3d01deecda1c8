-- ===== src/Chain/Difficulty/Rules.antt =====
-- The sorted rules and the loops over them (chain/chain.go, `ExpectedDifficulty`).
use toyblockchain.Prelude.{
  ◌<◌, ◌≤◌, ℕ, zero, suc, ◌+◌, ◌≡◌, refl, ◌∙◌, inl, inr, Bool, Bool-cases, true, false, Option,
  none, some, List, [], ◌∷◌, if◌then◌else◌, arith,
}
use toyblockchain.Prelude.Int.{ℤ, pos, ◌≤ℤ◌, leb_ℤ, eqb_ℤ}
use toyblockchain.Chain.Types.{DifficultyRule}
use toyblockchain.Chain.Difficulty.{
  Progress, default_difficulty, initial_rules, insert_rule, rules_at, sort_rules, start_progress,
}

-- The difficulty that the schedule has for a height: that of its last rule for it.
unfoldable pub rule_for : ℤ → List DifficultyRule → Option ℤ
rule_for height [] = none
rule_for height (r ∷ rules) = elim (rule_for height rules) [
  | some d ↦ some d
  | none ↦ if eqb_ℤ r.start_height height then some r.difficulty else none
]

-- Start heights that do not decrease, from a height on.
abbrev pub IsFrom : ℤ → List DifficultyRule → Type 0
IsFrom height [] = Unit
IsFrom height (r ∷ rules) = (height ≤ℤ r.start_height) × IsFrom r.start_height rules

insert_rule-IsFrom :
    (h : ℤ) (r : DifficultyRule) (rules : List DifficultyRule)
    → h ≤ℤ r.start_height
    → IsFrom h rules
    → IsFrom h (insert_rule r rules)
unfolding insert_rule
insert_rule-IsFrom h r [] low from = (low, tt)
insert_rule-IsFrom h r (s ∷ rules) low from =
    let later : s.start_height ≤ℤ r.start_height → IsFrom s.start_height (insert_rule r rules) =
      λ k. insert_rule-IsFrom s.start_height r rules k from.1 in
    go (leb_ℤ r.start_height s.start_height) refl later
  where
    go :
        (b : Bool)
        → leb_ℤ r.start_height s.start_height ≡ b
        → (s.start_height ≤ℤ r.start_height → IsFrom s.start_height (insert_rule r rules))
        → IsFrom h (if b then r ∷ s ∷ rules else s ∷ insert_rule r rules)
    go true e later = (low, (ground arith, from.1))
    go false e later = (from.0, later (ground arith))

rule_for-insert_rule :
    (h : ℤ) (r : DifficultyRule) (rules : List DifficultyRule)
    → rule_for h (insert_rule r rules) ≡ rule_for h (r ∷ rules)
unfolding insert_rule rule_for
rule_for-insert_rule h r [] = refl
rule_for-insert_rule h r (s ∷ rules) =
    let later = rule_for-insert_rule h r rules in ground (arith, later)

rule_for-IsFrom :
    (h k : ℤ) (rules : List DifficultyRule)
    → IsFrom k rules
    → h ≤ℤ k
    → eqb_ℤ h k ≡ false
    → rule_for h rules ≡ none
unfolding rule_for
rule_for-IsFrom h k [] from low other = refl
rule_for-IsFrom h k (r ∷ rules) from low other =
    rw (rule_for-IsFrom h r.start_height rules from.1 (omega arith) (ground arith)) (ground arith)

IsFrom-weaken : (h k : ℤ) (rules : List DifficultyRule) → h ≤ℤ k → IsFrom k rules → IsFrom h rules
IsFrom-weaken h k [] low from = tt
IsFrom-weaken h k (r ∷ rules) low from = (omega (arith, from.0), from.1)

-- the inner loop, as a look-up
pub rules_at-rule_for :
    (h : ℤ) (rules : List DifficultyRule) (g : Progress)
    → IsFrom h rules
    → ((rules_at h rules g).current ≡ elim (rule_for h rules) [ none ↦ g.current | some d ↦ d ])
      × ((rules_at h rules g).manual_rule_applied
          ≡ elim (rule_for h rules) [ none ↦ g.manual_rule_applied | some d ↦ true ])
unfolding rules_at rule_for
rules_at-rule_for h [] g from = (refl, refl)
rules_at-rule_for h (r ∷ rules) g from =
    let g' : Progress = record g { current = r.difficulty; manual_rule_applied = true } in
    let below : IsFrom h rules = IsFrom-weaken h r.start_height rules from.0 from.1 in
    let nothing : eqb_ℤ r.start_height h ≡ false → rule_for h rules ≡ none =
      λ e. rule_for-IsFrom h r.start_height rules from.1 from.0 (ground arith) in
    let (a, b) = rules_at-rule_for h rules g' below in (ground arith, ground arith)

-- what the inner loop leaves
pub left_at : ℤ → List DifficultyRule → List DifficultyRule
left_at h rules = (rules_at h rules (start_progress default_difficulty)).rules

rules_at-rules :
    (h : ℤ) (rules : List DifficultyRule) (g g' : Progress)
    → (rules_at h rules g).rules ≡ (rules_at h rules g').rules
unfolding rules_at
rules_at-rules h [] g g' = refl
rules_at-rules h (r ∷ rules) g g' =
    let later =
      rules_at-rules h rules (record g { current = r.difficulty; manual_rule_applied = true })
        (record g' { current = r.difficulty; manual_rule_applied = true }) in
    elim (Bool-cases (eqb_ℤ r.start_height h)) [ inl e ↦ rw e later | inr e ↦ rw e refl ]

pub rules_at-left_at :
    (h : ℤ) (rules : List DifficultyRule) (d : ℤ)
    → (rules_at h rules (start_progress d)).rules ≡ left_at h rules
unfolding left_at
rules_at-left_at h rules d =
    rules_at-rules h rules (start_progress d) (start_progress default_difficulty)

left_at-IsFrom :
    (n : ℕ) (rules : List DifficultyRule) (g : Progress)
    → IsFrom (pos n) rules
    → IsFrom (pos (suc n)) (rules_at (pos n) rules g).rules
unfolding rules_at
left_at-IsFrom n [] g from = tt
left_at-IsFrom n (r ∷ rules) g from =
    let later =
      left_at-IsFrom n rules (record g { current = r.difficulty; manual_rule_applied = true })
        (IsFrom-weaken (pos n) r.start_height rules from.0 from.1) in
    elim (Bool-cases (eqb_ℤ r.start_height (pos n))) [
      | inl e ↦ rw e later
      | inr e ↦ let kept : IsFrom (pos (suc n)) (r ∷ rules) = (ground arith, from.1) in rw e kept
    ]

rule_for-left_at :
    (n k : ℕ) (rules : List DifficultyRule) (g : Progress)
    → n < k
    → rule_for (pos k) (rules_at (pos n) rules g).rules ≡ rule_for (pos k) rules
unfolding rules_at rule_for
rule_for-left_at n k [] g lt = refl
rule_for-left_at n k (r ∷ rules) g lt =
    let later =
      rule_for-left_at n k rules (record g { current = r.difficulty; manual_rule_applied = true })
        lt in
    ground arith

unfoldable pub rest_after : ℕ → ℕ → List DifficultyRule → List DifficultyRule
rest_after zero h rules = rules
rest_after (suc n) h rules = rest_after n (suc h) (left_at (pos h) rules)

pub rest_after-IsFrom :
    (n h : ℕ) (rules : List DifficultyRule)
    → IsFrom (pos h) rules
    → IsFrom (pos (h + n)) (rest_after n h rules)
unfolding rest_after left_at
rest_after-IsFrom zero h rules from = let same : h + 0 ≡ h = omega arith in rw same from
rest_after-IsFrom (suc n) h rules from =
    let same : h + suc n ≡ suc h + n = omega arith in
    rw same (
      rest_after-IsFrom n (suc h) (left_at (pos h) rules)
        (left_at-IsFrom h rules (start_progress default_difficulty) from))

pub rule_for-rest_after :
    (n h k : ℕ) (rules : List DifficultyRule)
    → h + n ≤ k
    → rule_for (pos k) (rest_after n h rules) ≡ rule_for (pos k) rules
unfolding rest_after left_at
rule_for-rest_after zero h k rules le = refl
rule_for-rest_after (suc n) h k rules le =
    rule_for-rest_after n (suc h) k (left_at (pos h) rules) (omega arith)
    ∙ rule_for-left_at h k rules (start_progress default_difficulty) (omega arith)

pub sort_rules-IsFrom : (rules : List DifficultyRule) → (h : ℤ) × IsFrom h (sort_rules rules)
unfolding sort_rules
sort_rules-IsFrom [] = (pos 0, tt)
sort_rules-IsFrom (r ∷ rules) =
    let (h, from) = sort_rules-IsFrom rules in
    let least = if leb_ℤ r.start_height h then r.start_height else h in
    let below : IsFrom least (sort_rules rules) =
      IsFrom-weaken least h (sort_rules rules) (ground arith) from in
    (least, insert_rule-IsFrom least r (sort_rules rules) (ground arith) below)

pub rule_for-sort_rules :
    (h : ℤ) (rules : List DifficultyRule) → rule_for h (sort_rules rules) ≡ rule_for h rules
unfolding sort_rules rule_for
rule_for-sort_rules h [] = refl
rule_for-sort_rules h (r ∷ rules) =
    let later = rule_for-sort_rules h rules in
    rule_for-insert_rule h r (sort_rules rules) ∙ ground arith

pub initial_rules-IsFrom :
    (h : ℤ) (rules : List DifficultyRule) (g : Progress)
    → IsFrom h rules
    → IsFrom (pos 1) (initial_rules rules g).rules
unfolding initial_rules
initial_rules-IsFrom h [] g from = tt
initial_rules-IsFrom h (r ∷ rules) g from =
    let later =
      initial_rules-IsFrom r.start_height rules (record g { current = r.difficulty }) from.1 in
    elim (Bool-cases (leb_ℤ r.start_height (pos 0))) [
      | inl e ↦ rw e later
      | inr e ↦ let kept : IsFrom (pos 1) (r ∷ rules) = (ground arith, from.1) in rw e kept
    ]

pub rule_for-initial_rules :
    (n : ℕ) (rules : List DifficultyRule) (g : Progress)
    → 0 < n
    → rule_for (pos n) (initial_rules rules g).rules ≡ rule_for (pos n) rules
unfolding initial_rules rule_for
rule_for-initial_rules n [] g lt = refl
rule_for-initial_rules n (r ∷ rules) g lt =
    let later = rule_for-initial_rules n rules (record g { current = r.difficulty }) lt in
    ground arith
