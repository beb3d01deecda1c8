-- ===== src/Chain/Difficulty/Setting.antt =====
-- What `SetDifficulty` does to the next block (chain/chain.go).
use toyblockchain.Prelude.{
  ℕ, suc, ◌+◌, ◌^◌, ◌<◌, ◌≡◌, refl, ap, sym, ◌∙◌, true, Bool-cases, inl, inr, none, some, List, [],
  ◌∷◌, ok, fail_if, >>=-eq-ok, arith,
}
use toyblockchain.Prelude.Int.{ℤ, pos, eqb_ℤ, eqb_ℤ_iff}
use toyblockchain.Prelude.Int64.{add64, add64_nonneg}
use toyblockchain.Block.Types.{Block}
use toyblockchain.Chain.Types.{Chain, DifficultyRule, difficulty_out_of_range, latest, last_block}
use toyblockchain.Chain.Retarget.{is_out_of_range}
use toyblockchain.Chain.Difficulty.{set_rule, set_difficulty, expected_difficulty}
use toyblockchain.Chain.Difficulty.Rules.{rule_for}
use toyblockchain.Chain.Difficulty.Schedule.{expected_difficulty-suc}

-- No two rules for the height.
abbrev pub IsUnique : ℤ → List DifficultyRule → Type 0
IsUnique h [] = Unit
IsUnique h (r ∷ rules) =
    (eqb_ℤ r.start_height h ≡ true → rule_for h rules ≡ none) × IsUnique h rules

rule_for-set_rule :
    (h d : ℤ) (rules : List DifficultyRule)
    → IsUnique h rules
    → rule_for h (set_rule h d rules) ≡ some d
unfolding set_rule rule_for
rule_for-set_rule h d [] unique = ground (arith, eqb_ℤ_iff h h)
rule_for-set_rule h d (r ∷ rules) unique =
    let later = rule_for-set_rule h d rules unique.1 in
    elim (Bool-cases (eqb_ℤ r.start_height h)) [
      | inl e ↦ let alone = unique.0 e in ground arith
      | inr e ↦ ground arith
    ]

-- Where `SetDifficulty` succeeds on a chain whose last block has height n, less than 2^63 - 1, with no
-- two rules for the height n + 1, that is the difficulty expected at n + 1, if there is one at n.
pub set_difficulty-expected_difficulty :
    (c c' : Chain) (d x : ℤ) (last : Block) (n : ℕ)
    → last_block c.blocks ≡ ok last
    → last.height ≡ pos n
    → n + 1 < 2 ^ 63
    → IsUnique (pos (suc n)) c.difficulty_schedule
    → set_difficulty c d ≡ ok c'
    → expected_difficulty c' (pos n) ≡ ok x
    → expected_difficulty c' (pos (suc n)) ≡ ok d
unfolding set_difficulty
set_difficulty-expected_difficulty c c' d x last n at_end at small unique e before =
    let (u, range, e1) = >>=-eq-ok (fail_if (is_out_of_range d) difficulty_out_of_range) _ e in
    let (b, found, e2) = >>=-eq-ok (latest c) _ e1 in
    let same_block : b ≡ last = cc (found, at_end) in
    let next : add64 last.height (pos 1) ≡ pos (n + 1) =
      rw at (add64_nonneg (pos n) (pos 1) refl refl (omega arith)) in
    let succ : n + 1 ≡ suc n = omega arith in
    let height : add64 b.height (pos 1) ≡ pos (suc n) =
      ap (λ (y : Block). add64 y.height (pos 1)) same_block ∙ (next ∙ ap pos succ) in
    let same : record c {
      difficulty_schedule = set_rule (add64 b.height (pos 1)) d c.difficulty_schedule;
    }
        ≡ c' =
      cc e2 in
    let schedule : c'.difficulty_schedule ≡ set_rule (pos (suc n)) d c.difficulty_schedule =
      sym (ap Chain.difficulty_schedule same)
      ∙ ap (λ (y : ℤ). set_rule y d c.difficulty_schedule) height in
    let rule : rule_for (pos (suc n)) c'.difficulty_schedule ≡ some d =
      ap (rule_for (pos (suc n))) schedule
      ∙ rule_for-set_rule (pos (suc n)) d c.difficulty_schedule unique in
    expected_difficulty-suc c' n ∙ rw (before, rule) refl
