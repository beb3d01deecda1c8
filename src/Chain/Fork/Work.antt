-- ===== src/Chain/Fork/Work.antt =====
-- Accumulated work, and what makes two chains comparable (chain/fork.go).
use toyblockchain.Prelude.{
  ℕ, zero, suc, ◌+◌, ◌^◌, ◌<◌, ◌≡◌, refl, ◌↔◌, Bool, true, false, List, [], ◌∷◌, ◌++◌, ok, leb,
  arith,
}
use toyblockchain.Prelude.Int.{ℤ, pos, negsuc, ◌≤ℤ◌, eqb_ℤ_iff}
use toyblockchain.Prelude.Bytes.{bytes_eq_iff}
use toyblockchain.Platform.{Platform}
use toyblockchain.Block.Types.{Block}
use toyblockchain.Chain.Types.{Chain, DifficultyRule, RetargetConfig}
use toyblockchain.Chain.Difficulty.{sort_rules}
use toyblockchain.Chain.Validation.{validate_chain}
use toyblockchain.Chain.Fork.{
  block_work, work_of, total_work, rule_eq, bool_eq, config_eq, rules_eq, same_difficulty_schedule,
  genesis_differs, consensus_differs, check_fork,
}

pow_pos : (n : ℕ) → 0 < 16 ^ n
pow_pos zero = omega arith
pow_pos (suc n) = omega (arith, pow_pos n)

pub block_work_pos : (d : ℤ) → pos 0 ≤ℤ d → 0 < block_work d
block_work_pos (pos n) h = pow_pos n
block_work_pos (negsuc n) h = absurd (omega arith)

pub work_of-append : (bs ds : List Block) → work_of (bs ++ ds) ≡ work_of bs + work_of ds
unfolding work_of
work_of-append [] ds = omega arith
work_of-append (b ∷ bs) ds = omega (arith, work_of-append bs ds)

rule_eq_iff : (r s : DifficultyRule) → (rule_eq r s ≡ true) ↔ (r ≡ s)
unfolding rule_eq
rule_eq_iff r s =
    ground (arith, eqb_ℤ_iff r.start_height s.start_height, eqb_ℤ_iff r.difficulty s.difficulty)

rules_eq_iff : (rs ss : List DifficultyRule) → (rules_eq rs ss ≡ true) ↔ (rs ≡ ss)
unfolding rules_eq
rules_eq_iff [] [] = (λ _. refl, λ _. refl)
rules_eq_iff [] (s ∷ ss) = (λ h. cc, λ h. cc)
rules_eq_iff (r ∷ rs) [] = (λ h. cc, λ h. cc)
rules_eq_iff (r ∷ rs) (s ∷ ss) = ground (arith, rule_eq_iff r s, rules_eq_iff rs ss)

bool_eq_iff : (a b : Bool) → (bool_eq a b ≡ true) ↔ (a ≡ b)
bool_eq_iff a b = ground arith

config_eq_iff : (r s : RetargetConfig) → (config_eq r s ≡ true) ↔ (r ≡ s)
unfolding config_eq
config_eq_iff r s = ground (
  arith,
  bool_eq_iff r.enabled s.enabled,
  eqb_ℤ_iff r.interval s.interval,
  eqb_ℤ_iff r.target_block_seconds s.target_block_seconds,
  eqb_ℤ_iff r.min_difficulty s.min_difficulty,
  eqb_ℤ_iff r.max_difficulty s.max_difficulty,
)

-- Two chains of one network.
pub record AreCompatible (c d : Chain) : Type 0 where
  pub retarget : c.retarget ≡ d.retarget
  pub max_tx_per_block : c.max_tx_per_block ≡ d.max_tx_per_block
  pub schedule : sort_rules c.difficulty_schedule ≡ sort_rules d.difficulty_schedule

pub consensus_differs_iff : (c d : Chain) → (consensus_differs c d ≡ false) ↔ AreCompatible c d
unfolding consensus_differs same_difficulty_schedule
consensus_differs_iff c d = (
  λ h. record {
    retarget = (config_eq_iff c.retarget d.retarget).0 (ground arith);
    max_tx_per_block = (eqb_ℤ_iff c.max_tx_per_block d.max_tx_per_block).0 (ground arith);
    schedule =
        (rules_eq_iff (sort_rules c.difficulty_schedule) (sort_rules d.difficulty_schedule)).0
          (ground arith);
  },
  λ v.
      rw
        (
          (config_eq_iff c.retarget d.retarget).1 v.retarget,
          (eqb_ℤ_iff c.max_tx_per_block d.max_tx_per_block).1 v.max_tx_per_block,
          (rules_eq_iff (sort_rules c.difficulty_schedule) (sort_rules d.difficulty_schedule)).1
              v.schedule,
        )
        refl,
)

-- Both begin with a block, and these have one hash.
abbrev pub ShareGenesis : List Block → List Block → Type 0
ShareGenesis (b ∷ bs) (d ∷ ds) = b.hash ≡ d.hash
ShareGenesis _ _ = ⊥

pub genesis_differs_iff :
    (bs ds : List Block) → (genesis_differs bs ds ≡ false) ↔ ShareGenesis bs ds
unfolding genesis_differs
genesis_differs_iff [] ds = (λ h. cc, λ h. absurd h)
genesis_differs_iff (b ∷ bs) [] = (λ h. cc, λ h. absurd h)
genesis_differs_iff (b ∷ bs) (d ∷ ds) = ground (arith, bytes_eq_iff b.hash d.hash)

-- A chain may be replaced by a stronger valid one of the same network.
pub record IsStronger (p : Platform) (c candidate : Chain) : Type 0 where
  pub current_valid : validate_chain p c ≡ ok tt
  pub candidate_valid : validate_chain p candidate ≡ ok tt
  pub genesis : ShareGenesis c.blocks candidate.blocks
  pub compatible : AreCompatible c candidate
  pub more_work : total_work c < total_work candidate

pub check_fork_iff : (p : Platform) (c d : Chain) → (check_fork p c d ≡ ok tt) ↔ IsStronger p c d
unfolding check_fork
check_fork_iff p c d = (
  λ h. record {
    current_valid = ground arith;
    candidate_valid = ground arith;
    genesis = (genesis_differs_iff c.blocks d.blocks).0 (ground arith);
    compatible = (consensus_differs_iff c d).0 (ground arith);
    more_work = ground arith;
  },
  λ v.
      let less : leb (total_work d) (total_work c) ≡ false = let m = v.more_work in ground arith in
      rw
        (
          v.current_valid,
          v.candidate_valid,
          (genesis_differs_iff c.blocks d.blocks).1 v.genesis,
          (consensus_differs_iff c d).1 v.compatible,
          less,
        )
        refl,
)
