-- ===== src/Chain/Difficulty/Stable.antt =====
-- Which blocks `ExpectedDifficulty` looks at (chain/chain.go).
use toyblockchain.Prelude.{
  ℕ, zero, suc, ◌+◌, ◌-◌, ◌^◌, ◌≤◌, ◌<◌, ◌≡◌, refl, arith, List, ◌++◌, length,
  get_elem?-append_left, length-append, >>=-cong,
}
use toyblockchain.Prelude.Int.{ℤ, pos, negsuc, ◌-ℤ◌, -ℤ_parts, ◌≤ℤ◌, ◌<ℤ◌, leb_ℤ}
use toyblockchain.Prelude.Int64.{sub64, IsInt64, sub64_nonneg, sub64-eq--ℤ}
use toyblockchain.Block.Types.{Transaction, Block}
use toyblockchain.Chain.Types.{Chain, RetargetConfig, DifficultyRule}
use toyblockchain.Chain.Retarget.{retarget_difficulty, block_at}
use toyblockchain.Chain.Difficulty.{
  default_difficulty, sort_rules, initial_rules, false, expected_difficulty, Progress, rules_at,
  start_progress, retarget_at, difficulty_step, walk_heights,
}

-- An interval that `int` can hold and `RetargetConfig.Validate` accepts.
abbrev pub IsUsable : RetargetConfig → Type 0
IsUsable r = (pos 2 ≤ℤ r.interval) × IsInt64 r.interval

block_at-append :
    (bs cs : List Block) (i : ℤ) → i <ℤ pos (length bs) → block_at (bs ++ cs) i ≡ block_at bs i
unfolding block_at
block_at-append bs cs (pos i) h = rw (get_elem?-append_left bs cs i (omega arith)) refl
block_at-append bs cs (negsuc i) h = refl

difference-IsInt64 : (n : ℕ) (i : ℤ) → n < 2 ^ 63 → pos 2 ≤ℤ i → IsInt64 i → IsInt64 (pos n -ℤ i)
unfolding ◌-ℤ◌
difference-IsInt64 n i hn h2 hi = ground arith

window_start-bound :
    (n : ℕ) (i : ℤ) → n < 2 ^ 63 → pos 2 ≤ℤ i → IsInt64 i → sub64 (pos n) i <ℤ pos n
window_start-bound n i hn h2 hi =
    rw (sub64-eq--ℤ (pos n) i (difference-IsInt64 n i hn h2 hi)) (omega (arith, -ℤ_parts (pos n) i))

-- The window of a height lies below it: later blocks do not matter.
pub retarget_difficulty-append :
    (r : RetargetConfig) (bs cs : List Block) (n : ℕ) (current : ℤ)
    → IsUsable r
    → length bs < 2 ^ 63
    → 0 < n
    → n ≤ length bs
    → retarget_difficulty r (bs ++ cs) (pos n) current ≡ retarget_difficulty r bs (pos n) current
unfolding retarget_difficulty
retarget_difficulty-append r bs cs n current usable small h0 h =
    let e : sub64 (pos n) (pos 1) ≡ pos (n - 1) =
      sub64_nonneg (pos n) (pos 1) refl refl (omega arith) (omega arith) in
    let start = window_start-bound n r.interval (omega arith) usable.0 usable.1 in
    let long : leb_ℤ (pos (length (bs ++ cs))) (pos (n - 1)) ≡ false =
      ground (arith, length-append bs cs) in
    let short : leb_ℤ (pos (length bs)) (pos (n - 1)) ≡ false = ground arith in
    let first = block_at-append bs cs (sub64 (pos n) r.interval) (omega arith) in
    let last = block_at-append bs cs (pos (n - 1)) (omega arith) in
    rw (e, first, last, long, short) refl

difficulty_step-agree :
    (c c' : Chain) (height : ℤ) (g : Progress)
    → ((d : ℤ) → retarget_at c height d ≡ retarget_at c' height d)
    → difficulty_step c height g ≡ difficulty_step c' height g
unfolding difficulty_step
difficulty_step-agree c c' height g agree = rw (agree g.current) refl

-- The loop gives the same for two chains that retarget alike at the heights that it passes.
pub walk_heights-agree :
    (c c' : Chain) (count h : ℕ) (rules : List DifficultyRule) (current : ℤ)
    → ((k : ℕ)
        → h ≤ k
        → k < h + count
        → (d : ℤ) → retarget_at c (pos k) d ≡ retarget_at c' (pos k) d)
    → walk_heights c count h rules current ≡ walk_heights c' count h rules current
unfolding walk_heights
walk_heights-agree c c' zero h rules current agree = refl
walk_heights-agree c c' (suc count) h rules current agree =
    let g = rules_at (pos h) rules (start_progress current) in
    let here = difficulty_step-agree c c' (pos h) g (agree h (omega arith) (omega arith)) in
    rw here (
      >>=-cong (difficulty_step c' (pos h) g) (λ next. walk_heights c count (suc h) g.rules next)
        (λ next. walk_heights c' count (suc h) g.rules next)
        (λ next same.
          walk_heights-agree c c' count (suc h) g.rules next
            (λ k low high. agree k (omega arith) (omega arith))))

module _ (c : Chain) (bs : List Block) (txs : List Transaction) where
  -- A longer chain with the same rules.
  abbrev pub longer : Chain
  longer = record c { blocks = c.blocks ++ bs; pending = txs }

  retarget_at-append :
      (n : ℕ) (d : ℤ)
      → IsUsable c.retarget
      → length c.blocks < 2 ^ 63
      → 0 < n
      → n ≤ length c.blocks
      → retarget_at longer (pos n) d ≡ retarget_at c (pos n) d
  unfolding retarget_at
  retarget_at-append n d usable small h0 h =
      rw (retarget_difficulty-append c.retarget c.blocks bs n d usable small h0 h) refl

  -- New blocks leave the difficulty of the next height, and of those before, as it was.
  pub expected_difficulty-append :
      (n : ℕ)
      → IsUsable c.retarget
      → length c.blocks < 2 ^ 63
      → n ≤ length c.blocks
      → expected_difficulty longer (pos n) ≡ expected_difficulty c (pos n)
  unfolding expected_difficulty
  expected_difficulty-append n usable small h =
      let rules = sort_rules c.difficulty_schedule in
      let g = initial_rules rules (start_progress default_difficulty) in
      walk_heights-agree longer c n 1 g.rules g.current
        (λ k low high d. retarget_at-append k d usable small (omega arith) (omega arith))

-- The pending pool has no say.
pub expected_difficulty-pending :
    (c : Chain) (txs : List Transaction) (h : ℤ)
    → expected_difficulty (record c { pending = txs }) h ≡ expected_difficulty c h
unfolding expected_difficulty retarget_at
expected_difficulty-pending c txs (negsuc n) = refl
expected_difficulty-pending c txs (pos n) =
    let rules = sort_rules c.difficulty_schedule in
    let g = initial_rules rules (start_progress default_difficulty) in
    walk_heights-agree (record c { pending = txs }) c n 1 g.rules g.current (λ k low high d. refl)
