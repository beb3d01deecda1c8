-- ===== src/Chain/Growth/Blocks.antt =====
-- Valid blocks in a row: their heights, and a block more (chain/chain.go, `Validate`).
use toyblockchain.Prelude.{
  ℕ, suc, ◌+◌, ◌^◌, ◌<◌, ◌≡◌, refl, ap, ◌∙◌, sym, arith, Option, none, some, List, [], ◌∷◌, ◌++◌,
  length, ok,
}
use toyblockchain.Prelude.Int.{ℤ, pos}
use toyblockchain.Prelude.Int64.{add64, add64_nonneg}
use toyblockchain.Platform.{Platform}
use toyblockchain.Block.Types.{Block}
use toyblockchain.Ledger.{Ledger, replay, apply_block, apply_from}
use toyblockchain.Ledger.Accounts.{replay-cons}
use toyblockchain.Chain.Types.{Chain, last_block, last_of}
use toyblockchain.Chain.Difficulty.{expected_difficulty}
use toyblockchain.Chain.Validation.Exact.{IsLinked, IsValidBlock, AreValid}

-- The block after this one has height n.
abbrev pub IsBefore : Option Block → ℕ → Type 0
IsBefore none n = n ≡ 0
IsBefore (some a) n = (m : ℕ) × (n ≡ suc m) × (a.height ≡ pos m)

abbrev pub last_option : Option Block → List Block → Option Block
last_option previous [] = previous
last_option previous (b ∷ bs) = last_option (some b) bs

pub last_option-some : (b : Block) (bs : List Block) → last_option (some b) bs ≡ some (last_of b bs)
last_option-some b [] = refl
last_option-some b (a ∷ bs) = last_option-some a bs

pub last_option-last_block :
    (bs : List Block) (b : Block) → last_block bs ≡ ok b → last_option none bs ≡ some b
last_option-last_block [] b e = cc
last_option-last_block (a ∷ bs) b e =
    let same : last_of a bs ≡ b = cc e in last_option-some a bs ∙ ap some same

pub IsLinked-height :
    (previous : Option Block) (b : Block) (n : ℕ)
    → IsLinked previous b
    → IsBefore previous n
    → n < 2 ^ 63
    → b.height ≡ pos n
IsLinked-height none b n link before small = link.0 ∙ ap pos (sym before)
IsLinked-height (some a) b n link (m, next, at) small =
    let next_height : add64 (pos m) (pos 1) ≡ pos (m + 1) =
      add64_nonneg (pos m) (pos 1) refl refl (omega arith) in
    let same : m + 1 ≡ n = omega arith in rw (link.0, at, next_height, same) refl

module _ (p : Platform) where
  pub AreValid-last :
      (c : Chain) (previous : Option Block) (bs : List Block) (n : ℕ)
      → AreValid p c previous bs
      → IsBefore previous n
      → n + length bs < 2 ^ 63
      → IsBefore (last_option previous bs) (n + length bs)
  AreValid-last c previous [] n valid before small =
      let same : n + 0 ≡ n = omega arith in rw same before
  AreValid-last c previous (b ∷ bs) n valid before small =
      let height = IsLinked-height previous b n valid.0.linked before (omega arith) in
      let rest = AreValid-last c (some b) bs (suc n) valid.1 (n, refl, height) (omega arith) in
      let same : n + suc (length bs) ≡ suc n + length bs = omega arith in rw same rest

  -- Validity carries over to a chain that expects the same difficulties.
  pub AreValid-agree :
      (c c' : Chain) (previous : Option Block) (bs : List Block) (n : ℕ)
      → ((k : ℕ)
          → k < n + length bs
          → expected_difficulty c' (pos k) ≡ expected_difficulty c (pos k))
      → AreValid p c previous bs
      → IsBefore previous n
      → n + length bs < 2 ^ 63
      → AreValid p c' previous bs
  AreValid-agree c c' previous [] n agree valid before small = tt
  AreValid-agree c c' previous (b ∷ bs) n agree valid before small =
      let height = IsLinked-height previous b n valid.0.linked before (omega arith) in
      (
        record {
          target = rw height (agree n (omega arith) ∙ rw (sym height) valid.0.target);
          sealed = valid.0.sealed;
          linked = valid.0.linked;
        },
        AreValid-agree c c' (some b) bs (suc n) (λ k h. agree k (omega arith)) valid.1
            (n, refl, height) (omega arith),
      )

  pub AreValid-alike :
      (c c' : Chain) (previous : Option Block) (bs : List Block)
      → ((h : ℤ) → expected_difficulty c' h ≡ expected_difficulty c h)
      → AreValid p c previous bs
      → AreValid p c' previous bs
  AreValid-alike c c' previous [] alike valid = tt
  AreValid-alike c c' previous (b ∷ bs) alike (here, later) = (
    record { target = alike b.height ∙ here.target; sealed = here.sealed; linked = here.linked },
    AreValid-alike c c' (some b) bs alike later,
  )

  pub AreValid-append :
      (c : Chain) (previous : Option Block) (bs : List Block) (b : Block)
      → AreValid p c previous bs
      → IsValidBlock p c (last_option previous bs) b
      → AreValid p c previous (bs ++ b ∷ [])
  AreValid-append c previous [] b valid next = (next, tt)
  AreValid-append c previous (a ∷ bs) b valid next =
      (valid.0, AreValid-append c (some a) bs b valid.1 next)

  pub replay_step :
      (b : Block) (bs : List Block) (l m : Ledger)
      → apply_from p b.height 0 b.transactions l ≡ (m, ok tt)
      → replay p (b ∷ bs) l ≡ replay p bs m
  unfolding replay apply_block
  replay_step b bs l m e = ground arith

  pub replay-append :
      (bs cs : List Block) (l m : Ledger)
      → replay p bs l ≡ ok m
      → replay p (bs ++ cs) l ≡ replay p cs m
  unfolding replay apply_block
  replay-append [] cs l m e = let same : l ≡ m = cc e in rw same refl
  replay-append (b ∷ bs) cs l m e =
      let (k, f, g) = replay-cons p b bs l m e in
      replay_step b (bs ++ cs) l k f ∙ replay-append bs cs k m g
