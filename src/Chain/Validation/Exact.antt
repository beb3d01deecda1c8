-- ===== src/Chain/Validation/Exact.antt =====
-- What `Chain.Validate` accepts (chain/chain.go).
use toyblockchain.Prelude.{
  ◌∙◌, >>-ok_iff, is_empty_iff, ◌>>◌, sym, ◌≡◌, ◌≢◌, refl, ◌↔◌, true, Option, none, some, List, [],
  ◌∷◌, Result, ok, err, arith, >>=-eq-ok,
}
use toyblockchain.Prelude.Int.{ℤ, pos, ◌≤ℤ◌, eqb_ℤ_iff}
use toyblockchain.Prelude.Int64.{add64}
use toyblockchain.Prelude.Bytes.{bytes_eq_iff}
use toyblockchain.Platform.{Platform}
use toyblockchain.Block.Types.{Block, genesis_prev_hash}
use toyblockchain.Block.Hash.{compute_hash, meets_difficulty}
use toyblockchain.Block.Merkle.{calculate_merkle_root}
use toyblockchain.Ledger.{Ledger, LedgerError, apply_block, replay, rebuild, new}
use toyblockchain.Chain.Types.{Chain, RetargetConfig}
use toyblockchain.Chain.Retarget.{validate_config}
use toyblockchain.Chain.Difficulty.{expected_difficulty}
use toyblockchain.Chain.Validation.{
  check_link, check_seal, check_block, check_blocks, validate_chain,
}

pub validate_config_iff :
    (r : RetargetConfig)
    → (validate_config r ≡ ok tt) ↔ (
        (pos 2 ≤ℤ r.interval)
        × (pos 1 ≤ℤ r.target_block_seconds)
        × (pos 0 ≤ℤ r.min_difficulty)
        × (r.min_difficulty ≤ℤ r.max_difficulty)
        × (r.max_difficulty ≤ℤ pos 64))
unfolding validate_config
validate_config_iff r = ground arith

-- A block's place: at the start of a chain, or after a block.
abbrev pub IsLinked : Option Block → Block → Type 0
IsLinked none b = (b.height ≡ pos 0) × (b.prev_hash ≡ genesis_prev_hash)
IsLinked (some a) b =
    (b.height ≡ add64 a.height (pos 1)) × (a.timestamp ≤ℤ b.timestamp) × (b.prev_hash ≡ a.hash)

pub check_link_iff :
    (previous : Option Block) (b : Block) → (check_link previous b ≡ ok tt) ↔ IsLinked previous b
unfolding check_link
check_link_iff none b =
    ground (arith, eqb_ℤ_iff b.height (pos 0), bytes_eq_iff b.prev_hash genesis_prev_hash)
check_link_iff (some a) b =
    ground (arith, eqb_ℤ_iff b.height (add64 a.height (pos 1)), bytes_eq_iff b.prev_hash a.hash)

module _ (p : Platform) where
  -- A block's own data: its transactions make its Merkle root, its header its hash, and the hash has
  -- the work that the difficulty asks for.
  pub record IsSealed (b : Block) : Type 0 where
    pub root : b.merkle_root ≡ calculate_merkle_root p b.transactions
    pub digest : b.hash ≡ compute_hash p b
    pub work : meets_difficulty b.hash b.difficulty ≡ true

  check_seal_iff :
      (expected : ℤ) (b : Block)
      → (check_seal p expected b ≡ ok tt) ↔ ((b.difficulty ≡ expected) × IsSealed b)
  unfolding check_seal
  check_seal_iff expected b = (
    λ h. (
      ground (arith, eqb_ℤ_iff b.difficulty expected),
      record {
        root =
            (bytes_eq_iff b.merkle_root (calculate_merkle_root p b.transactions)).0 (ground arith);
        digest = sym ((bytes_eq_iff (compute_hash p b) b.hash).0 (ground arith));
        work = ground (arith, eqb_ℤ_iff b.difficulty expected);
      },
    ),
    λ v.
        let same = (eqb_ℤ_iff b.difficulty expected).1 v.0 in
        let root =
          (bytes_eq_iff b.merkle_root (calculate_merkle_root p b.transactions)).1 (v.1.root) in
        let digest = (bytes_eq_iff (compute_hash p b) b.hash).1 (sym v.1.digest) in
        let work : meets_difficulty b.hash expected ≡ true = rw (sym v.0) v.1.work in
        rw (same, root, digest, work) refl,
  )

  pub record IsValidBlock (c : Chain) (previous : Option Block) (b : Block) : Type 0 where
    pub target : expected_difficulty c b.height ≡ ok b.difficulty
    pub sealed : IsSealed b
    pub linked : IsLinked previous b

  pub check_block_iff :
      (c : Chain) (previous : Option Block) (b : Block)
      → (check_block p c previous b ≡ ok tt) ↔ IsValidBlock c previous b
  unfolding check_block
  check_block_iff c previous b = (
    λ h.
        let (d, target, rest) = >>=-eq-ok (expected_difficulty c b.height) _ h in
        let (u, seal, link) = >>=-eq-ok (check_seal p d b) _ rest in
        let (same, sealed) = (check_seal_iff d b).0 seal in
        record {
          target = rw same target;
          sealed = sealed;
          linked = (check_link_iff previous b).0 link;
        },
    λ v.
        rw (v.target, (check_seal_iff b.difficulty b).1 (refl, v.sealed))
          ((check_link_iff previous b).1 v.linked),
  )

  -- Every block is valid after the one before it.
  abbrev pub AreValid : Chain → Option Block → List Block → Type 0
  AreValid c previous [] = Unit
  AreValid c previous (b ∷ bs) = IsValidBlock c previous b × AreValid c (some b) bs

  check_blocks_iff_cons :
      (c : Chain) (previous : Option Block) (b : Block) (bs : List Block) (l : Ledger)
      → ((m : Ledger)
          → (check_blocks p c (some b) bs m ≡ ok tt)
            ↔ (AreValid c (some b) bs × (l' : Ledger) × (replay p bs m ≡ ok l')))
      → (check_blocks p c previous (b ∷ bs) l ≡ ok tt)
        ↔ (AreValid c previous (b ∷ bs) × (l' : Ledger) × (replay p (b ∷ bs) l ≡ ok l'))
  unfolding check_blocks replay
  check_blocks_iff_cons c previous b bs l later = go (apply_block p l b) refl
    where
      accepted :
          (m : Ledger)
          → apply_block p l b ≡ (m, ok tt)
          → check_blocks p c previous (b ∷ bs) l
            ≡ (check_block p c previous b >> check_blocks p c (some b) bs m)
      accepted m e = rw e refl

      replay-accepted :
          (m : Ledger) → apply_block p l b ≡ (m, ok tt) → replay p (b ∷ bs) l ≡ replay p bs m
      replay-accepted m e = ground arith

      replay-rejected :
          (m : Ledger) (x : LedgerError)
          → apply_block p l b ≡ (m, err x)
          → replay p (b ∷ bs) l ≡ err x
      replay-rejected m x e = ground arith

      go :
          (r : Ledger × Result LedgerError (Unit {0}))
          → apply_block p l b ≡ r
          → (check_blocks p c previous (b ∷ bs) l ≡ ok tt)
            ↔ (AreValid c previous (b ∷ bs) × (l' : Ledger) × (replay p (b ∷ bs) l ≡ ok l'))
      go (m, ok u) e = (
        λ h.
            let (here, tail) =
              (>>-ok_iff _ (check_blocks p c (some b) bs m) tt).0 (sym (accepted m e) ∙ h) in
            let (valid, l', replayed) = (later m).0 tail in
            (((check_block_iff c previous b).0 here, valid), l', replay-accepted m e ∙ replayed),
        λ v.
            let here = (check_block_iff c previous b).1 v.0.0 in
            let replayed : replay p bs m ≡ ok v.1 = sym (replay-accepted m e) ∙ v.2 in
            let tail = (later m).1 (v.0.1, v.1, replayed) in rw (here, e) tail,
      )
      go (m, err x) e = (
        λ h. absurd (ground arith),
        λ v. let none_left : err x ≡ ok v.1 = sym (replay-rejected m x e) ∙ v.2 in cc,
      )

  pub check_blocks_iff :
      (c : Chain) (previous : Option Block) (bs : List Block) (l : Ledger)
      → (check_blocks p c previous bs l ≡ ok tt)
        ↔ (AreValid c previous bs × (l' : Ledger) × (replay p bs l ≡ ok l'))
  unfolding check_blocks replay
  check_blocks_iff c previous [] l = (λ h. (tt, l, refl), λ v. refl)
  check_blocks_iff c previous (b ∷ bs) l =
      check_blocks_iff_cons c previous b bs l (check_blocks_iff c (some b) bs)

  -- A chain that is valid: blocks, rules and a policy, every block valid after the one before it, and
  -- all transactions accepted in order.
  pub record IsValid (c : Chain) : Type 0 where
    pub has_blocks : c.blocks ≢ []
    pub has_rules : c.difficulty_schedule ≢ []
    pub config : validate_config c.retarget ≡ ok tt
    pub blocks : AreValid c none c.blocks
    pub final : Ledger
    pub replayed : rebuild p c.blocks ≡ ok final

  -- `Validate` accepts a chain exactly when it has blocks, rules and a valid policy, every block is
  -- sealed, has the difficulty expected at its height and follows the block before it, and all
  -- transactions are accepted in order.
  pub validate_chain_iff : (c : Chain) → (validate_chain p c ≡ ok tt) ↔ IsValid c
  unfolding validate_chain rebuild
  validate_chain_iff c = (
    λ h.
        let (valid, final, replayed) = (check_blocks_iff c none c.blocks new).0 (ground arith) in
        record {
          has_blocks = (is_empty_iff c.blocks).0 (ground arith);
          has_rules = (is_empty_iff c.difficulty_schedule).0 (ground arith);
          config = ground arith;
          blocks = valid;
          final = final;
          replayed = replayed;
        },
    λ v.
        let passed = (check_blocks_iff c none c.blocks new).1 (v.blocks, v.final, v.replayed) in
        rw
          (
            (is_empty_iff c.blocks).1 v.has_blocks,
            (is_empty_iff c.difficulty_schedule).1 v.has_rules,
            v.config,
          )
          passed,
  )
