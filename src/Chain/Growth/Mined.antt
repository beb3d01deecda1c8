-- ===== src/Chain/Growth/Mined.antt =====
-- What `MineBlock` does when it succeeds (chain/chain.go).
use toyblockchain.Prelude.{
  ◌^◌, ◌<◌, err, is_empty, Result, fail_if, ℕ, ◌≡◌, refl, ap, ◌∙◌, sym, arith, Option, none, some,
  List, [], ◌∷◌, ◌++◌, length, ok, take, drop, >>=-eq-ok,
}
use toyblockchain.Prelude.Int.{ℤ, pos}
use toyblockchain.Prelude.Int64.{add64}
use toyblockchain.Platform.{Platform}
use toyblockchain.Block.Types.{Block}
use toyblockchain.Block.Create.{new_block}
use toyblockchain.Block.Mine.{MiningLimits, MiningError, Event, worker_count, mine}
use toyblockchain.Block.Mine.Outcomes.{mine_sound}
use toyblockchain.Chain.Types.{latest, no_pending_transactions, Chain, ChainError, last_block}
use toyblockchain.Chain.Difficulty.{expected_difficulty}
use toyblockchain.Chain.Methods.{batch_size, mine_block, prepare_block, with_mined, append_block}
use toyblockchain.Chain.Validation.Exact.{IsSealed}

module _ (p : Platform) where
  -- What `MineBlock` has done when it succeeds.
  pub record Mined (c c' : Chain) (clock : ℤ) (b : Block) : Type 0 where
    pub count : ℕ
    pub previous : Block
    pub last : last_block c.blocks ≡ ok previous
    pub target : expected_difficulty c b.height ≡ ok b.difficulty
    pub sealed : IsSealed p b
    pub height : b.height ≡ add64 previous.height (pos 1)
    pub timestamp : b.timestamp ≡ clock
    pub transactions : b.transactions ≡ take count c.pending
    pub prev_hash : b.prev_hash ≡ previous.hash
    pub result : c' ≡ record c { blocks = c.blocks ++ b ∷ []; pending = drop count c.pending }

  pub with_mined-ok :
      {A : Type 0} (r : Option (Result MiningError Block)) (f : Block → A) (a : A)
      → with_mined r f ≡ some (ok a)
      → (b : Block) × (r ≡ some (ok b)) × (a ≡ f b)
  unfolding with_mined
  with_mined-ok none f a e = cc
  with_mined-ok (some (err x)) f a e = cc
  with_mined-ok (some (ok b)) f a e = (b, refl, cc)

  pub record Prepared (c : Chain) (clock : ℤ) (count : ℕ) (b : Block) : Type 0 where
    pub previous : Block
    pub difficulty : ℤ
    pub last : last_block c.blocks ≡ ok previous
    pub target : expected_difficulty c (add64 previous.height (pos 1)) ≡ ok difficulty
    pub header :
        b
        ≡ new_block p clock
            (add64 previous.height (pos 1))
            (take count c.pending)
            previous.hash
            difficulty

  prepared-eq :
      (c : Chain) (clock : ℤ) (n count : ℕ) (a : Block) (d : ℤ) (b : Block)
      → let h = add64 a.height (pos 1) in
        ◌≡◌ {A = Result ChainError (ℕ × Block)}
          (ok (n, new_block p clock h (take n c.pending) a.hash d))
          (ok (count, b))
        → b ≡ new_block p clock (add64 a.height (pos 1)) (take count c.pending) a.hash d
  prepared-eq c clock n count a d b e = let same : n ≡ count = cc e in rw (sym same) (cc e)

  prepare_block-Prepared :
      (c : Chain) (clock : ℤ) (count : ℕ) (b : Block)
      → prepare_block p c clock ≡ ok (count, b)
      → Prepared c clock count b
  unfolding prepare_block
  prepare_block-Prepared c clock count b e =
      let (u, full, e1) = >>=-eq-ok (fail_if (is_empty c.pending) no_pending_transactions) _ e in
      let (n, size, e2) = >>=-eq-ok (batch_size c.max_tx_per_block (length c.pending)) _ e1 in
      let (a, last, e3) = >>=-eq-ok (latest c) _ e2 in
      let (d, target, e4) = >>=-eq-ok (expected_difficulty c (add64 a.height (pos 1))) _ e3 in
      record {
        previous = a;
        difficulty = d;
        last = last;
        target = target;
        header = prepared-eq c clock n count a d b e4;
      }

  mined_lem :
      (c : Chain) (clock : ℤ) (count : ℕ) (header : Block) (limits : MiningLimits) (n : ℕ)
      (events : List Event) (b : Block)
      → n < 2 ^ 64
      → Prepared c clock count header
      → mine p header limits n events ≡ some (ok b)
      → Mined c (append_block p c count b).0 clock b
  unfolding new_block
  mined_lem c clock count header limits n events b few prepared mined =
      let (digest, work, range, shape) = mine_sound p header limits n few events b mined in
      let shape' : b
          ≡ record (new_block p clock (add64 prepared.previous.height (pos 1))
              (take count c.pending) prepared.previous.hash prepared.difficulty) {
                nonce = b.nonce;
                hash = b.hash;
              } =
        shape
        ∙ ap {A = Block} {B = Block} (λ x. record x { nonce = b.nonce; hash = b.hash })
            prepared.header in
      let transactions : b.transactions ≡ take count c.pending = ap Block.transactions shape' in
      let height : b.height ≡ add64 prepared.previous.height (pos 1) = ap Block.height shape' in
      let difficulty : b.difficulty ≡ prepared.difficulty = ap Block.difficulty shape' in
      record {
        count = count;
        previous = prepared.previous;
        last = prepared.last;
        target = rw (height, difficulty) prepared.target;
        sealed = record {
          root = ap Block.merkle_root shape' ∙ rw transactions refl;
          digest = digest;
          work = work;
        };
        height = height;
        timestamp = ap Block.timestamp shape';
        transactions = transactions;
        prev_hash = ap Block.prev_hash shape';
        result = refl;
      }

  -- A block that is mined is the one that was prepared, sealed.
  pub mine_block-Mined :
      (c c' : Chain) (clock : ℤ) (limits : MiningLimits) (cpus : ℤ) (events : List Event)
      (b : Block)
      → worker_count limits cpus < 2 ^ 64
      → mine_block p c clock limits cpus events ≡ some (ok (c', b))
      → Mined c c' clock b
  unfolding mine_block
  mine_block-Mined c c' clock limits cpus events b few e = go (prepare_block p c clock) refl
    where
      go : (r : Result ChainError (ℕ × Block)) → prepare_block p c clock ≡ r → Mined c c' clock b
      go (err x) f = absurd (ground arith)
      go (ok (count, header)) f =
          let mining : with_mined (mine p header limits (worker_count limits cpus) events)
                (append_block p c count)
              ≡ some (ok (c', b)) =
            ground arith in
          let (b', mined, same) = with_mined-ok _ (append_block p c count) (c', b) mining in
          let same_block : b ≡ b' = ap (λ x. x.1) same in
          let same_chain : c' ≡ (append_block p c count b').0 = ap (λ x. x.0) same in
          rw (same_chain, same_block)
            (mined_lem c clock count header limits (worker_count limits cpus) events b' few
              (prepare_block-Prepared c clock count header f) mined)
