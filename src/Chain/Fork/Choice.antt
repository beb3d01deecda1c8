-- ===== src/Chain/Fork/Choice.antt =====
-- Which chain `ResolveFork` leaves (chain/fork.go).
use toyblockchain.Prelude.{
  ◌+◌, ◌<◌, ◌≡◌, ◌≢◌, refl, ap, sym, ◌∙◌, ◌↔◌, List, [], ◌∷◌, ◌++◌, length, length-append, ok, ◌>>◌,
  >>=-eq-ok, arith,
}
use toyblockchain.Prelude.Int64.{IsInt64}
use toyblockchain.Platform.{Platform}
use toyblockchain.Block.Types.{Block, Transaction}
use toyblockchain.Chain.Types.{Chain, latest, last_of}
use toyblockchain.Chain.Validation.Exact.{validate_chain_iff}
use toyblockchain.Chain.Growth.Live.{IsLive}
use toyblockchain.Chain.Fork.{
  ChainJson, ForkResolutionResult, Revalidation, check_fork, resolve_fork, adopt,
  revalidate_pending, total_work,
}
use toyblockchain.Chain.Fork.Pool.{Kept, revalidate-Kept, cleared-IsLive}
use toyblockchain.Ledger.{Ledger, rebuild}
use toyblockchain.Chain.Fork.Survivors.{survivors, revalidate_pending-survivors}
use toyblockchain.Chain.Fork.Work.{IsStronger, check_fork_iff}

pub latest-ok : (c : Chain) → c.blocks ≢ [] → (b : Block) × (latest c ≡ ok b)
latest-ok c some_blocks = go c.blocks refl
  where
    go : (bs : List Block) → c.blocks ≡ bs → (b : Block) × (latest c ≡ ok b)
    go [] e = absurd (some_blocks e)
    go (b ∷ bs) e = (last_of b bs, rw e refl)

module _ (p : Platform) (json : ChainJson) where
  -- A chain that survives `json.Marshal` and `json.Unmarshal`.
  abbrev pub IsEncodable : Chain → Type 0
  IsEncodable c = json.unmarshal (json.marshal c) ≡ ok c

  -- the pool of the chain that wins
  abbrev pub merged : Chain → Chain → Revalidation
  merged c d = revalidate_pending p (record d { pending = [] }) (d.pending ++ c.pending)

  merged-Kept :
      (c d : Chain)
      → Kept p
          (record { seen = []; target = record d { pending = [] }; kept = 0; dropped = 0 })
          (merged c d)
          (length (d.pending ++ c.pending))
  unfolding revalidate_pending
  merged-Kept c d =
      revalidate-Kept p (d.pending ++ c.pending)
        (record { seen = []; target = record d { pending = [] }; kept = 0; dropped = 0 })

  resolve_fork-run :
      (c d : Chain) (old new : Block)
      → IsEncodable d
      → latest c ≡ ok old
      → latest (merged c d).target ≡ ok new
      → resolve_fork p json c d ≡ (check_fork p c d >> ok (adopt p c d old new (merged c d)))
  unfolding resolve_fork
  resolve_fork-run c d old new encodable at at' = rw (encodable, at, at') refl

  resolve_fork-check :
      (c d : Chain) (r : Chain × ForkResolutionResult)
      → resolve_fork p json c d ≡ ok r
      → IsStronger p c d
  unfolding resolve_fork
  resolve_fork-check c d r e =
      let (u, passed, rest) = >>=-eq-ok (check_fork p c d) _ e in (check_fork_iff p c d).0 passed

  -- Two chains of which the first may be replaced by the second: the run.
  resolve_fork_lem :
      (c d : Chain)
      → IsEncodable d
      → IsStronger p c d
      → (old : Block) × (new : Block) × (resolve_fork p json c d
          ≡ ok (adopt p c d old new (merged c d)))
  resolve_fork_lem c d encodable v =
      let blocks : (merged c d).target.blocks ≡ d.blocks =
        ap Chain.blocks (merged-Kept c d).others in
      let (old, at) = latest-ok c ((validate_chain_iff p c).0 v.current_valid).has_blocks in
      let (new, at') =
        latest-ok (merged c d).target
          (λ e. ((validate_chain_iff p d).0 v.candidate_valid).has_blocks (sym blocks ∙ e)) in
      let passed = (check_fork_iff p c d).1 v in
      (old, new, resolve_fork-run c d old new encodable at at' ∙ rw passed refl)

  -- `ResolveFork` of a candidate that survives encoding succeeds exactly when both chains are valid,
  -- share their genesis block and their rules, and the candidate has more work.
  pub resolve_fork_iff :
      (c d : Chain)
      → IsEncodable d
      → ((r : Chain × ForkResolutionResult) × (resolve_fork p json c d ≡ ok r)) ↔ IsStronger p c d
  resolve_fork_iff c d encodable = (
    λ (r, e). resolve_fork-check c d r e,
    λ v.
        let (old, new, e) = resolve_fork_lem c d encodable v in
        (adopt p c d old new (merged c d), e),
  )

  -- What the chain has become after `ResolveFork`.
  pub record Replaced (c d c' : Chain) (r : ForkResolutionResult) : Type 0 where
    pub live : IsLive p c'
    pub blocks : c'.blocks ≡ d.blocks
    pub stronger : total_work c < total_work c'
    pub counted : r.pending_kept + r.pending_dropped ≡ length d.pending + length c.pending
    pub kept : length c'.pending ≡ r.pending_kept
    -- the balances and nonces of the candidate's blocks
    pub ledger : Ledger
    pub replayed : rebuild p d.blocks ≡ ok ledger
    pub pool : c'.pending ≡ survivors p ledger [] (d.pending ++ c.pending)
    pub rules : c' ≡ record d { pending = c'.pending }

  -- Where `ResolveFork` succeeds with a candidate that survives encoding and whose interval is an
  -- `int`, the chain becomes the candidate but for its pool. It has more work than before and is in
  -- use: its new pool can be replayed. The pool has, in order, those transactions of the candidate's
  -- pool and then of the old pool that have no SHA-256 of an earlier one and that are valid on the
  -- ledger of the candidate after the ones before them that are kept; their number is counted as kept,
  -- that of the others as dropped.
  pub resolve_fork-IsLive :
      (c d c' : Chain) (r : ForkResolutionResult)
      → IsEncodable d
      → IsInt64 d.retarget.interval
      → resolve_fork p json c d ≡ ok (c', r)
      → Replaced c d c' r
  unfolding adopt total_work
  resolve_fork-IsLive c d c' r encodable interval e =
      let v = resolve_fork-check c d (c', r) e in
      let (old, new, run) = resolve_fork_lem c d encodable v in
      let same : (c', r) ≡ adopt p c d old new (merged c d) = cc (e, run) in
      let chain : c' ≡ (merged c d).target = ap (λ (x : Chain × ForkResolutionResult). x.0) same in
      let kept : r.pending_kept ≡ (merged c d).kept =
        ap (λ (x : Chain × ForkResolutionResult). x.1.pending_kept) same in
      let dropped : r.pending_dropped ≡ (merged c d).dropped =
        ap (λ (x : Chain × ForkResolutionResult). x.1.pending_dropped) same in
      let m = merged-Kept c d in
      let valid = (validate_chain_iff p d).0 v.candidate_valid in
      let pending : length c'.pending ≡ length (merged c d).target.pending =
        ap (λ (x : Chain). length x.pending) chain in
      let blocks : c'.blocks ≡ d.blocks = ap Chain.blocks chain ∙ ap Chain.blocks m.others in
      record {
        live = rw chain (m.live (cleared-IsLive p d valid interval));
        blocks = blocks;
        stronger = rw blocks v.more_work;
        counted = omega (
          arith,
          m.counted,
          kept,
          dropped,
          length-append {0} {A = Transaction} d.pending c.pending,
        );
        kept = omega (arith, pending, m.grown, kept);
        ledger = valid.final;
        replayed = valid.replayed;
        pool =
            ap Chain.pending chain
            ∙ revalidate_pending-survivors p d valid.final (d.pending ++ c.pending) valid.replayed;
        rules =
            chain ∙ (m.others ∙ ap (λ (x : Chain). record d { pending = x.pending }) (sym chain));
      }
