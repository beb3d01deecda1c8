-- ===== src/Chain/Fork/Pool.antt =====
-- What `revalidatePending` keeps (chain/fork.go).
use toyblockchain.Prelude.{
  ℕ, ◌+◌, ◌≡◌, refl, ap, sym, ◌∙◌, inl, inr, Bool-cases, List, [], ◌∷◌, ◌++◌, length, length-append,
  Result, ok, err, wrap_err, >>=-eq-ok, arith,
}
use toyblockchain.Platform.{Platform}
use toyblockchain.Block.Types.{Transaction}
use toyblockchain.Ledger.{validate_transaction}
use toyblockchain.Chain.Types.{Chain, ChainError, rebuilding_ledger, invalid_pending_pool, rejected}
use toyblockchain.Chain.Methods.{add_transaction, apply_pool, chain_ledger}
use toyblockchain.Chain.Difficulty.Stable.{expected_difficulty-pending}
use toyblockchain.Chain.Validation.Exact.{IsValid}
use toyblockchain.Chain.Growth.Blocks.{AreValid-alike}
use toyblockchain.Chain.Growth.Live.{IsLive, add_transaction-IsLive}
use toyblockchain.Chain.Fork.{
  Revalidation, contains, transaction_identifier, count_added, revalidate_one, revalidate,
}
use toyblockchain.Prelude.Int64.{IsInt64}
use toyblockchain.Prelude.{none}

module _ (p : Platform) where
  -- The one write of `AddTransaction`.
  pub add_transaction-eq :
      (c c' : Chain) (tx : Transaction)
      → add_transaction p c tx ≡ ok c'
      → c' ≡ record c { pending = c.pending ++ tx ∷ [] }
  unfolding add_transaction
  add_transaction-eq c c' tx e =
      let (l, f, e1) = >>=-eq-ok (wrap_err rebuilding_ledger (chain_ledger p c)) _ e in
      let (m, g, e2) = >>=-eq-ok (wrap_err invalid_pending_pool (apply_pool p c.pending l)) _ e1 in
      let (u, h, e3) = >>=-eq-ok (wrap_err rejected (validate_transaction p m tx)) _ e2 in cc e3

  -- From one state of the loop to another, `n` transactions later.
  pub record Kept (s t : Revalidation) (n : ℕ) : Type 0 where
    pub counted : t.kept + t.dropped ≡ s.kept + s.dropped + n
    pub grown : length t.target.pending + s.kept ≡ length s.target.pending + t.kept
    pub others : t.target ≡ record s.target { pending = t.target.pending }
    pub live : IsLive p s.target → IsLive p t.target

  Kept-trans : (s t u : Revalidation) (n m : ℕ) → Kept s t n → Kept t u m → Kept s u (n + m)
  Kept-trans s t u n m a b = record {
    counted = omega (arith, a.counted, b.counted);
    grown = omega (arith, a.grown, b.grown);
    others = b.others ∙ ap (λ (c : Chain). record c { pending = u.target.pending }) a.others;
    live = λ l. b.live (a.live l);
  }

  count_added-Kept :
      (s : Revalidation) (tx : Transaction) (r : Result ChainError Chain)
      → add_transaction p s.target tx ≡ r
      → Kept s (count_added p s r) 1
  unfolding count_added
  count_added-Kept s tx (err x) e = record {
    counted = omega arith;
    grown = omega arith;
    others = refl;
    live = λ l. l;
  }
  count_added-Kept s tx (ok c) e =
      let same : c ≡ record s.target { pending = s.target.pending ++ tx ∷ [] } =
        add_transaction-eq s.target c tx e in
      let pool : c.pending ≡ s.target.pending ++ tx ∷ [] = ap Chain.pending same in
      record {
        counted = omega arith;
        grown = omega (
          arith,
          ap (length {0} {A = Transaction}) pool,
          length-append {0} {A = Transaction} s.target.pending (tx ∷ []),
        );
        others =
            same ∙ ap (λ (txs : List Transaction). record s.target { pending = txs }) (sym pool);
        live = λ l. (add_transaction-IsLive p s.target c tx l e).0;
      }

  revalidate_one-Kept : (s : Revalidation) (tx : Transaction) → Kept s (revalidate_one p s tx) 1
  unfolding revalidate_one
  revalidate_one-Kept s tx =
      let seen' = transaction_identifier p tx ∷ s.seen in
      let added =
        count_added-Kept (record s { seen = seen' }) tx (add_transaction p s.target tx) refl in
      elim (Bool-cases (contains (transaction_identifier p tx) s.seen)) [
        | inl e ↦
            rw e
              (record { counted = omega arith; grown = omega arith; others = refl; live = λ l. l })
        | inr e ↦ rw e (record {
          counted = added.counted;
          grown = added.grown;
          others = added.others;
          live = added.live;
        })
      ]

  pub revalidate-Kept :
      (txs : List Transaction) (s : Revalidation) → Kept s (revalidate p txs s) (length txs)
  unfolding revalidate
  revalidate-Kept [] s = record {
    counted = omega arith;
    grown = omega arith;
    others = refl;
    live = λ l. l;
  }
  revalidate-Kept (tx ∷ txs) s =
      let first = revalidate_one-Kept s tx in
      let rest = revalidate-Kept txs (revalidate_one p s tx) in
      let whole =
        Kept-trans s (revalidate_one p s tx) (revalidate p txs (revalidate_one p s tx)) 1
          (length txs) first rest in
      record {
        counted = omega (arith, whole.counted);
        grown = whole.grown;
        others = whole.others;
        live = whole.live;
      }

  -- A valid chain without its pool is in use.
  pub cleared-IsLive :
      (c : Chain) → IsValid p c → IsInt64 c.retarget.interval → IsLive p (record c { pending = [] })
  unfolding apply_pool
  cleared-IsLive c valid interval = record {
    valid = record {
      has_blocks = valid.has_blocks;
      has_rules = valid.has_rules;
      config = valid.config;
      blocks =
          AreValid-alike p c (record c { pending = [] }) none c.blocks
            (expected_difficulty-pending c []) valid.blocks;
      final = valid.final;
      replayed = valid.replayed;
    };
    pooled = valid.final;
    replayable = refl;
    interval = interval;
  }
