-- ===== src/Chain/Growth/Accepting.antt =====
-- What `AddTransaction` accepts on a chain in use (chain/chain.go).
use toyblockchain.Prelude.{
  >>-ok_iff, ◌>>◌, ◌≡◌, refl, sym, ◌∙◌, [], ◌∷◌, ◌++◌, ok, wrap_err, wrap_err-ok,
}
use toyblockchain.Platform.{Platform}
use toyblockchain.Block.Types.{Transaction}
use toyblockchain.Ledger.{validate_transaction}
use toyblockchain.Chain.Types.{Chain, rejected}
use toyblockchain.Chain.Methods.{add_transaction, chain_ledger}
use toyblockchain.Chain.Growth.Live.{IsLive}

module _ (p : Platform) where
  -- On a chain in use, `AddTransaction` takes exactly what is valid after its pool.
  pub add_transaction-run :
      (c : Chain) (tx : Transaction) (live : IsLive p c)
      → validate_transaction p live.pooled tx ≡ ok tt
      → add_transaction p c tx ≡ ok (record c { pending = c.pending ++ tx ∷ [] })
  unfolding add_transaction chain_ledger
  add_transaction-run c tx live valid = rw (live.valid.replayed, live.replayable, valid) refl

  pub add_transaction-valid :
      (c c' : Chain) (tx : Transaction) (live : IsLive p c)
      → add_transaction p c tx ≡ ok c'
      → validate_transaction p live.pooled tx ≡ ok tt
  unfolding add_transaction chain_ledger
  add_transaction-valid c c' tx live e =
      let run : add_transaction p c tx ≡ (
          wrap_err rejected (validate_transaction p live.pooled tx)
          >> ok (record c { pending = c.pending ++ tx ∷ [] })) =
        rw (live.valid.replayed, live.replayable) refl in
      wrap_err-ok rejected _
        ((>>-ok_iff (wrap_err rejected (validate_transaction p live.pooled tx)) _ c').0
          (sym run ∙ e)).0
