-- ===== src/Ledger/Supply.antt =====
-- Conservation of money: the balances add up to what the faucet has minted, and none is negative.
use toyblockchain.Prelude.{
  ◌∙◌, ℕ, ◌+◌, ◌-◌, ◌≤◌, ◌<◌, ◌^◌, ◌≡◌, refl, inl, inr, Bool-cases, List, [], ◌∷◌, if◌then◌else◌,
  ok, arith, All,
}
use toyblockchain.Prelude.Int.{ℤ, pos, pos_part, neg_part, ◌≤ℤ◌}
use toyblockchain.Prelude.Int64.{sub64_nonneg, add64_nonneg}
use toyblockchain.Prelude.Bytes.{Bytes}
use toyblockchain.Prelude.Dict.{Dict, index, insert}
use toyblockchain.Platform.{Platform}
use toyblockchain.Block.Types.{Transaction, Block}
use toyblockchain.Ledger.{
  Ledger, new, balance, debit, credit, transfer, apply, apply_from, replay, rebuild,
}
use toyblockchain.Ledger.Accounts.{replay-cons, is_faucet, apply-Accepted, apply_from-cons}

-- The sum of the balances, where a negative one would count as 0.
abbrev pub total : Dict ℤ → ℕ
total [] = 0
total ((_, v) ∷ d) = pos_part v + total d

abbrev pub IsNonneg : Dict ℤ → Type 0
IsNonneg = All (λ e. neg_part e.1 ≡ 0)

-- The money that a batch creates.
abbrev pub minted : List Transaction → ℕ
minted [] = 0
minted (tx ∷ txs) = (if is_faucet tx then pos_part tx.amount else 0) + minted txs

total-insert :
    (d : Dict ℤ) (k : Bytes) (v : ℤ)
    → total (insert k v d) + pos_part (index d k (pos 0)) ≡ total d + pos_part v
unfolding insert index
total-insert [] k v = omega arith
total-insert ((j, w) ∷ d) k v = ground (arith, total-insert d k v)

insert-IsNonneg :
    (d : Dict ℤ) (k : Bytes) (v : ℤ) → IsNonneg d → neg_part v ≡ 0 → IsNonneg (insert k v d)
unfolding insert
insert-IsNonneg [] k v h p = (p, tt)
insert-IsNonneg ((j, w) ∷ d) k v h p = ground (arith, insert-IsNonneg d k v h.1 p)

index_bounds :
    (d : Dict ℤ) (k : Bytes)
    → IsNonneg d
    → (neg_part (index d k (pos 0)) ≡ 0) × (pos_part (index d k (pos 0)) ≤ total d)
unfolding index
index_bounds [] k h = omega arith
index_bounds ((j, w) ∷ d) k h = ground (arith, index_bounds d k h.1)

-- Every balance is at least 0, and together they are the supply.
pub record IsSolvent (l : Ledger) (supply : ℕ) : Type 0 where
  pub nonneg : IsNonneg l.balances
  pub adds_up : total l.balances ≡ supply

pub new-IsSolvent : IsSolvent new 0
new-IsSolvent = record { nonneg = tt; adds_up = refl }

pub balance_bounds :
    {l : Ledger} {s : ℕ} (a : Bytes)
    → IsSolvent l s
    → (neg_part (balance l a) ≡ 0) × (pos_part (balance l a) ≤ s)
unfolding balance
balance_bounds {l} a v = omega (arith, index_bounds l.balances a v.nonneg, v.adds_up)

total-insert-balance :
    (l : Ledger) (a : Bytes) (v : ℤ)
    → total (insert a v l.balances) + pos_part (balance l a) ≡ total l.balances + pos_part v
unfolding balance
total-insert-balance l a v = total-insert l.balances a v

IsSolvent-eq : {l : Ledger} {s t : ℕ} → IsSolvent l s → s ≡ t → IsSolvent l t
IsSolvent-eq v e = record { nonneg = v.nonneg; adds_up = v.adds_up ∙ e }

credit-IsSolvent :
    (l : Ledger) (tx : Transaction) (s : ℕ)
    → IsSolvent l s
    → pos 1 ≤ℤ tx.amount
    → s + pos_part tx.amount < 2 ^ 63
    → IsSolvent (credit l tx) (s + pos_part tx.amount)
unfolding credit
credit-IsSolvent l tx s v positive small =
    rw
      (add64_nonneg (balance l tx.recipient) tx.amount bounds.0 (ground arith)
        (omega (arith, bounds)))
      (record {
        nonneg = insert-IsNonneg l.balances tx.recipient _ v.nonneg refl;
        adds_up = omega (
          arith,
          v.adds_up,
          total-insert-balance l tx.recipient
              (pos (pos_part (balance l tx.recipient) + pos_part tx.amount)),
        );
      })
  where
    bounds : (neg_part (balance l tx.recipient) ≡ 0) × (pos_part (balance l tx.recipient) ≤ s)
    bounds = balance_bounds tx.recipient v

debit-IsSolvent :
    (l : Ledger) (tx : Transaction) (s : ℕ)
    → IsSolvent l s
    → pos 1 ≤ℤ tx.amount
    → tx.amount ≤ℤ balance l tx.sender
    → s < 2 ^ 63
    → IsSolvent (debit l tx) (s - pos_part tx.amount) × (pos_part tx.amount ≤ s)
unfolding debit
debit-IsSolvent l tx s v positive covered small =
    rw
      (sub64_nonneg (balance l tx.sender) tx.amount bounds.0 (ground arith) (ground (arith, bounds))
        (omega (arith, bounds)))
      (
        record {
          nonneg = insert-IsNonneg l.balances tx.sender _ v.nonneg refl;
          adds_up = ground (
            arith,
            v.adds_up,
            bounds,
            total-insert-balance l tx.sender
                (pos (pos_part (balance l tx.sender) - pos_part tx.amount)),
          );
        },
        ground (arith, bounds),
      )
  where
    bounds : (neg_part (balance l tx.sender) ≡ 0) × (pos_part (balance l tx.sender) ≤ s)
    bounds = balance_bounds tx.sender v

module _ (p : Platform) where
  apply-IsSolvent :
      (l l' : Ledger) (tx : Transaction) (s : ℕ)
      → apply p l tx ≡ (l', ok tt)
      → IsSolvent l s
      → s + minted (tx ∷ []) < 2 ^ 63
      → IsSolvent l' (s + minted (tx ∷ []))
  unfolding transfer
  apply-IsSolvent l l' tx s e v small =
      let (acc, same) = apply-Accepted p l l' tx e in
      rw same (elim (Bool-cases (is_faucet tx)) [
        | inl faucet ↦ rw faucet (
            IsSolvent-eq (credit-IsSolvent l tx s v acc.sound.positive (ground arith))
              (omega arith))
        | inr signed ↦
            let (paid, enough) =
              debit-IsSolvent l tx s v acc.sound.positive (acc.covered signed) (ground arith) in
            rw signed (
              IsSolvent-eq
                (credit-IsSolvent (debit l tx) tx (s - pos_part tx.amount) paid acc.sound.positive
                  (ground (arith, enough)))
                (omega (arith, enough)))
      ])

  -- An accepted batch keeps the ledger solvent, and adds to the supply exactly what its faucet
  -- transactions mint, as long as the supply stays in the range of `int64`.
  pub apply_from-IsSolvent :
      (h : ℤ) (i : ℕ) (txs : List Transaction) (l l' : Ledger) (s : ℕ)
      → IsSolvent l s
      → s + minted txs < 2 ^ 63
      → apply_from p h i txs l ≡ (l', ok tt)
      → IsSolvent l' (s + minted txs)
  apply_from-IsSolvent h i [] l l' s v small e =
      let same : l ≡ l' = unfold apply_from in cc e in rw (← same) (IsSolvent-eq v (omega arith))
  apply_from-IsSolvent h i (tx ∷ txs) l l' s v small e =
      let (m, f, g) = apply_from-cons p h i tx txs l l' e in
      IsSolvent-eq
        (apply_from-IsSolvent h (i + 1) txs m l' (s + minted (tx ∷ []))
          (apply-IsSolvent l m tx s f v (omega arith)) (omega arith) g)
        (omega arith)

  -- The money that a chain creates.
  abbrev pub minted_blocks : List Block → ℕ
  minted_blocks [] = 0
  minted_blocks (b ∷ bs) = minted b.transactions + minted_blocks bs

  replay-IsSolvent :
      (bs : List Block) (l l' : Ledger) (s : ℕ)
      → IsSolvent l s
      → s + minted_blocks bs < 2 ^ 63
      → replay p bs l ≡ ok l'
      → IsSolvent l' (s + minted_blocks bs)
  replay-IsSolvent [] l l' s v small e =
      let same : l ≡ l' = unfold replay in cc e in rw (← same) (IsSolvent-eq v (omega arith))
  replay-IsSolvent (b ∷ bs) l l' s v small e =
      let (m, f, g) = replay-cons p b bs l l' e in
      IsSolvent-eq
        (replay-IsSolvent bs m l' (s + minted b.transactions)
          (apply_from-IsSolvent b.height 0 b.transactions l m s v (omega arith) f) (omega arith) g)
        (omega arith)

  -- Money is conserved: in the ledger of a chain that mints less than 2 ^ 63 in all, no balance is
  -- negative, none exceeds what was minted, and the balances add up to it.
  pub rebuild_conserves :
      (bs : List Block) (l : Ledger)
      → minted_blocks bs < 2 ^ 63
      → rebuild p bs ≡ ok l
      → (total l.balances ≡ minted_blocks bs)
        × ((a : Bytes) → (pos 0 ≤ℤ balance l a) × (balance l a ≤ℤ pos (minted_blocks bs)))
  unfolding rebuild
  rebuild_conserves bs l small e =
      let v = replay-IsSolvent bs new l 0 new-IsSolvent (omega arith) e in
      (omega (arith, v.adds_up), λ a. omega (arith, balance_bounds a v))
