-- ===== src/Examples/Mining.antt =====
-- Mining runs and what the theorems say of them.
use toyblockchain.Prelude.{ℕ, ◌<◌, ◌≡◌, refl, true, false, List, [], ◌∷◌, ◌++◌, arith, replicate}
use toyblockchain.Prelude.Int.{pos}
use toyblockchain.Prelude.Bytes.{hex_encode, has_prefix}
use toyblockchain.Block.Types.{Block}
use toyblockchain.Block.Hash.{compute_hash, meets_difficulty}
use toyblockchain.Block.Mine.{
  MiningLimits, Event, work, receive, see_workers_done, mine, is_hit, step,
}
use toyblockchain.Block.Mine.Invariant.{IsInRange}
use toyblockchain.Block.Mine.Outcomes.{mine_sound, mine_exhaustive, mine_first}
use toyblockchain.Examples.Toy.{toy}

-- With this header nonces 0 and 1 miss and nonce 2 hits.
abbrev header : Block
header = record {
  height = pos 1;
  timestamp = pos 100;
  transactions = [];
  merkle_root = [];
  prev_hash = 254 ∷ [];
  nonce = 0;
  difficulty = pos 1;
  hash = [];
}

abbrev wide : MiningLimits
wide = record { max_attempts = 0; max_nonce = 3; workers = pos 2 }

abbrev narrow : MiningLimits
narrow = record { max_attempts = 0; max_nonce = 1; workers = pos 2 }

abbrev mined : Block
mined = record header { nonce = 2; hash = replicate 64 b'0' }

-- Worker 0 of 2 misses with nonce 0, hits with nonce 2 and sends it.
abbrev lucky : List Event
lucky = work 1 ∷ replicate 9 (work 0) ++ receive ∷ []

-- Both workers go past the greatest nonce.
abbrev hopeless : List Event
hopeless = replicate 6 (work 0) ++ replicate 6 (work 1) ++ see_workers_done ∷ []

abbrev alone : List Event
alone = replicate 13 (work 0) ++ receive ∷ []

abbrev slow : List Event
slow = receive ∷ replicate 14 (work 0) ++ receive ∷ []

mine_sound_example :
    (mined.hash ≡ compute_hash toy mined)
    × (meets_difficulty mined.hash mined.difficulty ≡ true)
    × IsInRange toy header wide 2 2
    × (mined ≡ record header { nonce = 2; hash = mined.hash })
unfolding mine step compute_hash meets_difficulty has_prefix hex_encode
mine_sound_example = mine_sound toy header wide 2 (omega arith) lucky mined refl

mine_exhaustive_example : is_hit toy header narrow 2 1 ≡ false
unfolding mine step compute_hash meets_difficulty has_prefix hex_encode
mine_exhaustive_example =
    mine_exhaustive toy header narrow 2 (omega arith) hopeless 1 (omega arith) (omega arith) refl
      (omega arith, refl)

mine_first_example : ((k : ℕ) → k < 2 → is_hit toy header wide 1 k ≡ false) × (mined ≡ mined)
unfolding mine step compute_hash meets_difficulty has_prefix hex_encode
mine_first_example =
    mine_first toy header wide 1 (omega arith) alone slow mined mined refl refl refl
