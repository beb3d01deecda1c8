-- ===== src/Examples/Storage.antt =====
-- Saving a chain and taking the lock, and the theorems on them.
use toyblockchain.Prelude.{
  ℕ, ◌≡◌, ◌≢◌, refl, true, false, some, List, [], ◌∷◌, All, arith, Result, ok, err, wrap_err, ◌>>◌,
}
use toyblockchain.Prelude.Bytes.{Bytes, codes}
use toyblockchain.Chain.Validation.{validate_chain}
use toyblockchain.Chain.Storage.{Disk, SaveCalls, SaveError, loaded_invalid, load, save, save_text}
use toyblockchain.Chain.Storage.Atomic.{IsOldOrNew, Settled, save_atomic, save_settles, load-save}
use toyblockchain.Chain.Lock.{
  holding, LockEvent, begin, attempt, exit, lock_step, lock_run, nobody, Attempt, exists, LockError,
  acquire_file_lock,
}
use toyblockchain.Chain.Lock.Waiting.{acquire_file_lock_returns}
use toyblockchain.Chain.Lock.Exclusion.{lock_run-exclusive}
use toyblockchain.Chain.Lock.Stale.{lock_run-stale}
use toyblockchain.Examples.Toy.{toy}
use toyblockchain.Examples.Chains.{fresh, grown}
use toyblockchain.Examples.Forks.{toy_json, toy_text, grown-encodable}

abbrev path : Bytes
path = codes "c"

abbrev old_disk : Disk
old_disk = (path, toy_text fresh) ∷ (codes "w", []) ∷ []

abbrev pub all_well : SaveCalls
all_well = record {
  mkdir_all = true;
  open_file = true;
  write = true;
  sync = true;
  close = true;
  rename = true;
  remove_file = true;
  written = 0;
}

abbrev torn : SaveCalls
torn = record all_well { write = false }

torn-error : (save toy_json torn grown path old_disk).result ≡ err SaveError.writing_temporary
unfolding save save_text
torn-error = refl

saved : (save toy_json all_well grown path old_disk).result ≡ ok tt
unfolding save save_text
saved = refl

save_atomic_example :
    All (IsOldOrNew path (toy_text grown) old_disk) (save toy_json torn grown path old_disk).history
save_atomic_example = save_atomic toy_json torn grown path old_disk

save_settles_example :
    Settled path (toy_text grown) old_disk (save toy_json torn grown path old_disk)
save_settles_example = save_settles toy_json torn grown path old_disk

load-save_example :
    load toy toy_json true path (save toy_json all_well grown path old_disk).disk
    ≡ (wrap_err loaded_invalid (validate_chain toy grown) >> ok grown)
load-save_example = load-save toy toy_json all_well grown path old_disk grown-encodable saved

-- The lock file is there, the timeout is 150 milliseconds.
abbrev rounds : List Attempt
rounds =
    record { opened = exists; now = 1000 }
    ∷ record { opened = exists; now = 100002000 }
    ∷ record { opened = exists; now = 200004000 }
    ∷ []

waiting_example :
    (r : Result LockError (Unit {0})) × (acquire_file_lock 0 150000000 rounds ≡ some r)
waiting_example =
    acquire_file_lock_returns 0 150000000 rounds (omega arith, (omega arith, (omega arith, tt)))
      (omega arith)

abbrev contended : List LockEvent
contended = begin 1 ∷ begin 2 ∷ attempt 2 false ∷ attempt 1 false ∷ []

second-holds : (lock_run contended nobody).process 2 ≡ holding
unfolding lock_run lock_step
second-holds = refl

exclusion_example : ◌≡◌ {A = ℕ} 2 2
exclusion_example = lock_run-exclusive contended 2 2 second-holds second-holds

stale_lock_example :
    (lock_run
        (attempt 1 false ∷ begin 3 ∷ attempt 3 true ∷ [])
        (lock_step (exit 2) (lock_run contended nobody))).process
      1
    ≢ holding
stale_lock_example =
    lock_run-stale contended (attempt 1 false ∷ begin 3 ∷ attempt 3 true ∷ []) 2 1 second-holds
