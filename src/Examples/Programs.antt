-- ===== src/Examples/Programs.antt =====
-- A first run of the program: it makes a chain and queues a grant.
use toyblockchain.Prelude.{
  ◌≢◌, Option, ◌≡◌, refl, [], ◌∷◌, true, some, List, length, arith, Result, ok, err, if◌then◌else◌,
  sym, ◌∙◌, Bool-cases, inl, inr,
}
use toyblockchain.Prelude.Int.{pos}
use toyblockchain.Prelude.Bytes.{parse_int, Bytes, bytes_eq, codes}
use toyblockchain.Chain.Types.{Chain, RetargetConfig}
use toyblockchain.Chain.Methods.{new_with_retarget}
use toyblockchain.Chain.Growth.Live.{IsLive}
use toyblockchain.Chain.Fork.{ChainJson}
use toyblockchain.Chain.Storage.{Disk, LoadError, load, save, save_text, file_not_found}
use toyblockchain.Prelude.Dict.{lookup, insert, remove}
use toyblockchain.Prelude.Int64.{IsInt64, quot}
use toyblockchain.Chain.Retarget.{validate_config}
use toyblockchain.Chain.Lock.{acquire_file_lock, acquire_by}
use toyblockchain.Cli.Types.{Reply, answer, queued_grant}
use toyblockchain.Cli.Live.{HasChainCodec}
use toyblockchain.Cli.Run.{run, run_command, command_of}
use toyblockchain.Cli.Commands.{cmd_faucet, give}
use toyblockchain.Program.{
  MainError, retarget_config, create_chain, saved_chain, finish, with_lock, work_on, Flags,
  Surroundings, main, application, open_chain,
}
use toyblockchain.Program.Reuse.{IsReusable}
use toyblockchain.Program.Persistence.{CanRun, Opens, locked, main-IsReusable}
use toyblockchain.Examples.Toy.{toy, bob}
use toyblockchain.Examples.Chains.{fresh-created, grant-pooled, fresh, pooled, no_limits, at_once}
use toyblockchain.Examples.Storage.{all_well}
use toyblockchain.Examples.Commands.{env, toy_wallets, ready}

abbrev text_of : Chain → Bytes
text_of c = length c.blocks ∷ length c.pending ∷ []

unfoldable chain_of : Bytes → Result (Unit {0}) Chain
chain_of s =
    if bytes_eq s (1 ∷ 0 ∷ [])
    then ok fresh
    else if bytes_eq s (1 ∷ 1 ∷ [])
    then ok pooled
    else err tt

abbrev json : ChainJson
json = record { marshal = text_of; marshal_indent = text_of; unmarshal = chain_of }

chain_of-cases :
    (P : Chain → Type 0) (s : Bytes) (c : Chain) → chain_of s ≡ ok c → P fresh → P pooled → P c
unfolding chain_of
chain_of-cases P s c e first second = elim (Bool-cases (bytes_eq s (1 ∷ 0 ∷ []))) [
  | inl f ↦ let same : fresh ≡ c = ground arith in rw (sym same) first
  | inr f ↦ elim (Bool-cases (bytes_eq s (1 ∷ 1 ∷ []))) [
    | inl g ↦ let same : pooled ≡ c = ground arith in rw (sym same) second
    | inr g ↦ absurd (ground arith)
  ]
]

json-HasChainCodec : HasChainCodec json
unfolding chain_of bytes_eq
json-HasChainCodec = record {
  decoded-encodes = λ s c e. chain_of-cases (λ d. chain_of (text_of d) ≡ ok d) s c e refl refl;
  decoded-IsInt64 = λ s c e.
      chain_of-cases (λ d. IsInt64 d.retarget.interval) s c e (omega arith, omega arith)
        (omega arith, omega arith);
}

abbrev flags : Flags
flags = record {
  difficulty = pos 1;
  max_transactions = pos 0;
  data_file = codes "c";
  wallet_file = codes "w";
  mining_limits = no_limits;
  lock_timeout = 5000000000;
  target_block_time = pos 5000000000;
  retarget_enabled = true;
  retarget_interval = pos 2;
  min_difficulty = pos 1;
  max_difficulty = pos 8;
}

abbrev around : Surroundings
around = record {
  mkdir_all = true;
  lock_start = 0;
  lock_times = 1 ∷ [];
  lock_creatable = true;
  pid_text = codes "pid=7";
  lock_removable = true;
  readable = true;
  cpus = pos 4;
  events = at_once;
  creation_calls = all_well;
  command = env;
  save_calls = all_well;
  input = [];
}

abbrev words : List Bytes
words = codes "faucet" ∷ bob ∷ codes "1" ∷ []

abbrev final_disk : Disk
final_disk = (codes "c", 1 ∷ 1 ∷ []) ∷ []

abbrev new_disk : Disk
new_disk = (codes "c.lock", codes "pid=7") ∷ (codes "c", 1 ∷ 0 ∷ []) ∷ []

no_file :
    load toy json true (codes "c") (locked toy json toy_wallets flags around [])
    ≡ err file_not_found
unfolding load lookup insert bytes_eq
no_file = refl

abbrev quick_config : RetargetConfig
quick_config = retarget_config toy json toy_wallets flags around

made :
    new_with_retarget toy (pos 1) (pos 0) no_limits (pos 4) at_once quick_config ≡ some (ok fresh)
unfolding quot
made = fresh-created

created :
    create_chain toy json toy_wallets flags around (locked toy json toy_wallets flags around [])
    ≡ some (new_disk, ok fresh)
unfolding create_chain saved_chain save save_text insert remove bytes_eq
created = rw (create_chain, made) refl

opened : Opens toy json toy_wallets flags around [] new_disk fresh
unfolding open_chain
opened = rw no_file created

abbrev queued_reply : Reply
queued_reply = answer pooled new_disk (queued_grant bob (pos 1) ∷ [])

ran :
    run toy json toy_wallets
      (application toy json toy_wallets flags around)
      env
      fresh
      new_disk
      words
    ≡ some queued_reply
unfolding run run_command command_of cmd_faucet give parse_int bytes_eq
ran = rw grant-pooled refl

finished :
    finish toy json toy_wallets flags around queued_reply
    ≡ record { disk = final_disk; result = ok tt }
unfolding finish save save_text insert remove bytes_eq
finished = refl

replied :
    work_on toy json toy_wallets flags around words new_disk fresh
    ≡ some (record { disk = final_disk; result = ok tt })
unfolding work_on
replied = rw (work_on, ran, finished) refl

worked :
    with_lock toy json toy_wallets flags around words (locked toy json toy_wallets flags around [])
    ≡ some (record { disk = final_disk; result = ok tt })
unfolding with_lock validate_config quot
worked = rw opened replied

main-runs :
    main toy json toy_wallets flags around words []
    ≡ some (record { disk = final_disk; result = ok tt })
unfolding main acquire_file_lock acquire_by lookup
main-runs = worked

fresh-CanRun : CanRun toy json toy_wallets flags around words fresh new_disk
unfolding chain_of bytes_eq
fresh-CanRun = record { ready = ready; encodable = λ r e. encodable r e }
  where
    some_inj : {q r : Reply} → some q ≡ some r → q ≡ r
    some_inj e = cc e

    encodable :
        (r : Reply)
        → run toy json toy_wallets
            (application toy json toy_wallets flags around)
            env
            fresh
            new_disk
            words
          ≡ some r
        → chain_of (text_of r.chain) ≡ ok r.chain
    encodable r e = rw (← some_inj (sym ran ∙ e)) refl

opens_fresh :
    (disk' : Disk) (c : Chain)
    → Opens toy json toy_wallets flags around [] disk' c
    → CanRun toy json toy_wallets flags around words c disk'
opens_fresh disk' c e =
    let (left, chain) = parts (sym opened ∙ e) in rw (← left, ← chain) fresh-CanRun
  where
    parts :
        {d : Disk} {b : Chain}
        → ◌≡◌ {A = Option (Disk × Result MainError Chain)}
            (some (new_disk, ok fresh))
            (some (d, ok b))
        → (new_disk ≡ d) × (fresh ≡ b)
    parts e = (cc e, cc e)

nothing_loaded :
    (c : Chain)
    → load toy json true (codes "c") (locked toy json toy_wallets flags around []) ≡ ok c
    → IsLive toy c
nothing_loaded c e = absurd (ne (sym no_file ∙ e))
  where
    ne : ◌≢◌ {A = Result LoadError Chain} (err file_not_found) (ok c)
    ne e = cc e

main_example : IsReusable toy json toy_wallets flags around final_disk
main_example =
    main-IsReusable toy json toy_wallets flags around json-HasChainCodec (codes "faucet")
      (bob ∷ codes "1" ∷ []) [] (record { disk = final_disk; result = ok tt }) refl
      (omega arith, omega arith) nothing_loaded opens_fresh main-runs refl
