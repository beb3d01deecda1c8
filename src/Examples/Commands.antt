-- ===== src/Examples/Commands.antt =====
-- Commands on small chains, and the theorems on them.
use toyblockchain.Prelude.{
  ◌≢◌, ◌≡◌, ◌↔◌, refl, [], ◌∷◌, ◌++◌, true, some, List, length, arith, ok, err, if◌then◌else◌,
  Bool-cases, inl, inr, sym, ◌∙◌,
}
use toyblockchain.Prelude.Int.{◌≤ℤ◌, ℤ, pos}
use toyblockchain.Prelude.Bytes.{fields, Bytes, bytes_eq, codes, hex_encode, parse_int, trim_space}
use toyblockchain.Prelude.Dict.{lookup, insert, remove}
use toyblockchain.Platform.{ed25519_public}
use toyblockchain.Block.Types.{Block}
use toyblockchain.Block.Transaction.{address_from_public_key}
use toyblockchain.Block.Mine.{worker_count}
use toyblockchain.Chain.Types.{last_block, Chain}
use toyblockchain.Chain.Growth.Live.{IsLive}
use toyblockchain.Prelude.Int64.{IsInt64, add64}
use toyblockchain.Prelude.Int.{◌+ℤ◌}
use toyblockchain.Chain.Difficulty.{set_difficulty, set_rule}
use toyblockchain.Chain.Storage.{save_text, save, Disk}
use toyblockchain.Cli.Types.{
  chain_saved, Wallet, WalletStore, WalletJson, Cli, Environment, Reply, answer, difficulty_applies,
}
use toyblockchain.Cli.Commands.{cmd_save, cmd_faucet, grant, change_difficulty, cmd_set_difficulty}
use toyblockchain.Cli.Commands
use toyblockchain.Cli.Files.{run-others}
use toyblockchain.Cli.Run.{
  setdifficulty, stop, next, autosave, run, run_command, command_of, run_repl, turn,
}
use toyblockchain.Cli.Effects.{Explained}
use toyblockchain.Cli.Replies.{run-Explained}
use toyblockchain.Cli.Live.{HasChainCodec, IsReady, AreReady, run-IsLive, run_repl-IsLive}
use toyblockchain.Cli.Granting.{IsGrant, cmd_faucet_iff}
use toyblockchain.Examples.Toy.{toy, bob}
use toyblockchain.Examples.Chains.{genesis, fresh, grown, harder, no_limits, at_once, fresh-IsLive}
use toyblockchain.Examples.Forks.{toy_json, toy_parse, toy_text}
use toyblockchain.Examples.Storage.{all_well}

toy_parse-fixed : (s : Bytes) (c : Chain) → toy_parse s ≡ ok c → toy_parse (toy_text c) ≡ ok c
unfolding toy_parse bytes_eq
toy_parse-fixed s c e = elim (Bool-cases (bytes_eq s (1 ∷ []))) [
  | inl f ↦ let same : fresh ≡ c = ground arith in rw (sym same) refl
  | inr f ↦ elim (Bool-cases (bytes_eq s (2 ∷ []))) [
    | inl g ↦ let same : grown ≡ c = ground arith in rw (sym same) refl
    | inr g ↦ absurd (ground arith)
  ]
]

toy_json-HasChainCodec : HasChainCodec toy_json
unfolding toy_parse
toy_json-HasChainCodec = record {
  decoded-encodes = toy_parse-fixed;
  decoded-IsInt64 = λ s c e. interval s c e;
}
  where
    interval : (s : Bytes) (c : Chain) → toy_parse s ≡ ok c → IsInt64 c.retarget.interval
    interval s c e = elim (Bool-cases (bytes_eq s (1 ∷ []))) [
      | inl f ↦ let same : fresh ≡ c = ground arith in rw (sym same) (omega arith, omega arith)
      | inr f ↦ elim (Bool-cases (bytes_eq s (2 ∷ []))) [
        | inl g ↦ let same : grown ≡ c = ground arith in rw (sym same) (omega arith, omega arith)
        | inr g ↦ absurd (ground arith)
      ]
    ]

abbrev pub cli : Cli
cli = record { data_file = codes "c"; wallet_file = codes "w"; mine_limits = no_limits }

abbrev pub env : Environment
env = record {
  clock = pos 100;
  cpus = pos 4;
  events = at_once;
  random = some (1 ∷ []);
  readable = true;
  calls = all_well;
  autosave_calls = all_well;
}

abbrev pub alice_seed : Bytes
alice_seed = 5 ∷ []

abbrev pub alice_key : Bytes
alice_key = toy.ed25519_new_key alice_seed

abbrev pub alice : Bytes
alice = address_from_public_key toy (ed25519_public alice_key)

abbrev pub alice_wallet : Wallet
alice_wallet = record {
  address = alice;
  public_key = hex_encode (ed25519_public alice_key);
  private_key = hex_encode alice_key;
}

abbrev carol_key : Bytes
carol_key = toy.ed25519_new_key (1 ∷ [])

abbrev pub carol_wallet : Wallet
carol_wallet = record {
  address = address_from_public_key toy (ed25519_public carol_key);
  public_key = hex_encode (ed25519_public carol_key);
  private_key = hex_encode carol_key;
}

abbrev pub one_wallet : WalletStore
one_wallet = (codes "alice", alice_wallet) ∷ []

abbrev pub two_wallets : WalletStore
two_wallets = (codes "alice", alice_wallet) ∷ (codes "carol", carol_wallet) ∷ []

-- A store is written as the number of its wallets, and read back for two stores.
abbrev pub toy_wallets : WalletJson
toy_wallets = record {
  marshal_indent = λ store. length store ∷ [];
  unmarshal = λ s.
      if bytes_eq s (1 ∷ [])
      then ok one_wallet
      else if bytes_eq s (2 ∷ [])
      then ok two_wallets
      else err tt;
}

abbrev pub disk : Disk
disk = (codes "w", 1 ∷ []) ∷ []

abbrev set_three : List Bytes
set_three = codes "setdifficulty" ∷ codes "3" ∷ []

abbrev set_reply : Reply
set_reply = answer harder disk (difficulty_applies (pos 3) (pos 1) ∷ [])

set_three-runs : run toy toy_json toy_wallets cli env fresh disk set_three ≡ some set_reply
unfolding run run_command command_of cmd_set_difficulty change_difficulty parse_int set_difficulty
    set_rule bytes_eq add64 ◌+ℤ◌
set_three-runs = refl

pub ready : IsReady cli env fresh
unfolding worker_count
ready = record { early = λ b e. early b e; small = omega arith; few = omega arith }
  where
    early : (b : Block) → last_block fresh.blocks ≡ ok b → b.timestamp ≤ℤ pos 100
    early b e = let same : genesis ≡ b = ground arith in rw (sym same) (omega arith)

run_live_example : IsLive toy harder
run_live_example =
    run-IsLive toy toy_json toy_json-HasChainCodec cli toy_wallets env fresh disk set_three
      set_reply fresh-IsLive.0 ready set_three-runs

run-Explained_example :
    Explained toy toy_json toy_wallets cli env setdifficulty (codes "3" ∷ []) fresh disk set_reply
unfolding command_of bytes_eq
run-Explained_example =
    run-Explained toy toy_json toy_wallets cli env fresh disk set_three set_reply set_three-runs

faucet_example :
    ((cmd_faucet toy fresh disk (bob ∷ codes "7" ∷ [])).result ≡ ok tt
      ↔ ((amount : ℤ) × IsGrant toy bob (codes "7") amount))
    × ((amount : ℤ)
        → IsGrant toy bob (codes "7") amount
        → ((cmd_faucet toy fresh disk (bob ∷ codes "7" ∷ [])).chain
            ≡ record fresh { pending = fresh.pending ++ grant bob amount ∷ [] })
          × ((cmd_faucet toy fresh disk (bob ∷ codes "7" ∷ [])).disk ≡ disk))
faucet_example = cmd_faucet_iff toy fresh disk bob (codes "7") fresh-IsLive.0

-- A session that sets the difficulty and leaves.
abbrev set_line : Bytes
set_line = codes " setdifficulty  3 "

abbrev session : List (Bytes × Environment)
session = (set_line, env) ∷ (codes "exit", env) ∷ []

abbrev saved_disk : Disk
saved_disk = (codes "w", 1 ∷ []) ∷ (codes "c", 1 ∷ []) ∷ []

set-turn : turn toy toy_json toy_wallets cli set_line env fresh disk ≡ next harder saved_disk
unfolding turn run run_command command_of cmd_set_difficulty change_difficulty parse_int
    set_difficulty set_rule bytes_eq add64 ◌+ℤ◌ trim_space fields autosave save save_text insert
    remove
set-turn = refl

exit-turn :
    turn toy toy_json toy_wallets cli (codes "exit") env harder saved_disk ≡ stop harder saved_disk
unfolding turn bytes_eq trim_space
exit-turn = refl

session-runs : run_repl toy toy_json toy_wallets cli session fresh disk ≡ some (harder, saved_disk)
unfolding run_repl turn run run_command command_of cmd_set_difficulty change_difficulty parse_int
    set_difficulty set_rule bytes_eq add64 ◌+ℤ◌ trim_space fields autosave save save_text insert
    remove
session-runs = refl

turn-inj : {c c' : Chain} {d d' : Disk} → next c d ≡ next c' d' → (c ≡ c') × (d ≡ d')
turn-inj e = (cc e, cc e)

session-ready : AreReady toy toy_json toy_json-HasChainCodec cli toy_wallets session fresh disk
unfolding AreReady
session-ready = (
  ready,
  λ c' d' e.
      let (chain, left) = turn-inj (sym set-turn ∙ e) in
      rw (sym chain, sym left) (ready_harder, λ c'' d'' f. absurd (ne (sym exit-turn ∙ f))),
)
  where
    ne : {c'' : Chain} {d'' : Disk} → stop harder saved_disk ≢ next c'' d''
    ne e = cc e

    early : (b : Block) → last_block harder.blocks ≡ ok b → b.timestamp ≤ℤ pos 100
    early b e = let same : genesis ≡ b = ground arith in rw (sym same) (omega arith)

    ready_harder : IsReady cli env harder
    ready_harder = record { early = early; small = omega arith; few = ready.few }

session_example : IsLive toy harder
session_example =
    run_repl-IsLive toy toy_json toy_json-HasChainCodec cli toy_wallets session fresh harder disk
      saved_disk fresh-IsLive.0 session-ready session-runs

abbrev with_candidate : Disk
with_candidate = (codes "k", 9 ∷ []) ∷ disk

abbrev save_reply : Reply
save_reply = answer fresh ((codes "k", 9 ∷ []) ∷ saved_disk) (chain_saved (codes "c") ∷ [])

save-runs :
    run toy toy_json toy_wallets cli env fresh with_candidate (codes "save" ∷ []) ≡ some save_reply
unfolding run run_command command_of bytes_eq cmd_save Commands.saved save save_text insert remove
save-runs = refl

files_example : lookup (codes "k") save_reply.disk ≡ lookup (codes "k") with_candidate
unfolding bytes_eq
files_example =
    run-others toy toy_json cli env toy_wallets fresh with_candidate (codes "save" ∷ []) save_reply
      (codes "k")
      (record {
        not_chain = refl;
        not_chain_temporary = refl;
        not_wallet = refl;
        not_wallet_temporary = refl;
      })
      save-runs
