-- ===== src/Cli/Files.antt =====
-- Which files a command can change (cli/cli.go).
use toyblockchain.Prelude.{◌≡◌, refl, ◌∙◌, ap, inl, false, take, some, List}
use toyblockchain.Prelude.Bytes.{Bytes, bytes_eq}
use toyblockchain.Prelude.Dict.{lookup}
use toyblockchain.Platform.{Platform}
use toyblockchain.Chain.Types.{Chain}
use toyblockchain.Chain.Fork.{ChainJson}
use toyblockchain.Chain.Storage.{Disk, SaveCalls, temporary, give_up, clean_up, save}
use toyblockchain.Chain.Storage.Atomic.{
  IsOldOrNew, insert-IsOldOrNew, renamed-IsOldOrNew, cleaned-IsOldOrNew, save_text_all,
}
use toyblockchain.Cli.Types.{WalletStore, WalletJson, Cli, Environment, Reply}
use toyblockchain.Cli.Wallets.{save_wallet_store}
use toyblockchain.Cli.Wallets.Created.{save_wallet_text-Ends}
use toyblockchain.Cli.Run.{run}
use toyblockchain.Cli.Effects.{
  refused, shown, paid, given, extended, set, configured, replaced, recorded, written,
}
use toyblockchain.Cli.Replies.{run-Explained}

-- The disk that `Save` leaves.
save-IsOldOrNew :
    (json : ChainJson) (calls : SaveCalls) (c : Chain) (path : Bytes) (disk : Disk)
    → IsOldOrNew path (json.marshal_indent c) disk (save json calls c path disk).disk
unfolding save give_up clean_up
save-IsOldOrNew json calls c path disk =
    let text = json.marshal_indent c in
    let written = λ (t : Bytes).
      cleaned-IsOldOrNew calls.remove_file path text disk _ (insert-IsOldOrNew path text t disk) in
    save_text_all (λ s. IsOldOrNew path text disk s.disk) calls text path disk
      (λ e. (inl refl, λ q f g. refl)) (λ e. written (take calls.written text)) (λ e. written text)
      (renamed-IsOldOrNew path text disk)

module _ (p : Platform) (json : ChainJson) (cli : Cli) (env : Environment) where
  -- A file that is neither the chain file nor the wallet file nor one of their temporary files.
  pub record IsOther (file : Bytes) : Type 0 where
    pub not_chain : bytes_eq cli.data_file file ≡ false
    pub not_chain_temporary : bytes_eq (temporary cli.data_file) file ≡ false
    pub not_wallet : bytes_eq cli.wallet_file file ≡ false
    pub not_wallet_temporary : bytes_eq (temporary cli.wallet_file) file ≡ false

  saved-others :
      (c : Chain) (disk : Disk) (file : Bytes)
      → IsOther file
      → lookup file (save json env.calls c cli.data_file disk).disk ≡ lookup file disk
  saved-others c disk file other =
      (save-IsOldOrNew json env.calls c cli.data_file disk).1 file other.not_chain_temporary
        other.not_chain

  stored-others :
      (wallets : WalletJson) (store : WalletStore) (disk : Disk) (file : Bytes)
      → IsOther file
      → lookup file (save_wallet_store wallets env.calls store cli.wallet_file disk).disk
        ≡ lookup file disk
  unfolding save_wallet_store
  stored-others wallets store disk file other =
      (save_wallet_text-Ends env.calls (wallets.marshal_indent store) cli.wallet_file disk).0.1 file
        other.not_wallet_temporary other.not_wallet

  -- No command, whether it succeeds or fails, changes, makes or removes a file other than the chain
  -- file, the wallet file and their temporary files: so `resolvefork` leaves the candidate as it is.
  pub run-others :
      (wallets : WalletJson) (c : Chain) (disk : Disk) (args : List Bytes) (r : Reply)
      (file : Bytes)
      → IsOther file
      → run p json wallets cli env c disk args ≡ some r
      → lookup file r.disk ≡ lookup file disk
  run-others wallets c disk args r file other e =
      elim (run-Explained p json wallets cli env c disk args r e) [
        | refused x can h same k ↦ ap (lookup file) k
        | shown d same q ↦ ap (lookup file) q.kept
        | paid name recipient text amount tx h a n s m q ↦ ap (lookup file) q.kept
        | given recipient text amount h a n m q ↦ ap (lookup file) q.kept
        | extended b h m q ↦ ap (lookup file) q.kept
        | set text d h a n m q ↦ ap (lookup file) q.kept
        | configured config h s m k o ↦ ap (lookup file) k
        | replaced path candidate report h a loaded m s ↦
            ap (lookup file) s.left ∙ saved-others r.chain disk file other
        | recorded name seed store h a l u m same s ↦
            ap (lookup file) s.left ∙ stored-others wallets _ disk file other
        | written h same s ↦ ap (lookup file) s.left ∙ saved-others c disk file other
      ]
