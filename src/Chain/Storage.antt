-- ===== src/Chain/Storage.antt =====
-- Saving and loading a chain (chain/chain.go, `Save` and `Load`). The disk is a map from paths to
-- contents; whether each call of the operating system succeeds is an argument, and so is how much a
-- failed write has written. `Save` gives every content of the disk that a crash can leave.
pub mod Atomic
use toyblockchain.Prelude.{
  ℕ, Bool, true, false, not, none, some, List, [], ◌∷◌, ◌++◌, if◌then◌else◌, take, Result, ok, err,
  fail_if, or_fail, wrap_err, ◌>>=◌, ◌>>◌,
}
use toyblockchain.Prelude.Bytes.{Bytes, codes}
use toyblockchain.Prelude.Dict.{Dict, lookup, insert, remove}
use toyblockchain.Platform.{Platform}
use toyblockchain.Chain.Types.{Chain, ChainError}
use toyblockchain.Chain.Validation.{validate_chain}
use toyblockchain.Chain.Fork.{ChainJson}

abbrev pub Disk : Type 0
Disk = Dict Bytes

pub data SaveError : Type 0 where
  creating_directory creating_temporary writing_temporary syncing_temporary : SaveError
  closing_temporary replacing_file : SaveError

-- Which calls succeed.
pub record SaveCalls : Type 0 where
  pub mkdir_all : Bool
  pub open_file : Bool
  pub write : Bool
  pub sync : Bool
  pub close : Bool
  pub rename : Bool
  -- of the deferred function
  pub remove_file : Bool
  -- the bytes that are on the disk when the write is interrupted or fails
  pub written : ℕ

pub record Saving : Type 0 where
  -- the disk after each call that changes it, in order
  pub history : List Disk
  pub disk : Disk
  pub result : Result SaveError (Unit {0})

abbrev pub temporary : Bytes → Bytes
temporary path = path ++ codes ".tmp"

-- an error before there is a temporary file
unfoldable pub give_up : Disk → SaveError → Saving
give_up disk e = record { history = []; disk = disk; result = err e }

-- an error after that, and the deferred function
unfoldable pub clean_up : SaveCalls → Bytes → List Disk → Disk → SaveError → Saving
clean_up calls path history disk e =
    let cleaned = if calls.remove_file then remove (temporary path) disk else disk in
    record { history = history ++ cleaned ∷ []; disk = cleaned; result = err e }

unfoldable pub save_text : SaveCalls → Bytes → Bytes → Disk → Saving
unfolding give_up clean_up
save_text calls text path disk =
    let opened = insert (temporary path) [] disk in
    let partial = insert (temporary path) (take calls.written text) disk in
    let written = insert (temporary path) text disk in
    let renamed = insert path text (remove (temporary path) disk) in
    if not calls.mkdir_all
    then give_up disk creating_directory
    else if not calls.open_file
    then give_up disk creating_temporary
    else if not calls.write
    then clean_up calls path (opened ∷ partial ∷ []) partial writing_temporary
    else if not calls.sync
    then clean_up calls path (opened ∷ partial ∷ written ∷ []) written syncing_temporary
    else if not calls.close
    then clean_up calls path (opened ∷ partial ∷ written ∷ []) written closing_temporary
    else if not calls.rename
    then clean_up calls path (opened ∷ partial ∷ written ∷ []) written replacing_file
    else record {
      history = opened ∷ partial ∷ written ∷ renamed ∷ [];
      disk = renamed;
      result = ok tt;
    }

-- `Save`; `json.MarshalIndent` of a chain has no error.
unfoldable pub save : ChainJson → SaveCalls → Chain → Bytes → Disk → Saving
save json calls c path disk = save_text calls (json.marshal_indent c) path disk

pub data LoadError : Type 0 where
  file_not_found : LoadError
  unreadable_file : LoadError
  parsing_chain : LoadError
  loaded_invalid : ChainError → LoadError

-- `Load`, where `readable` says whether a file that exists can be read.
unfoldable pub load : Platform → ChainJson → Bool → Bytes → Disk → Result LoadError Chain
load p json readable path disk = do
  text ← or_fail (lookup path disk) file_not_found
  fail_if (not readable) unreadable_file
  c ← wrap_err (λ _. parsing_chain) (json.unmarshal text)
  wrap_err loaded_invalid (validate_chain p c)
  ok c
