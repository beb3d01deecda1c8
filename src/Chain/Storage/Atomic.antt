-- ===== src/Chain/Storage/Atomic.antt =====
-- A chain file is replaced as a whole or not at all (chain/chain.go, `Save`).
use toyblockchain.Prelude.{
  not, not, if_both, ℕ, ◌≡◌, refl, ap, ◌∙◌, ◌⊎◌, inl, inr, Bool, true, false, none, some, List, [],
  ◌∷◌, length, length-append, take, All, All-append, ok, err, if◌then◌else◌, wrap_err, ◌>>◌, arith,
}
use toyblockchain.Prelude.Bytes.{Bytes, bytes_eq, bytes_eq_iff, bytes_eq_refl, codes}
use toyblockchain.Prelude.Dict.{lookup, insert, remove, lookup-insert, lookup-remove}
use toyblockchain.Platform.{Platform}
use toyblockchain.Chain.Types.{Chain}
use toyblockchain.Chain.Validation.{validate_chain}
use toyblockchain.Chain.Fork.{ChainJson}
use toyblockchain.Chain.Storage.{
  replacing_file, closing_temporary, syncing_temporary, writing_temporary, creating_temporary,
  creating_directory, Disk, SaveError, SaveCalls, Saving, temporary, give_up, clean_up, save_text,
  save, loaded_invalid, load,
}

pub temporary-ne : (path : Bytes) → bytes_eq (temporary path) path ≡ false
temporary-ne path = go (bytes_eq (temporary path) path) refl
  where
    go : (b : Bool) → bytes_eq (temporary path) path ≡ b → b ≡ false
    go false e = refl
    go true e =
        let same = (bytes_eq_iff (temporary path) path).0 e in
        absurd (
          omega
            (arith, ap (length {0} {A = ℕ}) same, length-append {0} {A = ℕ} path (codes ".tmp")))

ne-temporary : (path : Bytes) → bytes_eq path (temporary path) ≡ false
ne-temporary path = ground (
  arith,
  temporary-ne path,
  bytes_eq_iff path (temporary path),
  bytes_eq_iff (temporary path) path,
)

module _ (path q text : Bytes) (disk : Disk) (other : bytes_eq (temporary path) q ≡ false) where
  insert-other : (t : Bytes) → lookup q (insert (temporary path) t disk) ≡ lookup q disk
  insert-other t = lookup-insert disk q (temporary path) t ∙ rw other refl

  remove-other : (d : Disk) → lookup q (remove (temporary path) d) ≡ lookup q d
  remove-other d = lookup-remove d q (temporary path) ∙ rw other refl

  renamed-other :
      lookup q (insert path text (remove (temporary path) disk))
      ≡ (if bytes_eq path q then some text else lookup q disk)
  renamed-other =
      lookup-insert (remove (temporary path) disk) q path text ∙ rw (remove-other disk) refl

-- A disk where the file at the path is as before or has the new text, and the other files but the
-- temporary one are as before.
abbrev pub IsOldOrNew : Bytes → Bytes → Disk → Disk → Type 0
IsOldOrNew path text disk d =
    ((lookup path d ≡ lookup path disk) ⊎ (lookup path d ≡ some text))
    × ((q : Bytes)
        → bytes_eq (temporary path) q ≡ false
        → bytes_eq path q ≡ false
        → lookup q d ≡ lookup q disk)

pub insert-IsOldOrNew :
    (path text t : Bytes) (disk : Disk) → IsOldOrNew path text disk (insert (temporary path) t disk)
insert-IsOldOrNew path text t disk = (
  inl (insert-other path path text disk (temporary-ne path) t),
  λ q e f. insert-other path q text disk e t,
)

pub renamed-IsOldOrNew :
    (path text : Bytes) (disk : Disk)
    → IsOldOrNew path text disk (insert path text (remove (temporary path) disk))
renamed-IsOldOrNew path text disk = (
  inr (renamed-other path path text disk (temporary-ne path) ∙ rw (bytes_eq_refl path) refl),
  λ q e f. renamed-other path q text disk e ∙ rw f refl,
)

pub cleaned-IsOldOrNew :
    (b : Bool) (path text : Bytes) (disk d : Disk)
    → IsOldOrNew path text disk d
    → IsOldOrNew path text disk (if b then remove (temporary path) d else d)
cleaned-IsOldOrNew false path text disk d h = h
cleaned-IsOldOrNew true path text disk d (inl old, others) = (
  inl (remove-other path path text disk (temporary-ne path) d ∙ old),
  λ q e f. remove-other path q text disk e d ∙ others q e f,
)
cleaned-IsOldOrNew true path text disk d (inr changed, others) = (
  inr (remove-other path path text disk (temporary-ne path) d ∙ changed),
  λ q e f. remove-other path q text disk e d ∙ others q e f,
)

clean_up-IsOldOrNew :
    (calls : SaveCalls) (path text : Bytes) (disk : Disk) (history : List Disk) (d : Disk)
    (e : SaveError)
    → All (IsOldOrNew path text disk) history
    → IsOldOrNew path text disk d
    → All (IsOldOrNew path text disk) (clean_up calls path history d e).history
unfolding clean_up
clean_up-IsOldOrNew calls path text disk history d e all last =
    All-append (IsOldOrNew path text disk) history _ all
      (cleaned-IsOldOrNew calls.remove_file path text disk d last, tt)

-- A property of every way that `Save` can go.
pub save_text_all :
    (P : Saving → Type 0) (calls : SaveCalls) (text path : Bytes) (disk : Disk)
    → let opened = insert (temporary path) [] disk in
      let partial = insert (temporary path) (take calls.written text) disk in
      let written = insert (temporary path) text disk in
      let renamed = insert path text (remove (temporary path) disk) in
      ((e : SaveError) → P (give_up disk e))
      → ((e : SaveError) → P (clean_up calls path (opened ∷ partial ∷ []) partial e))
      → ((e : SaveError) → P (clean_up calls path (opened ∷ partial ∷ written ∷ []) written e))
      → P (record {
        history = opened ∷ partial ∷ written ∷ renamed ∷ [];
        disk = renamed;
        result = ok tt;
      })
      → P (save_text calls text path disk)
unfolding save_text
save_text_all P calls text path disk early torn whole done =
    if_both P (not calls.mkdir_all) _ _ (early creating_directory) (
      if_both P (not calls.open_file) _ _ (early creating_temporary) (
        if_both P (not calls.write) _ _ (torn writing_temporary) (
          if_both P (not calls.sync) _ _ (whole syncing_temporary) (
            if_both P (not calls.close) _ _ (whole closing_temporary)
              (if_both P (not calls.rename) _ _ (whole replacing_file) done)))))

-- Whatever call of `Save` fails, and wherever a crash stops it, the file at the path is as it was or
-- holds the whole new text, and no other file but the temporary one has changed.
pub save_atomic :
    (json : ChainJson) (calls : SaveCalls) (c : Chain) (path : Bytes) (disk : Disk)
    → All (IsOldOrNew path (json.marshal_indent c) disk) (save json calls c path disk).history
unfolding save give_up
save_atomic json calls c path disk =
    let text = json.marshal_indent c in
    let P = IsOldOrNew path text disk in
    let opened = insert-IsOldOrNew path text [] disk in
    let partial = insert-IsOldOrNew path text (take calls.written text) disk in
    let written = insert-IsOldOrNew path text text disk in
    save_text_all (λ s. All (IsOldOrNew path text disk) s.history) calls text path disk (λ e. tt)
      (λ e. clean_up-IsOldOrNew calls path text disk _ _ e (opened, (partial, tt)) partial)
      (λ e.
        clean_up-IsOldOrNew calls path text disk _ _ e (opened, (partial, (written, tt))) written)
      (opened, (partial, (written, (renamed-IsOldOrNew path text disk, tt))))

-- What the caller of `Save` finds.
abbrev pub Settled : Bytes → Bytes → Disk → Saving → Type 0
Settled path text disk s =
    ((s.result ≡ ok tt)
      × (lookup path s.disk ≡ some text)
      × (lookup (temporary path) s.disk ≡ none))
    ⊎ ((e : SaveError) × (s.result ≡ err e) × (lookup path s.disk ≡ lookup path disk))

clean_up-Settled :
    (calls : SaveCalls) (path text : Bytes) (disk : Disk) (history : List Disk) (t : Bytes)
    (e : SaveError)
    → Settled path text disk (clean_up calls path history (insert (temporary path) t disk) e)
unfolding clean_up
clean_up-Settled calls path text disk history t e =
    let kept = insert-other path path text disk (temporary-ne path) t in
    inr (
      e,
      refl,
      if_both (λ d. lookup path d ≡ lookup path disk) calls.remove_file _ _
          (remove-other path path text disk (temporary-ne path) _ ∙ kept) kept,
    )

-- `Save` without an error has put the whole text at the path and left no temporary file; with an
-- error it has left the file at the path as it was.
pub save_settles :
    (json : ChainJson) (calls : SaveCalls) (c : Chain) (path : Bytes) (disk : Disk)
    → Settled path (json.marshal_indent c) disk (save json calls c path disk)
unfolding save give_up
save_settles json calls c path disk =
    let text = json.marshal_indent c in
    save_text_all (Settled path text disk) calls text path disk (λ e. inr (e, refl, refl))
      (λ e. clean_up-Settled calls path text disk _ (take calls.written text) e)
      (λ e. clean_up-Settled calls path text disk _ text e)
      (inl (
        refl,
        renamed-other path path text disk (temporary-ne path) ∙ rw (bytes_eq_refl path) refl,
        lookup-insert (remove (temporary path) disk) (temporary path) path text
            ∙ rw (ne-temporary path, lookup-remove, bytes_eq_refl (temporary path)) refl,
      ))

-- Loading what was saved gives the chain back if it is valid, and the reason if not: for a chain that
-- survives encoding, a `Save` without an error, and a file that can be read.
pub load-save :
    (p : Platform) (json : ChainJson) (calls : SaveCalls) (c : Chain) (path : Bytes) (disk : Disk)
    → json.unmarshal (json.marshal_indent c) ≡ ok c
    → (save json calls c path disk).result ≡ ok tt
    → load p json true path (save json calls c path disk).disk
      ≡ (wrap_err loaded_invalid (validate_chain p c) >> ok c)
unfolding load
load-save p json calls c path disk encodable done = elim (save_settles json calls c path disk) [
  | inl (r, found, clean) ↦ rw (found, encodable) refl
  | inr (e, r, kept) ↦ absurd (ground arith)
]
