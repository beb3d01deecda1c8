-- ===== src/Prelude/Dict.antt =====
-- Go's maps keyed by strings, as association lists. A key that is missing reads as a zero value,
-- which the caller of `index` names.
use toyblockchain.Prelude.{◌≡◌, refl, Option, none, some, List, [], ◌∷◌, arith, if◌then◌else◌}
use toyblockchain.Prelude.Bytes.{Bytes, bytes_eq, bytes_eq_iff}

abbrev pub Dict {ℓ} : Type ℓ → Type ℓ
Dict V = List (Bytes × V)

module _ {ℓ} {V : Type ℓ} where
  unfoldable pub lookup : Bytes → Dict V → Option V
  lookup k [] = none
  lookup k ((j, v) ∷ d) = if bytes_eq j k then some v else lookup k d

  -- `d[k]`
  unfoldable pub index : Dict V → Bytes → V → V
  index [] k zero_value = zero_value
  index ((j, v) ∷ d) k zero_value = if bytes_eq j k then v else index d k zero_value

  -- `d[k] = v`
  unfoldable pub insert : Bytes → V → Dict V → Dict V
  insert k v [] = (k, v) ∷ []
  insert k v ((j, w) ∷ d) = if bytes_eq j k then (j, v) ∷ d else (j, w) ∷ insert k v d

  pub index-insert :
      (d : Dict V) (j k : Bytes) (v zero_value : V)
      → index (insert k v d) j zero_value ≡ (if bytes_eq k j then v else index d j zero_value)
  unfolding index insert
  index-insert [] j k v z = refl
  index-insert ((i, w) ∷ d) j k v z =
      ground (arith, bytes_eq_iff k j, bytes_eq_iff i k, bytes_eq_iff i j, index-insert d j k v z)

  pub lookup-insert :
      (d : Dict V) (j k : Bytes) (v : V)
      → lookup j (insert k v d) ≡ (if bytes_eq k j then some v else lookup j d)
  unfolding lookup insert
  lookup-insert [] j k v = refl
  lookup-insert ((i, w) ∷ d) j k v =
      ground (arith, bytes_eq_iff k j, bytes_eq_iff i k, bytes_eq_iff i j, lookup-insert d j k v)

  -- `delete(d, k)`
  unfoldable pub remove : Bytes → Dict V → Dict V
  remove k [] = []
  remove k ((j, v) ∷ d) = let rest = remove k d in if bytes_eq j k then rest else (j, v) ∷ rest

  pub lookup-remove :
      (d : Dict V) (j k : Bytes)
      → lookup j (remove k d) ≡ (if bytes_eq k j then none else lookup j d)
  unfolding lookup remove
  lookup-remove [] j k = ground arith
  lookup-remove ((i, w) ∷ d) j k =
      ground (arith, bytes_eq_iff k j, bytes_eq_iff i k, bytes_eq_iff i j, lookup-remove d j k)
