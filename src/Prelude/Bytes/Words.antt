-- ===== src/Prelude/Bytes/Words.antt =====
-- Go's `strings.Fields`, `strings.ToLower`, `sort.Strings`, and `strconv.ParseInt` in base 10.
use toyblockchain.Prelude.{
  ℕ, zero, suc, ◌+◌, ◌-◌, ◌*◌, ◌^◌, ◌≡◌, refl, Bool, true, false, ◌&&◌, ◌||◌, Option, none, some,
  List, [], ◌∷◌, ◌++◌, arith, ltb, leb, ◌==◌, if◌then◌else◌, length, drop,
}
use toyblockchain.Prelude.Int.{ℤ, pos, negsuc}
use toyblockchain.Prelude.Int64.{IsInt64}
use toyblockchain.Prelude.Bytes.Text.{Bytes, codes, has_prefix}
use toyblockchain.Prelude.Bytes.Trim.{space_width}

-- The word so far, in front of the words that follow.
abbrev close_word : Bytes → List Bytes → List Bytes
close_word [] words = words
close_word (b ∷ word) words = (b ∷ word) ∷ words

-- Each round drops a byte at least, so the length is fuel enough.
split_words : ℕ → Bytes → Bytes → List Bytes
split_words zero word s = close_word word []
split_words (suc fuel) word [] = close_word word []
split_words (suc fuel) word (b ∷ s) =
    let width = space_width (b ∷ s) in
    elim (width == 0) [
      | true ↦ split_words fuel (word ++ b ∷ []) s
      | false ↦ close_word word (split_words fuel [] (drop width (b ∷ s)))
    ]

-- `strings.Fields`
unfoldable pub fields : Bytes → List Bytes
unfolding split_words
fields s = split_words (length s) [] s

fields_runs : fields (codes " send a  b ") ≡ codes "send" ∷ codes "a" ∷ codes "b" ∷ []
unfolding fields
fields_runs = refl

-- `strings.ToLower` as far as a comparison with an ASCII text can tell: beside the ASCII letters there
-- are U+0130, which becomes an i, and U+212A, which becomes a k.
-- The first argument is the number of bytes that are part of the character before.
lower_from : ℕ → Bytes → Bytes
lower_from n [] = []
lower_from (suc n) (b ∷ s) = lower_from n s
lower_from zero (b ∷ s) = elim (has_prefix (b ∷ s) (0xC4 ∷ 0xB0 ∷ [])) [
  | true ↦ b'i' ∷ lower_from 1 s
  | false ↦ elim (has_prefix (b ∷ s) (0xE2 ∷ 0x84 ∷ 0xAA ∷ [])) [
    | true ↦ b'k' ∷ lower_from 2 s
    | false ↦ (if leb b'A' b && leb b b'Z' then b + 32 else b) ∷ lower_from 0 s
  ]
]

unfoldable pub to_lower : Bytes → Bytes
unfolding lower_from
to_lower s = lower_from 0 s

to_lower_runs : to_lower (0xC4 ∷ 0xB0 ∷ codes "On") ≡ codes "ion"
unfolding to_lower has_prefix
to_lower_runs = refl

-- `<` on strings
unfoldable pub bytes_lt : Bytes → Bytes → Bool
bytes_lt s [] = false
bytes_lt [] (b ∷ t) = true
bytes_lt (a ∷ s) (b ∷ t) = ltb a b || (a == b && bytes_lt s t)

insert_name : Bytes → List Bytes → List Bytes
insert_name s [] = s ∷ []
insert_name s (t ∷ names) =
    let rest = insert_name s names in if bytes_lt t s then t ∷ rest else s ∷ t ∷ names

-- `sort.Strings`
unfoldable pub sort_names : List Bytes → List Bytes
unfolding insert_name
sort_names [] = []
sort_names (s ∷ names) = insert_name s (sort_names names)

decimal_value : ℕ → Bytes → Option ℕ
decimal_value n [] = some n
decimal_value n (c ∷ s) =
    let rest = decimal_value (10 * n + (c - b'0')) s in
    if leb b'0' c && leb c b'9' then rest else none

parse_digits : Bytes → Option ℕ
unfolding decimal_value
parse_digits [] = none
parse_digits (c ∷ s) = decimal_value 0 (c ∷ s)

abbrev positive : Option ℕ → Option ℤ
positive none = none
positive (some n) = if ltb n (2 ^ 63) then some (pos n) else none

abbrev negative : Option ℕ → Option ℤ
negative none = none
negative (some zero) = some (pos 0)
negative (some (suc n)) = if leb (suc n) (2 ^ 63) then some (negsuc n) else none

-- `strconv.ParseInt(s, 10, 64)` and `strconv.Atoi`
unfoldable pub parse_int : Bytes → Option ℤ
unfolding parse_digits
parse_int [] = none
parse_int (c ∷ s) =
    if c == b'-'
    then negative (parse_digits s)
    else if c == b'+'
    then positive (parse_digits s)
    else positive (parse_digits (c ∷ s))

parse_int_runs : parse_int (codes "-120") ≡ some (negsuc 119)
unfolding parse_int
parse_int_runs = refl

positive-IsInt64 : (n : Option ℕ) (a : ℤ) → positive n ≡ some a → IsInt64 a
positive-IsInt64 none a e = cc
positive-IsInt64 (some n) a e = ground arith

negative-IsInt64 : (n : Option ℕ) (a : ℤ) → negative n ≡ some a → IsInt64 a
negative-IsInt64 none a e = cc
negative-IsInt64 (some zero) a e = ground arith
negative-IsInt64 (some (suc n)) a e = ground arith

-- What is read fits 64 bits.
pub parse_int-IsInt64 : (s : Bytes) (a : ℤ) → parse_int s ≡ some a → IsInt64 a
unfolding parse_int
parse_int-IsInt64 [] a e = cc
parse_int-IsInt64 (c ∷ s) a e = ground (
  arith,
  negative-IsInt64 (parse_digits s) a,
  positive-IsInt64 (parse_digits s) a,
  positive-IsInt64 (parse_digits (c ∷ s)) a,
)
