-- ===== src/Prelude/Bytes/Hex.antt =====
-- The functions of Go's `encoding/hex` that the program calls.
use toyblockchain.Prelude.{
  ◌≤◌, length, ℕ, ◌+◌, ◌-◌, ◌*◌, ◌/◌, ◌%◌, ◌<◌, ◌≡◌, refl, ◌&&◌, Option, none, some, [], ◌∷◌, arith,
  leb, if◌then◌else◌, All,
}
use toyblockchain.Prelude.Bytes.Text.{Bytes, IsBytes}

-- `hex.EncodeToString`: lower-case digits
abbrev hex_digit : ℕ → ℕ
hex_digit n = if leb n 9 then b'0' + n else b'a' + (n - 10)

unfoldable pub hex_encode : Bytes → Bytes
hex_encode [] = []
hex_encode (b ∷ s) = hex_digit (b / 16) ∷ hex_digit (b % 16) ∷ hex_encode s

-- The value of a digit in either case.
abbrev from_hex_digit : ℕ → Option ℕ
from_hex_digit c =
    if leb b'0' c && leb c b'9'
    then some (c - b'0')
    else if leb b'a' c && leb c b'f'
    then some (c - b'a' + 10)
    else if leb b'A' c && leb c b'F'
    then some (c - b'A' + 10)
    else none

abbrev hex_byte : Option ℕ → Option ℕ → Option Bytes → Option Bytes
hex_byte (some hi) (some lo) (some rest) = some ((16 * hi + lo) ∷ rest)
hex_byte _ _ _ = none

-- `hex.DecodeString`: `none` for a digit that is none, or an odd number of digits. The callers drop
-- the bytes that Go returns beside an error.
unfoldable pub hex_decode : Bytes → Option Bytes
hex_decode [] = some []
hex_decode (a ∷ []) = none
hex_decode (a ∷ b ∷ s) = hex_byte (from_hex_digit a) (from_hex_digit b) (hex_decode s)

from_hex_digit_lem : (n : ℕ) → n < 16 → from_hex_digit (hex_digit n) ≡ some n
from_hex_digit_lem n h = ground arith

pub hex_decode-hex_encode : (s : Bytes) → IsBytes s → hex_decode (hex_encode s) ≡ some s
unfolding hex_decode hex_encode
hex_decode-hex_encode [] h = refl
hex_decode-hex_encode (b ∷ s) h =
    rw
      (
        from_hex_digit_lem (b / 16) (omega arith),
        from_hex_digit_lem (b % 16) (omega arith),
        hex_decode-hex_encode s h.1,
      )
      (ground arith)

pub hex_encode-inj : (s t : Bytes) → IsBytes s → IsBytes t → hex_encode s ≡ hex_encode t → s ≡ t
hex_encode-inj s t hs ht e = cc (hex_decode-hex_encode s hs, hex_decode-hex_encode t ht)

pub length-hex_encode : (s : Bytes) → length (hex_encode s) ≡ 2 * length s
unfolding hex_encode
length-hex_encode [] = omega arith
length-hex_encode (b ∷ s) = omega (arith, length-hex_encode s)

some_inj : {s t : Bytes} → some s ≡ some t → s ≡ t
some_inj e = cc

hex_byte-IsBytes :
    (a b : Option ℕ) (r : Option Bytes) {s : Bytes}
    → ((n : ℕ) → a ≡ some n → n < 16)
    → ((n : ℕ) → b ≡ some n → n < 16)
    → ((t : Bytes) → r ≡ some t → IsBytes t)
    → hex_byte a b r ≡ some s
    → IsBytes s
hex_byte-IsBytes (some hi) (some lo) (some rest) {s} ha hb hr e =
    rw (← some_inj e) (omega (arith, ha hi refl, hb lo refl), hr rest refl)
hex_byte-IsBytes none b r ha hb hr e = cc
hex_byte-IsBytes (some hi) none r ha hb hr e = cc
hex_byte-IsBytes (some hi) (some lo) none ha hb hr e = cc

from_hex_digit-lt : (c n : ℕ) → from_hex_digit c ≡ some n → n < 16
from_hex_digit-lt c n e = ground arith

pub hex_decode-IsBytes : (s : Bytes) {t : Bytes} → hex_decode s ≡ some t → IsBytes t
unfolding hex_decode
hex_decode-IsBytes [] e = rw (← some_inj e) tt
hex_decode-IsBytes (a ∷ []) e = cc
hex_decode-IsBytes (a ∷ b ∷ s) e =
    hex_byte-IsBytes (from_hex_digit a) (from_hex_digit b) (hex_decode s) (from_hex_digit-lt a)
      (from_hex_digit-lt b) (λ t h. hex_decode-IsBytes s h) e

-- The range of the digits.
abbrev pub IsHexDigit : ℕ → Type 0
IsHexDigit c = (b'0' ≤ c) × (c ≤ b'f')

hex_digit-IsHexDigit : (n : ℕ) → n < 16 → IsHexDigit (hex_digit n)
hex_digit-IsHexDigit n h = ground arith

pub hex_encode-IsHexDigit : (s : Bytes) → IsBytes s → All IsHexDigit (hex_encode s)
unfolding hex_encode
hex_encode-IsHexDigit [] h = tt
hex_encode-IsHexDigit (b ∷ s) h =
    let rest = hex_encode-IsHexDigit s h.1 in
    (
      hex_digit-IsHexDigit (b / 16) (omega arith),
      (hex_digit-IsHexDigit (b % 16) (omega arith), rest),
    )
