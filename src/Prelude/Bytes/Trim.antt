-- ===== src/Prelude/Bytes/Trim.antt =====
-- Go's `strings.TrimSpace`.
use mathlib.Core.List.{reverse, reverse-reverse}
use toyblockchain.Prelude.{
  All-reverse, length, drop, ℕ, zero, suc, ◌≡◌, refl, Bool, ◌&&◌, ◌||◌, [], ◌∷◌, arith, leb, ◌==◌,
  if◌then◌else◌, All,
}
use toyblockchain.Prelude.Bytes.Text.{Bytes, IsBytes, codes}
use toyblockchain.Prelude.Bytes.Hex.{IsHexDigit, hex_encode, hex_encode-IsHexDigit}

-- The width in bytes of a white-space character in front, 0 if there is none: the ASCII ones, U+0085,
-- U+00A0, U+1680, U+2000 to U+200A, U+2028, U+2029, U+202F, U+205F and U+3000 in UTF-8.
abbrev is_ascii_space : ℕ → Bool
is_ascii_space c = (leb 9 c && leb c 13) || c == 32

abbrev is_space2 : ℕ → ℕ → Bool
is_space2 a b = a == 0xC2 && (b == 0x85 || b == 0xA0)

abbrev is_space3 : ℕ → ℕ → ℕ → Bool
is_space3 a b c =
    (a == 0xE1 && b == 0x9A && c == 0x80)
    || (a == 0xE2
        && b == 0x80
        && ((leb 0x80 c && leb c 0x8A) || c == 0xA8 || c == 0xA9 || c == 0xAF))
    || (a == 0xE2 && b == 0x81 && c == 0x9F)
    || (a == 0xE3 && b == 0x80 && c == 0x80)

abbrev pub space_width : Bytes → ℕ
space_width [] = 0
space_width (a ∷ []) = if is_ascii_space a then 1 else 0
space_width (a ∷ b ∷ []) = if is_ascii_space a then 1 else if is_space2 a b then 2 else 0
space_width (a ∷ b ∷ c ∷ s) =
    if is_ascii_space a then 1 else if is_space2 a b then 2 else if is_space3 a b c then 3 else 0

-- The same for a text read from its end, so with the bytes of each character reversed.
abbrev space_width_back : Bytes → ℕ
space_width_back [] = 0
space_width_back (a ∷ []) = if is_ascii_space a then 1 else 0
space_width_back (a ∷ b ∷ []) = if is_ascii_space a then 1 else if is_space2 b a then 2 else 0
space_width_back (a ∷ b ∷ c ∷ s) =
    if is_ascii_space a then 1 else if is_space2 b a then 2 else if is_space3 c b a then 3 else 0

-- Each round drops a byte at least, so the length is fuel enough.
trim : (Bytes → ℕ) → ℕ → Bytes → Bytes
trim width zero s = s
trim width (suc fuel) s =
    let rest = trim width fuel (drop (width s) s) in if width s == 0 then s else rest

-- `strings.TrimSpace`
unfoldable pub trim_space : Bytes → Bytes
unfolding trim
trim_space s =
    let front = trim space_width (length s) s in
    reverse (trim space_width_back (length front) (reverse front))

trim_space_runs : trim_space (codes "  a b ") ≡ codes "a b"
unfolding trim_space
trim_space_runs = refl

space_width-hex : (s : Bytes) → All IsHexDigit s → space_width s ≡ 0
space_width-hex [] h = refl
space_width-hex (a ∷ []) h = ground arith
space_width-hex (a ∷ b ∷ []) h = ground arith
space_width-hex (a ∷ b ∷ c ∷ s) h = ground arith

space_width_back-hex : (s : Bytes) → All IsHexDigit s → space_width_back s ≡ 0
space_width_back-hex [] h = refl
space_width_back-hex (a ∷ []) h = ground arith
space_width_back-hex (a ∷ b ∷ []) h = ground arith
space_width_back-hex (a ∷ b ∷ c ∷ s) h = ground arith

trim_none : (width : Bytes → ℕ) (fuel : ℕ) (s : Bytes) → width s ≡ 0 → trim width fuel s ≡ s
unfolding trim
trim_none width zero s h = refl
trim_none width (suc fuel) s h = rw h

-- There is no white space round an encoded text.
pub trim_space-hex_encode : (s : Bytes) → IsBytes s → trim_space (hex_encode s) ≡ hex_encode s
unfolding trim_space
trim_space-hex_encode s h =
    rw
      (
        trim_none space_width (length (hex_encode s)) (hex_encode s) (space_width-hex _ digits),
        trim_none space_width_back (length (hex_encode s)) (reverse (hex_encode s))
            (space_width_back-hex _ (All-reverse IsHexDigit (hex_encode s) digits)),
      )
      (reverse-reverse _)
  where
    digits : All IsHexDigit (hex_encode s)
    digits = hex_encode-IsHexDigit s h
