-- ===== src/Protocol/Utf8.antt =====
-- `TextEncoder` and the fatal `TextDecoder` of the Encoding Standard, on strings of UTF-16 units.
pub mod RoundTrip
use mathlib.Core.List.{flat_map}
use mathlib.Core.Option
use sinterdb.Prelude.{
  ℕ, ◌+◌, ◌-◌, ◌*◌, ◌/◌, ◌%◌, Bool, true, false, not, ◌&&◌, Option, none, some, List, [], ◌∷◌, ◌++◌,
  Bytes, Str, leb, ltb, ◌==◌, if◌then◌else◌,
}

abbrev pub is_high : ℕ → Bool
is_high u = leb 0xd800 u && leb u 0xdbff

abbrev pub is_low : ℕ → Bool
is_low u = leb 0xdc00 u && leb u 0xdfff

abbrev pub is_surrogate : ℕ → Bool
is_surrogate u = leb 0xd800 u && leb u 0xdfff

-- The code points of a string; a lone surrogate stands for itself.
unfoldable pub code_points : Str → List ℕ
code_points [] = []
code_points (u ∷ []) = u ∷ []
code_points (u ∷ v ∷ rest) = elim (is_high u && is_low v) [
  | true ↦ (0x10000 + (u - 0xd800) * 1024 + (v - 0xdc00)) ∷ code_points rest
  | false ↦ u ∷ code_points (v ∷ rest)
]

unfoldable pub no_surrogate : List ℕ → Bool
no_surrogate [] = true
no_surrogate (p ∷ ps) = not (is_surrogate p) && no_surrogate ps

-- `String.prototype.isWellFormed`.
unfoldable pub is_well_formed : Str → Bool
is_well_formed s = no_surrogate (code_points s)

unfoldable pub encode_point : ℕ → Bytes
encode_point p =
    if ltb p 0x80
    then p ∷ []
    else if ltb p 0x800
    then (0xc0 + p / 64) ∷ (0x80 + p % 64) ∷ []
    else if ltb p 0x10000
    then (0xe0 + p / 4096) ∷ (0x80 + p / 64 % 64) ∷ (0x80 + p % 64) ∷ []
    else (0xf0 + p / 262144) ∷ (0x80 + p / 4096 % 64) ∷ (0x80 + p / 64 % 64) ∷ (0x80 + p % 64) ∷ []

-- A lone surrogate is encoded as the replacement character.
unfoldable pub encode_points : List ℕ → Bytes
encode_points [] = []
encode_points (p ∷ ps) = encode_point (if is_surrogate p then 0xfffd else p) ++ encode_points ps

-- `TextEncoder.encode`.
unfoldable pub utf8_encode : Str → Bytes
utf8_encode s = encode_points (code_points s)

-- The decoder's variables: the code point so far, the bytes that it still needs, and the bounds of
-- the next byte.
pub record Decoder : Type 0 where
  pub point : ℕ
  pub needed : ℕ
  pub lower : ℕ
  pub upper : ℕ

abbrev pub idle : Decoder
idle = record { point = 0; needed = 0; lower = 0x80; upper = 0xbf }

-- The first byte of a sequence; `none` is a fatal error.
unfoldable pub lead : ℕ → Option (Decoder × List ℕ)
lead b =
    if leb b 0x7f
    then some (idle, b ∷ [])
    else if leb 0xc2 b && leb b 0xdf
    then some (record { point = b - 0xc0; needed = 1; lower = 0x80; upper = 0xbf }, [])
    else if leb 0xe0 b && leb b 0xef
    then some (
      record {
        point = b - 0xe0;
        needed = 2;
        lower = if b == 0xe0 then 0xa0 else 0x80;
        upper = if b == 0xed then 0x9f else 0xbf;
      },
      [],
    )
    else if leb 0xf0 b && leb b 0xf4
    then some (
      record {
        point = b - 0xf0;
        needed = 3;
        lower = if b == 0xf0 then 0x90 else 0x80;
        upper = if b == 0xf4 then 0x8f else 0xbf;
      },
      [],
    )
    else none

-- A further byte of a sequence.
unfoldable pub trail : Decoder → ℕ → Option (Decoder × List ℕ)
trail d b =
    if leb d.lower b && leb b d.upper
    then (if d.needed == 1
        then some (idle, (d.point * 64 + (b - 0x80)) ∷ [])
        else some (
          record {
            point = d.point * 64 + (b - 0x80);
            needed = d.needed - 1;
            lower = 0x80;
            upper = 0xbf;
          },
          [],
        ))
    else none

unfoldable pub decode_byte : Decoder → ℕ → Option (Decoder × List ℕ)
decode_byte d b = if d.needed == 0 then lead b else trail d b

unfoldable pub decode_points : Decoder → Bytes → Option (List ℕ)
decode_points d [] = if d.needed == 0 then some [] else none
decode_points d (b ∷ bs) = elim (decode_byte d b) [
  | none ↦ none
  | some (d', out) ↦ Option.map (λ ps. out ++ ps) (decode_points d' bs)
]

-- The decoder is made without `ignoreBOM`, so it drops a byte order mark at the start.
unfoldable pub strip_bom : List ℕ → List ℕ
strip_bom [] = []
strip_bom (p ∷ ps) = if p == 0xfeff then ps else p ∷ ps

unfoldable pub point_units : ℕ → Str
point_units p =
    if ltb p 0x10000
    then p ∷ []
    else (0xd800 + (p - 0x10000) / 1024) ∷ (0xdc00 + (p - 0x10000) % 1024) ∷ []

unfoldable pub points_units : List ℕ → Str
points_units [] = []
points_units (p ∷ ps) = point_units p ++ points_units ps

-- `TextDecoder.decode`; `none` if it throws.
unfoldable pub utf8_decode : Bytes → Option Str
utf8_decode bs = Option.map (λ ps. points_units (strip_bom ps)) (decode_points idle bs)
