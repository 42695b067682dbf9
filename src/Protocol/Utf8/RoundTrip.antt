-- ===== src/Protocol/Utf8/RoundTrip.antt =====
-- Decoding the encoding of a well-formed string.
use mathlib.Core.Option
use sinterdb.Prelude.{
  ℕ, ◌+◌, ◌-◌, ◌*◌, ◌/◌, ◌%◌, ◌≤◌, ◌<◌, ◌≡◌, ◌≢◌, refl, ap, ◌∙◌, true, false, ◌&&◌, Option, none,
  some, List, [], ◌∷◌, ◌++◌, Bytes, Str, ltb, ◌==◌, if◌then◌else◌, arith, Bool-cases, inl, inr,
}
use sinterdb.Protocol.Utf8.{
  is_high, is_low, is_surrogate, code_points, no_surrogate, is_well_formed, encode_point,
  encode_points, utf8_encode, Decoder, idle, lead, trail, decode_byte, decode_points, strip_bom,
  point_units, points_units, utf8_decode,
}

step_of :
    (d d' : Decoder) (b : ℕ) (out : List ℕ) (bs : Bytes)
    → decode_byte d b ≡ some (d', out)
    → decode_points d (b ∷ bs) ≡ Option.map (λ ps. out ++ ps) (decode_points d' bs)
unfolding decode_points
step_of d d' b out bs h = rw (h, decode_points)

map-nil : (o : Option (List ℕ)) → Option.map (λ ps. [] ++ ps) o ≡ o
map-nil none = refl
map-nil (some ps) = refl

abbrev after : ℕ → ℕ → Decoder
after point needed = record { point = point; needed = needed; lower = 0x80; upper = 0xbf }

lead_two :
    (p : ℕ) → 0x80 ≤ p → p < 0x800 → decode_byte idle (0xc0 + p / 64) ≡ some (after (p / 64) 1, [])
unfolding decode_byte lead trail
lead_two p lo hi = ground arith

trail_last :
    (q r : ℕ) → r < 64 → decode_byte (after q 1) (0x80 + r) ≡ some (idle, (q * 64 + r) ∷ [])
unfolding decode_byte lead trail
trail_last q r h = ground arith

trail_two :
    (q r : ℕ) → r < 64 → decode_byte (after q 2) (0x80 + r) ≡ some (after (q * 64 + r) 1, [])
unfolding decode_byte lead trail
trail_two q r h = ground arith

lead_three :
    (p : ℕ)
    → 0x800 ≤ p
    → p < 0x10000
    → is_surrogate p ≡ false
    → (d : Decoder) × (decode_byte idle (0xe0 + p / 4096) ≡ some (d, []))
      × (decode_byte d (0x80 + p / 64 % 64) ≡ some (after (p / 64) 1, []))
unfolding decode_byte lead trail
lead_three p lo hi s = (
  record {
    point = p / 4096;
    needed = 2;
    lower = if p / 4096 == 0 then 0xa0 else 0x80;
    upper = if p / 4096 == 13 then 0x9f else 0xbf;
  },
  ground arith,
  ground arith,
)

lead_four :
    (p : ℕ)
    → 0x10000 ≤ p
    → p < 0x110000
    → (d : Decoder) × (decode_byte idle (0xf0 + p / 262144) ≡ some (d, []))
      × (decode_byte d (0x80 + p / 4096 % 64) ≡ some (after (p / 4096) 2, []))
unfolding decode_byte lead trail
lead_four p lo hi = (
  record {
    point = p / 262144;
    needed = 3;
    lower = if p / 262144 == 0 then 0x90 else 0x80;
    upper = if p / 262144 == 4 then 0x8f else 0xbf;
  },
  ground arith,
  ground arith,
)

abbrev prepend : ℕ → Option (List ℕ) → Option (List ℕ)
prepend p = Option.map (λ ps. (p ∷ []) ++ ps)

decode_one :
    (p : ℕ) (bs : Bytes)
    → p < 0x80
    → decode_points idle (p ∷ bs) ≡ prepend p (decode_points idle bs)
unfolding decode_byte lead
decode_one p bs h = step_of idle idle p (p ∷ []) bs (ground arith)

decode_two :
    (p : ℕ) (bs : Bytes)
    → 0x80 ≤ p
    → p < 0x800
    → decode_points idle ((0xc0 + p / 64) ∷ (0x80 + p % 64) ∷ bs)
      ≡ prepend p (decode_points idle bs)
decode_two p bs lo hi =
    let whole : p / 64 * 64 + p % 64 ≡ p = omega arith in
    step_of idle (after (p / 64) 1) (0xc0 + p / 64) [] _ (lead_two p lo hi)
    ∙ map-nil _
    ∙ step_of (after (p / 64) 1) idle (0x80 + p % 64) (p ∷ []) bs
        (trail_last (p / 64) (p % 64) (omega arith) ∙ ap (λ q. some (idle, q ∷ [])) whole)

silent :
    (d d' : Decoder) (b : ℕ) (bs : Bytes)
    → decode_byte d b ≡ some (d', [])
    → decode_points d (b ∷ bs) ≡ decode_points d' bs
silent d d' b bs h = step_of d d' b [] bs h ∙ map-nil _

decode_last :
    (p : ℕ) (bs : Bytes)
    → decode_points (after (p / 64) 1) ((0x80 + p % 64) ∷ bs) ≡ prepend p (decode_points idle bs)
decode_last p bs =
    let whole : p / 64 * 64 + p % 64 ≡ p = omega arith in
    step_of (after (p / 64) 1) idle (0x80 + p % 64) (p ∷ []) bs
      (trail_last (p / 64) (p % 64) (omega arith) ∙ ap (λ q. some (idle, q ∷ [])) whole)

decode_three :
    (p : ℕ) (bs : Bytes)
    → 0x800 ≤ p
    → p < 0x10000
    → is_surrogate p ≡ false
    → decode_points idle ((0xe0 + p / 4096) ∷ (0x80 + p / 64 % 64) ∷ (0x80 + p % 64) ∷ bs)
      ≡ prepend p (decode_points idle bs)
decode_three p bs lo hi s =
    let (d, first, second) = lead_three p lo hi s in
    silent idle d _ _ first ∙ silent d (after (p / 64) 1) _ _ second ∙ decode_last p bs

decode_four :
    (p : ℕ) (bs : Bytes)
    → 0x10000 ≤ p
    → p < 0x110000
    → decode_points idle
        ((0xf0 + p / 262144) ∷ (0x80 + p / 4096 % 64) ∷ (0x80 + p / 64 % 64) ∷ (0x80 + p % 64) ∷ bs)
      ≡ prepend p (decode_points idle bs)
decode_four p bs lo hi =
    let (d, first, second) = lead_four p lo hi in
    let middle : p / 4096 * 64 + p / 64 % 64 ≡ p / 64 = omega arith in
    silent idle d _ _ first
    ∙ silent d (after (p / 4096) 2) _ _ second
    ∙ silent (after (p / 4096) 2) (after (p / 64) 1) _ _
        (trail_two (p / 4096) (p / 64 % 64) (omega arith) ∙ ap (λ q. some (after q 1, [])) middle)
    ∙ decode_last p bs

decode-encode_point :
    (p : ℕ) (bs : Bytes)
    → p < 0x110000
    → is_surrogate p ≡ false
    → decode_points idle (encode_point p ++ bs) ≡ prepend p (decode_points idle bs)
unfolding encode_point
decode-encode_point p bs h s = elim (Bool-cases (ltb p 0x80)) [
  | inl one ↦ rw one (decode_one p bs (ground arith))
  | inr more ↦ elim (Bool-cases (ltb p 0x800)) [
    | inl two ↦ rw (more, two) (decode_two p bs (ground arith) (ground arith))
    | inr more2 ↦ elim (Bool-cases (ltb p 0x10000)) [
      | inl three ↦ rw (more, more2, three) (decode_three p bs (ground arith) (ground arith) s)
      | inr four ↦ rw (more, more2, four) (decode_four p bs (ground arith) h)
    ]
  ]
]

abbrev Below : List ℕ → Type 0
Below [] = Unit
Below (p ∷ ps) = (p < 0x110000) × Below ps

decode-encode_points :
    (ps : List ℕ)
    → Below ps
    → no_surrogate ps ≡ true
    → decode_points idle (encode_points ps) ≡ some ps
unfolding encode_points no_surrogate
decode-encode_points [] b h = unfold decode_points in refl
decode-encode_points (p ∷ ps) (lt, b) h =
    let plain : is_surrogate p ≡ false = ground arith in
    rw plain (
      decode-encode_point p (encode_points ps) lt plain
      ∙ rw (decode-encode_points ps b (ground arith)) refl)

-- The code units of a JavaScript string.
abbrev pub AreUnits : Str → Type 0
AreUnits [] = Unit
AreUnits (u ∷ s) = (u < 0x10000) × AreUnits s

code_points-Below : (s : Str) → AreUnits s → Below (code_points s)
unfolding code_points
code_points-Below [] h = tt
code_points-Below (u ∷ []) h = (omega arith, tt)
code_points-Below (u ∷ v ∷ s) (hu, (hv, h)) = elim (Bool-cases (is_high u && is_low v)) [
  | inl pair ↦ rw (pair, code_points) (ground arith, code_points-Below s h)
  | inr single ↦ rw (single, code_points) (omega arith, code_points-Below (v ∷ s) (hv, h))
]

pair_units :
    (u v : ℕ)
    → (is_high u && is_low v) ≡ true
    → point_units (0x10000 + (u - 0xd800) * 1024 + (v - 0xdc00)) ≡ u ∷ v ∷ []
unfolding point_units
pair_units u v h = ground arith

single_units : (u : ℕ) → u < 0x10000 → point_units u ≡ u ∷ []
unfolding point_units
single_units u h = ground arith

points_units-code_points : (s : Str) → AreUnits s → points_units (code_points s) ≡ s
unfolding code_points points_units
points_units-code_points [] h = refl
points_units-code_points (u ∷ []) (hu, h) = rw (single_units u hu)
points_units-code_points (u ∷ v ∷ s) (hu, (hv, h)) = elim (Bool-cases (is_high u && is_low v)) [
  | inl pair ↦ rw (pair, code_points) (rw (pair_units u v pair, points_units-code_points s h))
  | inr single ↦
      rw (single, code_points) (rw (single_units u hu, points_units-code_points (v ∷ s) (hv, h)))
]

-- A string that a document can hold without loss: no lone surrogate, no byte order mark in front.
abbrev pub HasNoBom : Str → Type 0
HasNoBom [] = Unit
HasNoBom (u ∷ s) = u ≢ 0xfeff

strip_bom-code_points : (s : Str) → HasNoBom s → strip_bom (code_points s) ≡ code_points s
unfolding strip_bom code_points
strip_bom-code_points [] h = refl
strip_bom-code_points (u ∷ []) h = ground arith
strip_bom-code_points (u ∷ v ∷ s) h = ground arith

decode_points-utf8_encode :
    (s : Str)
    → AreUnits s
    → is_well_formed s ≡ true
    → decode_points idle (utf8_encode s) ≡ some (code_points s)
unfolding utf8_encode is_well_formed
decode_points-utf8_encode s h w = decode-encode_points (code_points s) (code_points-Below s h) w

-- A well-formed string that does not begin with a byte order mark is read back as it was.
pub utf8_decode-utf8_encode :
    (s : Str)
    → AreUnits s
    → is_well_formed s ≡ true
    → HasNoBom s
    → utf8_decode (utf8_encode s) ≡ some s
unfolding utf8_decode
utf8_decode-utf8_encode s h w b =
    rw (decode_points-utf8_encode s h w, strip_bom-code_points s b, points_units-code_points s h)

bom_first : (s : Str) → code_points (0xfeff ∷ s) ≡ 0xfeff ∷ code_points s
unfolding code_points
bom_first [] = refl
bom_first (v ∷ s) = refl

-- A byte order mark at the start of a well-formed string is lost.
pub utf8_decode-bom :
    (s : Str)
    → AreUnits s
    → is_well_formed s ≡ true
    → utf8_decode (utf8_encode (0xfeff ∷ s)) ≡ some s
utf8_decode-bom s h w =
    let formed : is_well_formed (0xfeff ∷ s) ≡ true =
      unfold is_well_formed in rw (bom_first s) (unfold no_surrogate is_well_formed in w) in
    unfold utf8_decode in
    rw (decode_points-utf8_encode (0xfeff ∷ s) (omega arith, h) formed, bom_first s)
      (unfold strip_bom in ap some (points_units-code_points s h))
