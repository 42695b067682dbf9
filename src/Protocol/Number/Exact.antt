-- ===== src/Protocol/Number/Exact.antt =====
-- Converting an integral double to an integer and back loses nothing, below 2 ^ 53 in size.
use native.Mathlib.Nat.{pow-suc, mul-suc, div-add-mod'}
use sinterdb.Prelude.{
  ℕ, zero, suc, ◌+◌, ◌-◌, ◌*◌, ◌/◌, ◌%◌, ◌^◌, ◌≤◌, ◌<◌, ◌≡◌, ◌≢◌, refl, ap, true, false, some,
  arith, leb, ◌==◌, Bool-cases, inl, inr, ◌∙◌, sym, Option-cases,
}
use sinterdb.Prelude.Int.{ℤ}
use sinterdb.Protocol.Number.{
  normal_magnitude, negative, exponent, fraction, negative_zero, magnitude, integer_value,
  normalise, of_magnitude, of_ℤ, is_safe, signed,
}

pow-pos : (s : ℕ) → 0 < 2 ^ s
pow-pos zero = omega arith
pow-pos (suc s) = omega (arith, pow-suc 2 s, pow-pos s)

lt_of_double : (n p m : ℕ) → 0 < p → n * 2 * p ≡ m → m < 2 ^ 53 → n < 2 ^ 52
lt_of_double n zero m h q hi = elim h [ ]
lt_of_double n (suc p) m h q hi =
    let e : n * 2 * suc p ≡ n * 2 * p + n * 2 = mul-suc (n * 2) p in omega arith

-- The doubling loop undoes a division by 2 ^ s.
normalise_lem :
    (s f n m e : ℕ) → s ≤ f → n * 2 ^ s ≡ m → 2 ^ 52 ≤ m → m < 2 ^ 53 → normalise f n e ≡ (m, e - s)
unfolding normalise
normalise_lem zero zero n m e h p lo hi = ground arith
normalise_lem zero (suc f) n m e h p lo hi = ground arith
normalise_lem (suc s) zero n m e h p lo hi = absurd (omega arith)
normalise_lem (suc s) (suc f) n m e h p lo hi =
    let q : n * 2 * 2 ^ s ≡ m = omega (arith, ap (λ (t : ℕ). n * t) (pow-suc 2 s)) in
    let small : n < 2 ^ 52 = lt_of_double n (2 ^ s) m (pow-pos s) q hi in
    let ih = normalise_lem s f (n * 2) m (e - 1) (omega arith) q lo hi in ground (arith, ih)

-- The significand of a normal double has its leading bit set.
of_magnitude_lem :
    (s n m : ℕ)
    → s ≤ 52
    → n * 2 ^ s ≡ m
    → 2 ^ 52 ≤ m
    → m < 2 ^ 53
    → of_magnitude n ≡ (1075 - s) * 2 ^ 52 + (m - 2 ^ 52)
unfolding of_magnitude
of_magnitude_lem s n m h p lo hi =
    let pos_n : n ≢ 0 = λ z. omega (arith, ap (λ (t : ℕ). t * 2 ^ s) z) in
    ground (arith, normalise_lem s 52 n m 1075 h p lo hi)

shift_is_zero : (k m n : ℕ) → 2 ^ 52 ≤ m → n ≡ m * 2 ^ k → n < 2 ^ 53 → k ≡ 0
shift_is_zero zero m n lo e h = refl
shift_is_zero (suc k) m n lo e h = absurd (
    lt_irrefl
      (lt_of_double m (2 ^ k) n (pow-pos k) (omega (arith, ap (λ (t : ℕ). m * t) (pow-suc 2 k))) h)
      lo)
  where
    lt_irrefl : m < 2 ^ 52 → 2 ^ 52 ≤ m → ⊥
    lt_irrefl p q = omega arith

normal_magnitude_lem :
    (m e n : ℕ)
    → 2 ^ 52 ≤ m
    → m < 2 ^ 53
    → normal_magnitude m e ≡ some n
    → n < 2 ^ 53
    → of_magnitude n ≡ e * 2 ^ 52 + (m - 2 ^ 52)
unfolding normal_magnitude
normal_magnitude_lem m e n lo hi h safe = elim (Bool-cases (leb 1075 e)) [
  | inl big ↦
      let exact : n ≡ m * 2 ^ (e - 1075) = ground arith in
      let none_left : e - 1075 ≡ 0 = shift_is_zero (e - 1075) m n lo exact safe in
      let e_is : e ≡ 1075 = ground arith in
      let same : n ≡ m = exact ∙ ap (λ k. m * 2 ^ k) none_left ∙ omega arith in
      omega (arith, of_magnitude_lem 0 n m (omega arith) (omega (arith, same)) lo hi)
  | inr small ↦
      let whole : m % 2 ^ (1075 - e) ≡ 0 = ground arith in
      let exact : n ≡ m / 2 ^ (1075 - e) = ground arith in
      let low : 1023 ≤ e = ground arith in
      let high : e < 1075 = ground arith in
      let product : n * 2 ^ (1075 - e) ≡ m =
        ap (λ t. t * 2 ^ (1075 - e)) exact
        ∙ omega (arith, div-add-mod' m (2 ^ (1075 - e)), whole) in
      omega (arith, of_magnitude_lem (1075 - e) n m (omega arith) product lo hi)
]

of_magnitude-magnitude :
    (b n : ℕ) → b < 2 ^ 63 → magnitude b ≡ some n → n < 2 ^ 53 → of_magnitude n ≡ b
unfolding magnitude
of_magnitude-magnitude b n lt h safe = elim (Bool-cases (exponent b == 0)) [
  | inl z ↦
      let n_is : n ≡ 0 = ground arith in
      let b_is : b ≡ 0 = ground arith in ap of_magnitude n_is ∙ unfold of_magnitude in sym b_is
  | inr nz ↦
      let normal : normal_magnitude (2 ^ 52 + fraction b) (exponent b) ≡ some n = ground arith in
      normal_magnitude_lem (2 ^ 52 + fraction b) (exponent b) n (omega arith) (omega arith) normal
        safe
      ∙ omega arith
]

magnitude-sub : (b : ℕ) → 2 ^ 63 ≤ b → b < 2 ^ 64 → magnitude (b - 2 ^ 63) ≡ magnitude b
unfolding magnitude
magnitude-sub b lo hi =
    let same_exponent : exponent (b - 2 ^ 63) ≡ exponent b = omega arith in
    let same_fraction : fraction (b - 2 ^ 63) ≡ fraction b = omega arith in
    rw (same_exponent, same_fraction)

of_ℤ-plus :
    (b n : ℕ)
    → b < 2 ^ 63
    → magnitude b ≡ some n
    → is_safe (signed false n) ≡ true
    → of_ℤ (signed false n) ≡ b
unfolding of_ℤ of_magnitude
of_ℤ-plus b zero lt h safe = of_magnitude-magnitude b 0 lt h (omega arith)
of_ℤ-plus b (suc n) lt h safe = of_magnitude-magnitude b (suc n) lt h (ground arith)

of_ℤ-minus :
    (b n : ℕ)
    → 2 ^ 63 ≤ b
    → b < 2 ^ 64
    → b ≢ negative_zero
    → magnitude b ≡ some n
    → is_safe (signed true n) ≡ true
    → of_ℤ (signed true n) ≡ b
unfolding of_ℤ of_magnitude
of_ℤ-minus b zero lo hi nz h safe =
    let e =
      of_magnitude-magnitude (b - 2 ^ 63) 0 (omega arith) (magnitude-sub b lo hi ∙ h)
        (omega arith) in
    absurd (omega arith)
of_ℤ-minus b (suc n) lo hi nz h safe =
    let e =
      of_magnitude-magnitude (b - 2 ^ 63) (suc n) (omega arith) (magnitude-sub b lo hi ∙ h)
        (ground arith) in
    ap (λ t. 2 ^ 63 + t) e ∙ omega arith

of_ℤ-signed :
    (b n : ℕ)
    → b < 2 ^ 64
    → b ≢ negative_zero
    → magnitude b ≡ some n
    → is_safe (signed (negative b) n) ≡ true
    → of_ℤ (signed (negative b) n) ≡ b
of_ℤ-signed b n lt nz h safe = elim (Bool-cases (negative b)) [
  | inr plus ↦ rw plus (of_ℤ-plus b n (ground arith) h (rw plus at safe))
  | inl minus ↦ rw minus (of_ℤ-minus b n (ground arith) lt nz h (rw minus at safe))
]

-- A safe integral double that is not -0 comes back from the integer that it stands for.
pub of_ℤ-integer_value :
    (b : ℕ) (z : ℤ)
    → b < 2 ^ 64
    → b ≢ negative_zero
    → integer_value b ≡ some z
    → is_safe z ≡ true
    → of_ℤ z ≡ b
unfolding integer_value
of_ℤ-integer_value b z lt nz h safe = elim (Option-cases (magnitude b)) [
  | inl e ↦ ground arith
  | inr (n, e) ↦
      let z_is : signed (negative b) n ≡ z = ground arith in
      rw (← z_is) (of_ℤ-signed b n lt nz e (rw z_is safe))
]
