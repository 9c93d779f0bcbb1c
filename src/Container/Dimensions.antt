-- ===== src/Container/Dimensions.antt =====
-- src/qx_format.c: qx_validate_tensor_dimensions and qx_expected_tensor_byte_size.
use native.Mathlib.Nat.{le-div_iff_mul-le, le-mul_of_pos_right, mul_assoc}
use mathlib.Core.Path.{subst}
use qx_mini_c.Prelude.{
  no_overflow, mul64-fits, ℕ, zero, suc, ◌-◌, ◌*◌, ◌≤◌, ◌<◌, ◌≡◌, ◌≢◌, ◌↔◌, refl, Bool-cases,
  Option-cases, inl, inr, List, [], ◌∷◌, some, ltb, take, drop, All, IsU64, ap, ◌∙◌, u64_max, arith,
  mul64,
}
use qx_mini_c.Container.{Tensor, max_dims, dimensions_loop, validate_dimensions}

abbrev pub product : List ℕ → ℕ
product [] = 1
product (x ∷ xs) = x * product xs

-- What a valid shape with so many elements is: the first `rank` dimensions are positive and multiply
-- to that number, which fits 64 bits, and the others are 0.
pub record IsShape (rank : ℕ) (dims : List ℕ) (elements : ℕ) : Type 0 where
  pub used : All (λ x. 0 < x) (take rank dims)
  pub unused : All (λ x. x ≡ 0) (drop rank dims)
  pub volume : elements ≡ product (take rank dims)
  pub word : IsU64 elements

take_nil : (k : ℕ) → take {A = ℕ} k [] ≡ []
take_nil zero = refl
take_nil (suc k) = refl

drop_nil : (k : ℕ) → drop {A = ℕ} k [] ≡ []
drop_nil zero = refl
drop_nil (suc k) = refl

dimensions_loop_sound :
    (d rank : ℕ) (dims : List ℕ) (e n : ℕ)
    → IsU64 e
    → dimensions_loop d rank dims e ≡ some n
    → All (λ x. 0 < x) (take (rank - d) dims)
      × All (λ x. x ≡ 0) (drop (rank - d) dims)
      × (n ≡ e * product (take (rank - d) dims))
      × IsU64 n
unfolding dimensions_loop
dimensions_loop_sound d rank [] e n w h =
    let same : n ≡ e = ground (arith, h) in
    rw (take_nil (rank - d), drop_nil (rank - d))
      (tt, tt, omega (arith, same), omega (arith, same, w))
dimensions_loop_sound d rank (x ∷ dims) e n w h = elim (Bool-cases (ltb d rank)) [
  | inl used ↦
      let more : rank - d ≡ suc (rank - suc d) = ground arith in
      let pos : x ≢ 0 = ground (arith, used) in
      let fits = no_overflow e x pos (ground (arith, used)) in
      let (a, b, c, word) =
        dimensions_loop_sound (suc d) rank dims (mul64 e x) n (omega arith)
          (ground (arith, used)) in
      rw more (
        (omega (arith, pos), a),
        b,
        c
            ∙ ap (λ (t : ℕ). t * product (take (rank - suc d) dims)) (mul64-fits e x fits)
            ∙ mul_assoc e x (product (take (rank - suc d) dims)),
        word,
      )
  | inr unused ↦
      let none_left : rank - d ≡ 0 = ground arith in
      let none_next : rank - suc d ≡ 0 = omega (arith, none_left) in
      let z : x ≡ 0 = ground (arith, unused) in
      let (_, b, c, word) =
        dimensions_loop_sound (suc d) rank dims e n w (ground (arith, unused)) in
      rw none_left (
        tt,
        (z, subst (λ (k : ℕ). All (λ x. x ≡ 0) (drop k dims)) none_next b),
        subst (λ (k : ℕ). n ≡ e * product (take k dims)) none_next c,
        word,
      )
]

product_pos : (xs : List ℕ) → All (λ x. 0 < x) xs → 0 < product xs
product_pos [] h = omega arith
product_pos (x ∷ xs) h = grind (arith, product_pos xs h.1, h.0)

le_mul-fits : (a p : ℕ) → 0 < p → a * p ≤ u64_max → a ≤ u64_max
le_mul-fits a p h le = grind (arith, le-mul_of_pos_right a h)

-- The rounds from dimension `d` on accept a tail of positive dimensions and then zeros whose
-- product fits.
dimensions_loop_complete :
    (d rank : ℕ) (dims : List ℕ) (e : ℕ)
    → All (λ x. 0 < x) (take (rank - d) dims)
    → All (λ x. x ≡ 0) (drop (rank - d) dims)
    → e * product (take (rank - d) dims) ≤ u64_max
    → dimensions_loop d rank dims e ≡ some (e * product (take (rank - d) dims))
unfolding dimensions_loop
dimensions_loop_complete d rank [] e p z w =
    let whole : e ≡ e * product (take {A = ℕ} (rank - d) []) =
      rw (take_nil (rank - d)) (omega arith) in
    ap some whole
dimensions_loop_complete d rank (x ∷ dims) e p z w = elim (Bool-cases (ltb d rank)) [
  | inl used ↦
      let more : rank - d ≡ suc (rank - suc d) = ground arith in
      let k = rank - suc d in
      let here : All (λ x. 0 < x) (x ∷ take k dims) = rw more at p in
      let there : All (λ x. x ≡ 0) (drop k dims) = rw more at z in
      let bound : e * (x * product (take k dims)) ≤ u64_max = rw more at w in
      let rest : e * x * product (take k dims) ≤ u64_max =
        rw (mul_assoc e x (product (take k dims))) bound in
      let fits =
        le_mul-fits (e * x) (product (take k dims)) (product_pos (take k dims) here.1) rest in
      let word = mul64-fits e x fits in
      let ih = dimensions_loop_complete (suc d) rank dims (mul64 e x) here.1 there (rw word rest) in
      let quotient = (le-div_iff_mul-le here.0).1 fits in
      let step : dimensions_loop d rank (x ∷ dims) e
          ≡ dimensions_loop (suc d) rank dims (mul64 e x) =
        ground (arith, used, here, quotient) in
      let value : mul64 e x * product (take k dims) ≡ e * (x * product (take k dims)) =
        ap (λ (m : ℕ). m * product (take k dims)) word ∙ mul_assoc e x (product (take k dims)) in
      rw more (step ∙ ih ∙ ap some value)
  | inr unused ↦
      let none_left : rank - d ≡ 0 = ground arith in
      let none_next : rank - suc d ≡ 0 = omega (arith, none_left) in
      let zeros : All (λ x. x ≡ 0) (x ∷ dims) = rw none_left at z in
      let ih =
        dimensions_loop_complete (suc d) rank dims e (rw none_next tt) (rw none_next zeros.1)
          (rw none_next (rw none_left at w)) in
      let step : dimensions_loop d rank (x ∷ dims) e ≡ dimensions_loop (suc d) rank dims e =
        ground (arith, unused, zeros) in
      let value : e * product (take (rank - suc d) dims) ≡ e * 1 = rw none_next refl in
      rw none_left (step ∙ ih ∙ ap some value)
]

module _ (rank : ℕ) (dims : List ℕ) (n : ℕ) where
  all_used : rank - 0 ≡ rank
  all_used = omega arith

  dimensions_loop-IsShape : dimensions_loop 0 rank dims 1 ≡ some n → IsShape rank dims n
  dimensions_loop-IsShape done =
      let (used, unused, volume, word) = dimensions_loop_sound 0 rank dims 1 n (omega arith) done in
      let volume' : n ≡ 1 * product (take rank dims) = rw all_used at volume in
      record {
        used = rw all_used at used;
        unused = rw all_used at unused;
        volume = omega (arith, volume');
        word = word;
      }

  dimensions_loop_of_IsShape : IsShape rank dims n → dimensions_loop 0 rank dims 1 ≡ some n
  dimensions_loop_of_IsShape s =
      let fits : 1 * product (take rank dims) ≤ u64_max = omega (arith, s.volume, s.word) in
      let value : 1 * product (take (rank - 0) dims) ≡ n = rw all_used (omega (arith, s.volume)) in
      dimensions_loop_complete 0 rank dims 1 (rw all_used s.used) (rw all_used s.unused)
        (rw all_used fits)
      ∙ ap some value

-- Successful validation, with the number of elements that it reports, is exactly a rank from 1 to 4
-- and a shape of so many elements.
pub validate_dimensions_iff :
    (t : Tensor) (n : ℕ)
    → (validate_dimensions t ≡ some n)
      ↔ ((0 < t.rank) × (t.rank ≤ max_dims) × IsShape t.rank t.dims n)
unfolding validate_dimensions
validate_dimensions_iff t n = (
  λ h. elim (Option-cases (dimensions_loop 0 t.rank t.dims 1)) [
    | inl none_left ↦ ground (arith, h, none_left)
    | inr (m, done) ↦
        let same : m ≡ n = ground (arith, h, done) in
        (
          ground (arith, h),
          ground (arith, h),
          dimensions_loop-IsShape t.rank t.dims n (rw same at done),
        )
  ],
  λ (low, high, s).
      let all = product_pos (take t.rank t.dims) s.used in
      let done = dimensions_loop_of_IsShape t.rank t.dims n s in
      ground (arith, low, high, done, s.volume, all),
)
