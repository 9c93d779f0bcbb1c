-- ===== src/Scratch/Reserve.antt =====
-- src/qx_format.c: the loop of qx_scratch_reserve_capacity.
use qx_mini_c.Prelude.{
  if◌then◌else◌, ◌==◌, ℕ, zero, suc, ◌*◌, ◌/◌, ◌≤◌, ◌<◌, ◌≡◌, ◌≢◌, ◌⊎◌, inl, inr, refl, ◌∙◌,
  Bool-cases, ltb, arith, mul64, u64_max, IsU64,
}
use qx_mini_c.Scratch.{
  grown, too_large, grow, Workspace, Ops, stuck, done, failed, reserve_capacity,
}

abbrev doublings : ℕ → ℕ → ℕ
doublings zero c = c
doublings (suc fuel) c = doublings fuel (c * 2)

-- The capacity that the loop ends with: large enough, or so large that it cannot double in 64 bits.
grow_ends :
    (fuel c r : ℕ)
    → IsU64 c
    → IsU64 r
    → u64_max < doublings fuel c
    → ((n : ℕ) × (grow fuel c r ≡ grown n) × (r ≤ n) × (c ≤ n) × IsU64 n)
      ⊎ ((grow fuel c r ≡ too_large) × (u64_max / 2 < r))
unfolding grow
grow_ends zero c r w v h = absurd (omega (arith, h, w))
grow_ends (suc fuel) c r w v h = elim (Bool-cases (ltb c r)) [
  | inl short ↦ elim (Bool-cases (ltb (u64_max / 2) c)) [
    | inl large ↦ inr (ground (arith, short, large), ground (arith, short, large))
    | inr small ↦
        let next : grow (suc fuel) c r ≡ grow fuel (mul64 c 2) r = ground (arith, short, small) in
        let twice : mul64 c 2 ≡ c * 2 = ground (arith, small) in
        elim (grow_ends fuel (mul64 c 2) r (omega arith) v (rw twice h)) [
          | inl (n, e, low, high, word) ↦ inl (n, next ∙ e, low, omega (arith, high, twice), word)
          | inr (e, large) ↦ inr (next ∙ e, large)
        ]
  ]
  | inr enough ↦ inl (c, ground (arith, enough), ground (arith, enough), omega arith, w)
]

-- What a reserve that succeeds gives.
pub record Reserved (w : Workspace) (required : ℕ) (w' : Workspace) : Type 0 where
  pub enough : required ≤ w'.capacity
  pub no_less : w.capacity ≤ w'.capacity
  pub word : IsU64 w'.capacity
  pub used_kept : w'.used ≡ w.used
  pub unmoved : (w.capacity < required) ⊎ (w' ≡ w)

many_doublings : (c : ℕ) → 0 < c → u64_max < doublings 65 c
many_doublings c h = omega arith

module _ {C : Type 0} (ops : Ops C) (w : Workspace) (required : ℕ) (c : C)
    (capacity_word : IsU64 w.capacity) (required_word : IsU64 required) where
  unfoldable start : ℕ
  start = if w.capacity == 0 then 4096 else w.capacity

  start_ends :
      ((n : ℕ) × (grow 65 start required ≡ grown n) × (required ≤ n) × (w.capacity ≤ n) × IsU64 n)
      ⊎ ((grow 65 start required ≡ too_large) × (u64_max / 2 < required))
  unfolding start
  start_ends =
      let word : IsU64 start = ground (arith, capacity_word) in
      let positive : 0 < start = ground arith in
      let above : w.capacity ≤ start = ground arith in
      elim (grow_ends 65 start required word required_word (many_doublings start positive)) [
        | inl (n, e, low, high, n_word) ↦ inl (n, e, low, omega (arith, above, high), n_word)
        | inr large ↦ inr large
      ]

  -- With 64-bit capacities the loop of qx_scratch_reserve_capacity ends within its fuel.
  pub reserve_capacity-ne-stuck : (c' : C) → reserve_capacity ops w required c ≢ failed stuck c'
  unfolding reserve_capacity start
  reserve_capacity-ne-stuck c' h = elim start_ends [
    | inl (n, e, low, high, word) ↦ ground (arith, h, e)
    | inr (e, large) ↦ ground (arith, h, e)
  ]

  -- With 64-bit capacities, a reserve that succeeds gives at least the bytes required, never less
  -- capacity than before and still in 64 bits, and keeps the bytes in use; the block moves only
  -- when the capacity was too small.
  pub reserve_capacity-Reserved :
      (w' : Workspace) (c' : C)
      → reserve_capacity ops w required c ≡ done w' c'
      → Reserved w required w'
  unfolding reserve_capacity start
  reserve_capacity-Reserved w' c' h = elim (Bool-cases (ltb w.capacity required)) [
    | inr roomy ↦
        let same : w' ≡ w = ground (arith, h, roomy) in
        let all : Reserved w required w = record {
          enough = ground (arith, roomy);
          no_less = omega arith;
          word = capacity_word;
          used_kept = refl;
          unmoved = inr refl;
        } in
        rw same all
    | inl short ↦ elim start_ends [
      | inl (n, e, low, high, word) ↦
          let cap : w'.capacity ≡ n = ground (arith, h, short, e) in
          let kept : w'.used ≡ w.used = ground (arith, h, short, e) in
          record {
            enough = omega (arith, cap, low);
            no_less = omega (arith, cap, high);
            word = omega (arith, cap, word);
            used_kept = kept;
            unmoved = inl (ground (arith, short));
          }
      | inr (e, large) ↦ ground (arith, h, short, e)
    ]
  ]
