-- ===== src/Container/Align.antt =====
-- src/qx_format.c: qx_align_u64 and qx_align_u64_checked.
use qx_mini_c.Prelude.{ℕ, ◌+◌, ◌-◌, ◌%◌, ◌≤◌, ◌<◌, ◌≡◌, ◌↔◌, some, IsU64, arith, sym, ap, ◌∙◌}
use qx_mini_c.Container.{align_u64_checked}
use native.Mathlib.Decide.{dec_le, ℕ_discrete}
use native.Mathlib.Nat.{mod-lt, mod-add-mod, mod-eq_of_lt, mod_self}

-- The next multiple of an alignment, as a 64-bit word.
pub record IsNext (value alignment aligned : ℕ) : Type 0 where
  pub multiple : aligned % alignment ≡ 0
  pub above : value ≤ aligned
  pub near : aligned < value + alignment
  pub word : IsU64 aligned

round_up : (v a : ℕ) → 0 < a → (v + (a - v % a)) % a ≡ 0
round_up v a h =
    let back : v % a + (a - v % a) ≡ a = omega (arith, mod-lt v h) in
    sym (mod-add-mod v a (a - v % a)) ∙ ap (λ (t : ℕ). t % a) back ∙ mod_self a

-- Two multiples less than `a` apart are one.
multiple_unique : (a r d : ℕ) → 0 < a → d < a → r % a ≡ 0 → (r + d) % a ≡ 0 → d ≡ 0
multiple_unique a r d h near here there =
    let lowest : (0 + d) % a ≡ 0 =
      ap (λ (t : ℕ). (t + d) % a) (sym here) ∙ mod-add-mod r a d ∙ there in
    let alone : 0 + d ≡ d = omega arith in
    omega (arith, mod-eq_of_lt near, ap (λ (t : ℕ). t % a) alone, lowest)

-- In a window of `a` numbers there is one multiple.
window_le : (v a p r : ℕ) → 0 < a → p % a ≡ 0 → r % a ≡ 0 → v ≤ p → r < v + a → p ≤ r → p ≡ r
window_le v a p r h mp mr low high le =
    let whole : p + (r - p) ≡ r = omega arith in
    let gap = multiple_unique a p (r - p) h (omega arith) mp (ap (λ (t : ℕ). t % a) whole ∙ mr) in
    omega (arith, gap)

window_unique :
    (v a p r : ℕ) → 0 < a → p % a ≡ 0 → r % a ≡ 0 → v ≤ p → v ≤ r → p < v + a → r < v + a → p ≡ r
window_unique v a p r h mp mr lp lr hp hr = elim (dec_le p r) [
  | yes le ↦ window_le v a p r h mp mr lp hr le
  | no gt ↦ sym (window_le v a r p h mr mp lr hp (omega arith))
]

module _ (value alignment : ℕ) (v_word : IsU64 value) (a_word : IsU64 alignment)
    (positive : 0 < alignment) where
  pub align_u64_checked-IsNext :
      (r : ℕ) → align_u64_checked value alignment ≡ some r → IsNext value alignment r
  unfolding align_u64_checked
  align_u64_checked-IsNext r h =
      let low = mod-lt value positive in
      record {
        multiple = ground (arith, h, low, round_up value alignment positive);
        above = ground (arith, h, low);
        near = ground (arith, h, low);
        word = ground (arith, h, low);
      }

  pub align_u64_checked_of_IsNext :
      (r : ℕ) → IsNext value alignment r → align_u64_checked value alignment ≡ some r
  unfolding align_u64_checked
  align_u64_checked_of_IsNext r n =
      let low = mod-lt value positive in
      elim (ℕ_discrete (value % alignment) 0) [
        | yes exact ↦
            let same =
              window_unique value alignment value r positive exact n.multiple (omega arith) n.above
                (omega arith) n.near in
            ground (arith, exact, same, v_word, positive)
        | no rest ↦
            let same =
              window_unique value alignment (value + (alignment - value % alignment)) r positive
                (round_up value alignment positive) n.multiple (omega arith) n.above
                (omega (arith, low, rest)) n.near in
            ground (arith, rest, same, low, n.word)
      ]

  -- For 64-bit words and a positive alignment: qx_align_u64_checked succeeds with a result exactly
  -- when this is the least multiple of the alignment that is not below the value and it fits 64
  -- bits.
  pub align_u64_checked_iff :
      (r : ℕ) → (align_u64_checked value alignment ≡ some r) ↔ IsNext value alignment r
  align_u64_checked_iff r = (align_u64_checked-IsNext r, align_u64_checked_of_IsNext r)
