-- ===== src/Tokenizer/Index/Walk.antt =====
-- src/qx_tokenizer.c: the loop over the slots of an index, in qx_tok_build_token_index and
-- qx_tok_find_token.
use mathlib.Core.Bool.{true≢false}
use native.Mathlib.Decide.{dec_lt}
use native.Mathlib.Nat.{mod-eq_of_lt, mod_self, mod-lt}
use qx_mini_c.Prelude.{
  ℕ, zero, suc, ◌+◌, ◌-◌, ◌%◌, ◌≤◌, ◌<◌, ◌≡◌, ◌≢◌, refl, sym, ap, ◌∙◌, Bool, true, List, [], ◌∷◌,
  ◌==◌, if◌then◌else◌, arith, length, get_or, set, Bool-cases, inl, inr,
}
use qx_mini_c.Tokenizer.Index.{hit, vacant, endless, probe}
use qx_mini_c.Tokenizer.Index.Found.{probe-hit}

get_or-set : (xs : List ℕ) (i j v : ℕ) → j ≢ i → get_or (set xs i v) j 0 ≡ get_or xs j 0
get_or-set [] i j v ne = refl
get_or-set (x ∷ xs) zero zero v ne = absurd (ne refl)
get_or-set (x ∷ xs) zero (suc j) v ne = refl
get_or-set (x ∷ xs) (suc i) zero v ne = refl
get_or-set (x ∷ xs) (suc i) (suc j) v ne = get_or-set xs i j v (λ e. ne (ap suc e))

get_or-set_here : (xs : List ℕ) (i v : ℕ) → i < length xs → get_or (set xs i v) i 0 ≡ v
get_or-set_here [] i v h = absurd (omega (arith, h))
get_or-set_here (x ∷ xs) zero v h = refl
get_or-set_here (x ∷ xs) (suc i) v h = get_or-set_here xs i v (omega (arith, h))

pub length-set : (xs : List ℕ) (i v : ℕ) → length (set xs i v) ≡ length xs
length-set [] i v = refl
length-set (x ∷ xs) zero v = refl
length-set (x ∷ xs) (suc i) v = ap suc (length-set xs i v)

module _ (mask : ℕ) where
  -- A path to an id is still there when an empty slot is filled.
  pub probe-set_keeps :
      (slots : List ℕ) (fuel start free v id : ℕ)
      → get_or slots free 0 ≡ 0
      → probe (λ x. x == id) slots mask fuel start ≡ hit id
      → probe (λ x. x == id) (set slots free v) mask fuel start ≡ hit id
  unfolding probe
  probe-set_keeps slots zero start free v id empty h = ground (arith, h)
  probe-set_keeps slots (suc fuel) start free v id empty h = elim (Bool-cases (start == free)) [
    | inl here ↦
        let same : start ≡ free = ground (arith, here) in
        let value : get_or slots start 0 ≡ 0 = ap (λ i. get_or slots i 0) same ∙ empty in
        ground (arith, h, value)
    | inr there ↦
        let apart : start ≢ free = λ e. ground (arith, e, there) in
        let value = get_or-set slots free start v apart in
        let next = probe-set_keeps slots fuel ((start + 1) % (mask + 1)) free v id empty in
        ground (arith, h, value, next)
  ]

  pub probe-vacant :
      (same : ℕ → Bool) (slots : List ℕ) (fuel start free : ℕ)
      → probe same slots mask fuel start ≡ vacant free
      → get_or slots free 0 ≡ 0
  unfolding probe
  probe-vacant same slots zero start free h = ground (arith, h)
  probe-vacant same slots (suc fuel) start free h = elim (Bool-cases (get_or slots start 0 == 0)) [
    | inl empty ↦
        let here : start ≡ free = ground (arith, h, empty) in
        ap (λ i. get_or slots i 0) (sym here) ∙ ground (arith, empty)
    | inr used ↦
        ground (arith, h, used, probe-vacant same slots fuel ((start + 1) % (mask + 1)) free)
  ]

  -- The id put in an empty slot that a walk ended at is found by the same walk.
  pub probe-set_new :
      (same : ℕ → Bool) (slots : List ℕ) (fuel start free id : ℕ)
      → free < length slots
      → probe same slots mask fuel start ≡ vacant free
      → probe (λ x. x == id) (set slots free (id + 1)) mask fuel start ≡ hit id
  unfolding probe
  probe-set_new same slots zero start free id inside h = ground (arith, h)
  probe-set_new same slots (suc fuel) start free id inside h =
      elim (Bool-cases (get_or slots start 0 == 0)) [
        | inl empty ↦
            let here : start ≡ free = ground (arith, h, empty) in
            let value : get_or (set slots free (id + 1)) start 0 ≡ id + 1 =
              ap (λ i. get_or (set slots free (id + 1)) i 0) here
              ∙ get_or-set_here slots free (id + 1) inside in
            ground (arith, value)
        | inr used ↦
            let free_empty = probe-vacant same slots (suc fuel) start free h in
            let apart : start ≢ free = λ e.
              let value : get_or slots start 0 ≡ 0 = ap (λ i. get_or slots i 0) e ∙ free_empty in
              ground (arith, value, used) in
            let value = get_or-set slots free start (id + 1) apart in
            let next = probe-set_new same slots fuel ((start + 1) % (mask + 1)) free id inside in
            ground (arith, h, used, value, next)
      ]

  -- A walk that passes an id it looks for ends at an id.
  pub probe_finds :
      (same : ℕ → Bool) (slots : List ℕ) (fuel start id : ℕ)
      → probe (λ x. x == id) slots mask fuel start ≡ hit id
      → same id ≡ true
      → (id' : ℕ) × (probe same slots mask fuel start ≡ hit id')
  unfolding probe
  probe_finds same slots zero start id h wanted = ground (arith, h)
  probe_finds same slots (suc fuel) start id h wanted =
      elim (Bool-cases (same (get_or slots start 0 - 1))) [
        | inl yes' ↦ (get_or slots start 0 - 1, ground (arith, h, yes'))
        | inr no' ↦
            let passed : probe (λ x. x == id) slots mask fuel ((start + 1) % (mask + 1)) ≡ hit id =
              elim (Bool-cases (get_or slots start 0 - 1 == id)) [
                | inl eq ↦
                    let same_id : get_or slots start 0 - 1 ≡ id = ground (arith, eq) in
                    absurd (true≢false (sym wanted ∙ ap same (sym same_id) ∙ no'))
                | inr ne ↦ ground (arith, h, ne)
              ] in
            let (id', found) =
              probe_finds same slots fuel ((start + 1) % (mask + 1)) id passed wanted in
            (id', ground (arith, h, no', found))
      ]

  -- Where only one id has what it looks for, that is the one.
  pub probe-hit_unique :
      (same : ℕ → Bool) (slots : List ℕ) (fuel start id : ℕ)
      → probe (λ x. x == id) slots mask fuel start ≡ hit id
      → same id ≡ true
      → ((id' : ℕ) → same id' ≡ true → id' ≡ id)
      → probe same slots mask fuel start ≡ hit id
  probe-hit_unique same slots fuel start id h wanted unique =
      let (id', found) = probe_finds same slots fuel start id h wanted in
      found ∙ ap hit (unique id' (probe-hit same slots mask fuel start id' found))

  -- A walk that does not end has passed no empty slot before the last.
  endless_ahead :
      (same : ℕ → Bool) (slots : List ℕ) (fuel start e : ℕ)
      → probe same slots mask fuel start ≡ endless
      → e < fuel
      → start + e ≤ mask
      → get_or slots (start + e) 0 ≢ 0
  unfolding probe
  endless_ahead same slots zero start e h lt inside = absurd (omega (arith, lt))
  endless_ahead same slots (suc fuel) start zero h lt inside =
      let here : start + 0 ≡ start = omega arith in rw here (ground (arith, h))
  endless_ahead same slots (suc fuel) start (suc e) h lt inside =
      let next : (start + 1) % (mask + 1) ≡ start + 1 = mod-eq_of_lt (omega (arith, inside)) in
      let place : start + 1 + e ≡ start + suc e = omega arith in
      let walk : probe same slots mask fuel ((start + 1) % (mask + 1)) ≡ endless =
        ground (arith, h) in
      rw (sym place) (
        endless_ahead same slots fuel (start + 1) e (rw next at walk) (omega (arith, lt))
          (omega (arith, inside)))

  -- One that does not end within all the slots has found none empty.
  pub endless_full :
      (same : ℕ → Bool) (slots : List ℕ) (fuel start place : ℕ)
      → probe same slots mask fuel start ≡ endless
      → start ≤ mask
      → place < start
      → mask + 1 - start + place < fuel
      → get_or slots place 0 ≢ 0
  unfolding probe
  endless_full same slots zero start place h s p enough = absurd (omega (arith, enough))
  endless_full same slots (suc fuel) start place h s p enough =
      let walk : probe same slots mask fuel ((start + 1) % (mask + 1)) ≡ endless =
        ground (arith, h) in
      elim (dec_lt start mask) [
        | yes more ↦
            let next : (start + 1) % (mask + 1) ≡ start + 1 = mod-eq_of_lt (omega (arith, more)) in
            endless_full same slots fuel (start + 1) place (rw next at walk) (omega (arith, more))
              (omega (arith, p)) (omega (arith, enough, more))
        | no last ↦
            let next : (start + 1) % (mask + 1) ≡ 0 =
              let whole : start + 1 ≡ mask + 1 = omega (arith, s, last) in
              rw whole (mod_self (mask + 1)) in
            let place_alone : 0 + place ≡ place = omega arith in
            rw (sym place_alone) (
              endless_ahead same slots fuel 0 place (rw next at walk)
                (omega (arith, enough, s, last)) (omega (arith, p, s)))
      ]

  pub probe-ne-endless :
      (same : ℕ → Bool) (slots : List ℕ) (start place : ℕ)
      → start ≤ mask
      → place ≤ mask
      → get_or slots place 0 ≡ 0
      → probe same slots mask (mask + 1) start ≢ endless
  probe-ne-endless same slots start place s p empty h = elim (dec_lt place start) [
    | yes before ↦
        endless_full same slots (mask + 1) start place h s before (omega (arith, before, s)) empty
    | no after ↦
        let there : start + (place - start) ≡ place = omega (arith, after) in
        let used =
          endless_ahead same slots (mask + 1) start (place - start) h (omega (arith, p))
            (omega (arith, p, there)) in
        used (ap (λ i. get_or slots i 0) there ∙ empty)
  ]

  pub probe-vacant_inside :
      (same : ℕ → Bool) (slots : List ℕ) (fuel start free : ℕ)
      → start ≤ mask
      → probe same slots mask fuel start ≡ vacant free
      → free ≤ mask
  unfolding probe
  probe-vacant_inside same slots zero start free s h = ground (arith, h)
  probe-vacant_inside same slots (suc fuel) start free s h =
      let next : (start + 1) % (mask + 1) < mask + 1 = mod-lt (start + 1) (omega arith) in
      let rest =
        probe-vacant_inside same slots fuel ((start + 1) % (mask + 1)) free (omega (arith, next)) in
      ground (arith, h, s, rest)

-- The empty slots.
abbrev pub zeros : List ℕ → ℕ
zeros [] = 0
zeros (x ∷ xs) = if x == 0 then suc (zeros xs) else zeros xs

pub zeros-set : (xs : List ℕ) (i v : ℕ) → zeros xs ≤ suc (zeros (set xs i v))
zeros-set [] i v = omega arith
zeros-set (x ∷ xs) zero v = ground arith
zeros-set (x ∷ xs) (suc i) v = ground (arith, zeros-set xs i v)

pub zeros_found : (xs : List ℕ) → 0 < zeros xs → (i : ℕ) × (i < length xs) × (get_or xs i 0 ≡ 0)
zeros_found [] h = absurd (omega (arith, h))
zeros_found (x ∷ xs) h = elim (Bool-cases (x == 0)) [
  | inl yes' ↦ (0, omega arith, ground (arith, yes'))
  | inr no' ↦
      let (i, inside, empty) = zeros_found xs (ground (arith, h, no')) in
      (suc i, omega (arith, inside), empty)
]
