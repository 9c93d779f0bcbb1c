-- ===== src/RowPool/Partition.antt =====
-- src/qx_row_pool.h: the ranges of the workers, and the rows in them.
use native.Mathlib.Decide.{dec_lt}
use native.Mathlib.Nat.{
  le-div_iff_mul-le, div-mul-le_self, mul-le-mul_left, mul_comm, div-le_of_le-mul, mul-div_cancel,
  zero-div, mul-zero,
}
use qx_mini_c.Prelude.{
  ℕ, zero, suc, ◌+◌, ◌-◌, ◌*◌, ◌/◌, ◌%◌, ◌≤◌, ◌<◌, ◌≡◌, ap, ◌∙◌, arith, mul64, u32_mod, IsU32,
}
use qx_mini_c.RowPool.{row_begin, row_end}

bounds_increase : (b : ℕ → ℕ) → ((i : ℕ) → b i ≤ b (suc i)) → (i k : ℕ) → b i ≤ b (i + k)
bounds_increase b grow i zero = let same : i + 0 ≡ i = omega arith in rw same (omega arith)
bounds_increase b grow i (suc k) =
    let same : i + suc k ≡ suc (i + k) = omega arith in
    rw same (omega (arith, grow (i + k), bounds_increase b grow i k))

-- Where bounds that increase start at 0 and end above a number, it is between two neighbours.
between_bounds :
    (b : ℕ → ℕ) (n r : ℕ) → b 0 ≤ r → r < b n → (i : ℕ) × (i < n) × (b i ≤ r) × (r < b (suc i))
between_bounds b zero r low high = absurd (omega (arith, low, high))
between_bounds b (suc n) r low high = elim (dec_lt r (b n)) [
  | yes below ↦
      let (i, inside, low', high') = between_bounds b n r low below in
      (i, omega (arith, inside), low', high')
  | no above ↦ (n, omega arith, omega (arith, above), high)
]

quotient_grows : (a b w : ℕ) → 0 < w → a ≤ b → a / w ≤ b / w
quotient_grows a b w pos h = (le-div_iff_mul-le pos).1 (omega (arith, div-mul-le_self a w, h))

-- With 32 bits of rows and at most 64 workers, neither the product nor the quotient is cut.
uncut :
    (rows workers i : ℕ)
    → IsU32 rows
    → 0 < workers
    → workers ≤ 64
    → i ≤ workers
    → mul64 rows i / workers % u32_mod ≡ rows * i / workers
uncut rows workers i small pos few inside =
    let product : rows * i ≤ rows * 64 = mul-le-mul_left rows (omega (arith, few, inside)) in
    let whole : mul64 rows i ≡ rows * i = omega (arith, product, small) in
    let share : rows * i ≤ workers * rows =
      rw (mul_comm workers rows) (mul-le-mul_left rows inside) in
    let quotient : rows * i / workers ≤ rows = div-le_of_le-mul workers share in
    ap (λ n. n / workers % u32_mod) whole ∙ omega (arith, quotient, small)

module _ (rows workers : ℕ) (small : IsU32 rows) (pos : 0 < workers) (few : workers ≤ 64) where
  row_begin_value : (i : ℕ) → i ≤ workers → row_begin rows workers i ≡ rows * i / workers
  unfolding row_begin
  row_begin_value i inside = uncut rows workers i small pos few inside

  row_end_value : (i : ℕ) → i < workers → row_end rows workers i ≡ rows * suc i / workers
  unfolding row_end
  row_end_value i inside =
      let next : (i + 1) % u32_mod ≡ suc i = omega (arith, inside, few) in
      ap (λ k. mul64 rows k / workers % u32_mod) next
      ∙ uncut rows workers (suc i) small pos few inside

  bound_grows : (i : ℕ) → rows * i / workers ≤ rows * suc i / workers
  bound_grows i =
      quotient_grows (rows * i) (rows * suc i) workers pos (mul-le-mul_left rows (omega arith))

  ordered : (i j r : ℕ) → i < j → r < rows * suc i / workers → r < rows * j / workers
  ordered i j r before high =
      let place : suc i + (j - suc i) ≡ j = omega (arith, before) in
      let grown = bounds_increase (λ k. rows * k / workers) bound_grows (suc i) (j - suc i) in
      let grown' : rows * suc i / workers ≤ rows * j / workers = rw place at grown in
      omega (arith, high, grown')

-- What the ranges of the workers do for a row.
pub record IsRun (rows workers row worker : ℕ) : Type 0 where
  pub inside : worker < workers
  pub from : row_begin rows workers worker ≤ row
  pub to : row < row_end rows workers worker

module _ (rows workers : ℕ) (small : IsU32 rows) (pos : 0 < workers) (few : workers ≤ 64) where
  runs-value :
      (r i : ℕ) → IsRun rows workers r i → (rows * i / workers ≤ r) × (r < rows * suc i / workers)
  runs-value r i run =
      let low = row_begin_value rows workers small pos few i (omega (arith, run.inside)) in
      let high = row_end_value rows workers small pos few i run.inside in
      (omega (arith, run.from, low), omega (arith, run.to, high))

  -- For 1 to 64 workers and a number of rows of 32 bits, each row is in the range of a worker.
  covered : (r : ℕ) → r < rows → (i : ℕ) × IsRun rows workers r i
  covered r inside =
      let first : rows * 0 / workers ≡ 0 =
        ap (λ n. n / workers) (mul-zero rows) ∙ zero-div workers in
      let last : rows * workers / workers ≡ rows = mul-div_cancel rows pos in
      let (i, within, low, high) =
        between_bounds (λ i. rows * i / workers) workers r (omega (arith, first))
          (omega (arith, inside, last)) in
      let begin' = row_begin_value rows workers small pos few i (omega (arith, within)) in
      let end' = row_end_value rows workers small pos few i within in
      (
        i,
        record {
          inside = within;
          from = omega (arith, low, begin');
          to = omega (arith, high, end');
        },
      )

  once : (r i j : ℕ) → IsRun rows workers r i → IsRun rows workers r j → i ≡ j
  once r i j run run' =
      let (low, high) = runs-value r i run in
      let (low', high') = runs-value r j run' in
      elim (dec_lt i j) [
        | yes before ↦
            absurd (omega (arith, ordered rows workers small pos few i j r before high, low'))
        | no not_before ↦ elim (dec_lt j i) [
          | yes after ↦
              absurd (omega (arith, ordered rows workers small pos few j i r after high', low))
          | no not_after ↦ omega (arith, not_before, not_after)
        ]
      ]

-- For a number of rows of 32 bits and 1 to 64 workers, each row is in the range of exactly one worker.
pub row-IsRun_once :
    (rows workers row : ℕ)
    → IsU32 rows
    → 0 < workers
    → workers ≤ 64
    → row < rows
    → (worker : ℕ) × IsRun rows workers row worker
      × ((other : ℕ) → IsRun rows workers row other → other ≡ worker)
row-IsRun_once rows workers row small pos few inside =
    let (i, run) = covered rows workers small pos few row inside in
    (i, run, λ j run'. once rows workers small pos few row j i run' run)
