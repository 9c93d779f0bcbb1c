-- ===== src/RowPool.antt =====
-- src/qx_row_pool.h: the rows that each worker of a pool runs, and in Jobs the steps of its threads.
mod Partition
pub mod Jobs
mod Tests
use qx_mini_c.Prelude.{ℕ, ◌+◌, ◌*◌, ◌/◌, ◌%◌, ◌^◌, mul64, u32_mod}

-- `begin` and `end` in qx_row_pool_entry: the product is of 64 bits, and the quotient is cut to 32.
unfoldable pub row_begin : ℕ → ℕ → ℕ → ℕ
row_begin rows workers index = mul64 rows index / workers % u32_mod

unfoldable pub row_end : ℕ → ℕ → ℕ → ℕ
row_end rows workers index = mul64 rows ((index + 1) % u32_mod) / workers % u32_mod
