-- ===== src/Scratch/Tests.antt =====
-- src/qx_format.c: a small workspace, and the theorems at concrete inputs.
use qx_mini_c.Prelude.{
  ℕ, ◌+◌, ◌*◌, ◌≡◌, ◌≢◌, refl, true, false, List, [], ◌∷◌, none, some, u64_max, arith,
}
use qx_mini_c.Scratch.{
  Workspace, Ops, done, failed, stuck, size_overflow, zero_workspace, grow, plan_add, reset,
  reserve_capacity, alloc, alloc_in, alloc_plain, release,
}
use qx_mini_c.Scratch.Reserve.{Reserved, reserve_capacity-ne-stuck, reserve_capacity-Reserved}
use qx_mini_c.Scratch.Plan.{Request, plan, alloc_all, IsStacked, alloc_all-served}

-- The context counts the calls; each block is 65536 bytes after the one before.
abbrev counting : Ops ℕ
counting = record {
  malloc = λ c n. (65536 * (c + 1), c + 1);
  calloc = λ c n size. (65536 * (c + 1), c + 1);
  realloc = λ c p n. (65536 * (c + 1), c + 1);
  free = λ c p. c + 1;
  memset = λ c p byte n. c + 1;
}

abbrev requests : List Request
requests =
    record { count = 3; size = 4; zeroed = true }
    ∷ record { count = 5; size = 8; zeroed = false }
    ∷ []

abbrev reserved : Workspace
reserved = record {
  base = 65536;
  capacity = 4096;
  used = 0;
  peak_capacity = 4096;
  growth_events = 1;
}

planned : plan 0 requests ≡ some 56
unfolding plan plan_add
planned = refl

reserves : reserve_capacity counting zero_workspace 56 0 ≡ done reserved 1
unfolding reserve_capacity grow
reserves = refl

allocates :
    alloc_all counting reserved requests 1
    ≡ done (65536 ∷ 65552 ∷ [], record reserved { used = 56 }) 2
unfolding alloc_all alloc alloc_in reserve_capacity grow
allocates = refl

resets : reset (record reserved { used = 56 }) ≡ reserved
unfolding reset
resets = refl

too_many : plan_add 0 u64_max 2 ≡ none
unfolding plan_add
too_many = refl

no_capacity : reserve_capacity counting reserved u64_max 1 ≡ failed size_overflow 1
unfolding reserve_capacity grow
no_capacity = refl

own_block : alloc_plain counting 3 4 false 0 ≡ done 65536 1
unfolding alloc_plain
own_block = refl

released : release counting reserved 1 ≡ (zero_workspace, 2)
unfolding release
released = refl

reserve_capacity-ne-stuck_example : reserve_capacity counting zero_workspace 56 0 ≢ failed stuck 0
reserve_capacity-ne-stuck_example =
    reserve_capacity-ne-stuck counting zero_workspace 56 0 (omega arith) (omega arith) 0

reserve_capacity-Reserved_example : Reserved zero_workspace 56 reserved
reserve_capacity-Reserved_example =
    reserve_capacity-Reserved counting zero_workspace 56 0 (omega arith) (omega arith) reserved 1
      reserves

alloc_all-served_example :
    (ps : List ℕ) × (c' : ℕ) × (alloc_all counting reserved requests 1
      ≡ done (ps, record reserved { used = 56 }) c')
    × IsStacked 65536 (65536 + 56) (65536 + 0) requests ps
alloc_all-served_example = alloc_all-served counting reserved requests 56 1 planned (omega arith)
