-- ===== src/Scratch.antt =====
-- src/qx_format.c: the scratch workspace, qx_scratch_workspace and the qx_scratch_ functions. The
-- allocator of the C library and `memset` are parameters, over an abstract context; a pointer is a
-- number, and 0 is NULL.
pub mod Reserve
pub mod Plan
mod Tests
use qx_mini_c.Prelude.{
  ℕ, zero, suc, ◌+◌, ◌-◌, ◌*◌, ◌/◌, ◌%◌, Bool, true, false, not, ◌&&◌, ◌||◌, List, [], ◌∷◌, Option,
  none, some, ltb, ◌==◌, if◌then◌else◌, u64_max, add64, mul64,
}

-- `base` is the field `data`.
pub record Workspace : Type 0 where
  pub base : ℕ
  pub capacity : ℕ
  pub used : ℕ
  pub peak_capacity : ℕ
  pub growth_events : ℕ

pub record Ops (C : Type 0) : Type 0 where
  pub malloc : C → ℕ → ℕ × C
  pub calloc : C → ℕ → ℕ → ℕ × C
  pub realloc : C → ℕ → ℕ → ℕ × C
  pub free : C → ℕ → C
  pub memset : C → ℕ → ℕ → ℕ → C

-- `stuck`: the loop of qx_scratch_reserve_capacity ran out of fuel.
pub data Error : Type 0 where
  invalid_workspace size_overflow out_of_memory stuck : Error

pub data Outcome (C A : Type 0) : Type 0 where
  done : A → C → Outcome C A
  failed : Error → C → Outcome C A

pub data Growth : Type 0 where
  grown : ℕ → Growth
  too_large no_fuel : Growth

abbrev pub zero_workspace : Workspace
zero_workspace = record { base = 0; capacity = 0; used = 0; peak_capacity = 0; growth_events = 0 }

unfoldable pub reset : Workspace → Workspace
reset w = record w { used = 0 }

-- The loop that doubles the capacity.
unfoldable pub grow : ℕ → ℕ → ℕ → Growth
grow zero capacity required = no_fuel
grow (suc fuel) capacity required =
    let rest = grow fuel (mul64 capacity 2) required in
    if ltb capacity required
    then (if ltb (u64_max / 2) capacity then too_large else rest)
    else grown capacity

-- `(n + 15) & ~15` on a number that `n + 15` does not wrap for.
abbrev pub align_16 : ℕ → ℕ
align_16 n = n + 15 - (n + 15) % 16

unfoldable pub plan_add : ℕ → ℕ → ℕ → Option ℕ
plan_add cursor count size =
    if not (size == 0) && ltb (u64_max / size) count
    then none
    else let bytes = mul64 count size in
      if ltb (u64_max - 15) cursor
      then none
      else let aligned = align_16 cursor in
        if ltb (u64_max - bytes) aligned then none else some (add64 aligned bytes)

module _ {C : Type 0} (ops : Ops C) where
  unfoldable pub release : Workspace → C → Workspace × C
  release w c = (zero_workspace, ops.free c w.base)

  unfoldable pub reserve_capacity : Workspace → ℕ → C → Outcome C Workspace
  unfolding grow
  reserve_capacity w required c =
      if not (ltb w.capacity required)
      then done w c
      else elim (grow 65 (if w.capacity == 0 then 4096 else w.capacity) required) [
        | no_fuel ↦ failed stuck c
        | too_large ↦ failed size_overflow c
        | grown capacity ↦
            let (next, c') = ops.realloc c w.base capacity in
            if next == 0
            then failed out_of_memory c'
            else done
                (record {
                  base = next;
                  capacity = capacity;
                  used = w.used;
                  peak_capacity =
                      if ltb w.peak_capacity capacity then capacity else w.peak_capacity;
                  growth_events = add64 w.growth_events 1;
                })
                c'
      ]

  -- qx_scratch_alloc from its second guard on, where there is a workspace.
  unfoldable pub alloc_in : Workspace → ℕ → Bool → C → Outcome C (ℕ × Workspace)
  alloc_in w bytes zeroed c =
      if ltb (u64_max - 15) w.used
      then failed size_overflow c
      else let aligned = align_16 w.used in
        if ltb (u64_max - bytes) aligned
        then failed size_overflow c
        else let required = add64 aligned bytes in
          elim (reserve_capacity w required c) [
            | failed e c' ↦ failed e c'
            | done w' c' ↦
                let ptr = w'.base + aligned in
                done (ptr, record w' { used = required })
                  (if zeroed && not (bytes == 0) then ops.memset c' ptr 0 bytes else c')
          ]

  unfoldable pub alloc : Workspace → ℕ → ℕ → Bool → C → Outcome C (ℕ × Workspace)
  alloc w count size zeroed c =
      if not (size == 0) && ltb (u64_max / size) count
      then failed size_overflow c
      else alloc_in w (mul64 count size) zeroed c

  -- qx_scratch_alloc without a workspace: a block of its own from the C library.
  unfoldable pub alloc_plain : ℕ → ℕ → Bool → C → Outcome C ℕ
  alloc_plain count size zeroed c =
      if not (size == 0) && ltb (u64_max / size) count
      then failed size_overflow c
      else let (p, c') =
          if zeroed then ops.calloc c count size else ops.malloc c (mul64 count size) in
        if p == 0 then failed out_of_memory c' else done p c'
