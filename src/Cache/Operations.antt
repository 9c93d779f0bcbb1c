-- ===== src/Cache/Operations.antt =====
-- src/qx_expert_cache.c: eviction, the miss path, and the public operations.
use Prim.Native.Nat.{min}
use qx_mini_c.Prelude.{
  ℕ, zero, suc, ◌-◌, Bool, true, not, ◌||◌, List, [], ◌∷◌, Option, none, some, ltb, ◌==◌,
  if◌then◌else◌, length, u64_max, add64, sub64,
}
use qx_mini_c.Cache.{
  Key, Entry, Counters, Cache, Borrow, ReadResult, Ops, Error, budget_not_positive,
  invalid_operations, counter_overflow, exceeds_budget, blocked_by_pinned, metadata_allocation,
  packed_allocation, read_failed, truncated_read, Outcome, ok, fail, stuck, World, zero_counters,
  zero_cache, zero_borrow, checked_add, find, victim, unlink, append_mru, unpin, borrow_of,
  check_request, hit,
}

-- `sizeof(struct qx_expert_cache_entry)` on the 64-bit targets.
abbrev pub entry_size : ℕ
entry_size = 64

-- How the eviction loop ended.
pub data Room : Type 0 where
  room : Room
  blocked : Error → Room
  no_fuel : Room

-- `ops_given` says that none of the caller's function pointers is NULL.
unfoldable pub init : ℕ → ℕ → Bool → Cache × Option Error
init self budget_bytes ops_given =
    if budget_bytes == 0
    then (zero_cache self, some budget_not_positive)
    else if not ops_given
    then (zero_cache self, some invalid_operations)
    else (record (zero_cache self) { budget_bytes = budget_bytes; initialized = true }, none)

unfoldable pub release : Cache → Borrow → Cache × Borrow
unfolding unpin
release c b =
    if not (b.owner == c.self)
    then (c, b)
    else if not c.initialized || b.entry == 0
    then (c, zero_borrow)
    else (record c { entries = unpin b.entry c.entries }, zero_borrow)

unfoldable pub snapshot : Cache → Counters
snapshot c = if c.initialized then c.counters else zero_counters

-- The entry that a load appends.
abbrev pub loaded_entry : Key → ℕ → ℕ → List ℕ → Entry
loaded_entry key p d bytes = record { addr = p; key = key; buf = d; bytes = bytes; pin_count = 1 }

-- The last block of `qx_expert_cache_acquire`: the entry joins the list, and is counted.
unfoldable pub insert : Cache → Entry → Cache
unfolding append_mru
insert c e =
    let current = add64 c.counters.current_resident_packed_bytes e.key.slice_bytes in
    record c {
      entries = append_mru e c.entries;
      counters = record (c.counters) {
        loads = add64 c.counters.loads 1;
        current_resident_packed_bytes = current;
        peak_resident_packed_bytes =
            if ltb c.counters.peak_resident_packed_bytes current
            then current
            else c.counters.peak_resident_packed_bytes;
      };
    }

-- A request that misses is counted.
abbrev pub count_miss : {C : Type 0} → World C → World C
count_miss w = record w {
  cache = record (w.cache) {
    counters = record (w.cache.counters) {
      requests = add64 w.cache.counters.requests 1;
      misses = add64 w.cache.counters.misses 1;
    };
  };
}

module _ {C : Type 0} (ops : Ops C) where
  unfoldable pub free_entry : C → Entry → C
  free_entry ctx e = ops.free (ops.free ctx e.buf) e.addr

  unfoldable pub evict : World C → Entry → World C
  unfolding free_entry unlink
  evict w e =
      let counters = w.cache.counters in
      record {
        cache = record (w.cache) {
          entries = unlink e.addr w.cache.entries;
          counters = record counters {
            current_resident_packed_bytes =
                sub64 counters.current_resident_packed_bytes e.key.slice_bytes;
            evictions = add64 counters.evictions 1;
          };
        };
        ctx = free_entry w.ctx e;
      }

  -- The loop that evicts until `size` more bytes fit the budget.
  unfoldable pub make_room : ℕ → World C → ℕ → World C × Room
  make_room zero w size = (w, no_fuel)
  make_room (suc fuel) w size =
      if ltb (w.cache.budget_bytes - size) w.cache.counters.current_resident_packed_bytes
      then elim (victim w.cache.entries) [
        | none ↦ (w, blocked blocked_by_pinned)
        | some e ↦
            let rest = make_room fuel (evict w e) size in
            if w.cache.counters.evictions == u64_max then (w, blocked counter_overflow) else rest
      ]
      else (w, room)

  -- From the read's result to the end of `qx_expert_cache_acquire`.
  unfoldable pub finish : World C → Key → ℕ → ℕ → ReadResult → World C × Outcome
  finish w key p d r =
      let e = loaded_entry key p d r.bytes in
      let actual_read = min r.actual_read key.slice_bytes in
      let dropped : World C = record w { ctx = free_entry w.ctx e } in
      elim (checked_add w.cache.counters.buffered_bytes_read actual_read) [
        | none ↦ (dropped, fail counter_overflow)
        | some next_value ↦
            let counted : Cache = record (w.cache) {
              counters = record (w.cache.counters) { buffered_bytes_read = next_value };
            } in
            let counted_dropped : World C = record dropped { cache = counted } in
            if not r.read_ok
            then (counted_dropped, fail read_failed)
            else if not (actual_read == key.slice_bytes)
            then (counted_dropped, fail truncated_read)
            else if counted.counters.loads == u64_max
            then (counted_dropped, fail counter_overflow)
            else (record w { cache = insert counted e }, ok (borrow_of counted e))
      ]

  -- The two allocations and the read.
  unfoldable pub load : World C → Key → World C × Outcome
  load w key =
      let (p, ctx_p) = ops.alloc w.ctx entry_size in
      if p == 0
      then (record w { ctx = ctx_p }, fail metadata_allocation)
      else let (d, ctx_d) = ops.alloc ctx_p key.slice_bytes in
        if d == 0
        then (record w { ctx = ops.free ctx_d p }, fail packed_allocation)
        else let (r, ctx_r) =
            ops.read_exact ctx_d (add64 key.tensor_offset key.slice_offset) d key.slice_bytes in
          finish (record w { ctx = ctx_r }) key p d r

  -- What follows the eviction loop.
  unfoldable pub admit : Key → World C × Room → World C × Outcome
  admit key (w, room) = load w key
  admit key (w, blocked e) = (w, fail e)
  admit key (w, no_fuel) = (w, stuck)

  -- `qx_expert_cache_acquire` below its first loop, for a key that is not resident.
  unfoldable pub miss : World C → Key → World C × Outcome
  miss w key =
      if w.cache.counters.requests == u64_max || w.cache.counters.misses == u64_max
      then (w, fail counter_overflow)
      else if ltb w.cache.budget_bytes key.slice_bytes
      then (count_miss w, fail exceeds_budget)
      else admit key (make_room (suc (length w.cache.entries)) (count_miss w) key.slice_bytes)

  unfoldable pub acquire : World C → Key → Bool → World C × Outcome
  acquire w key given = elim (check_request w.cache key given) [
    | some e ↦ (w, fail e)
    | none ↦ elim (find key w.cache.entries) [
      | some e ↦ let (c, out) = hit w.cache key e in (record w { cache = c }, out)
      | none ↦ miss w key
    ]
  ]

  -- The loop of `qx_expert_cache_destroy`.
  unfoldable pub free_entries : C → List Entry → C
  unfolding free_entry
  free_entries ctx [] = ctx
  free_entries ctx (e ∷ es) = free_entries (free_entry ctx e) es

  unfoldable pub destroy : World C → World C
  unfolding free_entries
  destroy w =
      if not w.cache.initialized
      then w
      else record { cache = zero_cache w.cache.self; ctx = free_entries w.ctx w.cache.entries }
