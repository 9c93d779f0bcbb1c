-- ===== src/Cache/Tests.antt =====
-- src/qx_expert_cache.c: concrete runs over a small heap, and the theorems at concrete inputs.
use qx_mini_c.Prelude.{
  ℕ, ◌+◌, ◌≡◌, ◌≢◌, refl, Bool, true, false, [], ◌∷◌, ◌==◌, ◌||◌, bit, if◌then◌else◌, arith, inl,
}
use qx_mini_c.Cache.{
  Key, Entry, Ops, World, fail, stuck, blocked_by_pinned, ReadResult, borrow_of, zero_cache,
  checked_add, key_equal, find, victim, unlink, append_mru, mru, promote, set_pin_count, unpin,
  check_request, hit,
}
use qx_mini_c.Cache.Operations.{
  count_miss, init, acquire, release, destroy, make_room, load, finish, insert, admit, miss, evict,
  free_entry, free_entries,
}
use qx_mini_c.Cache.Memory.{Allocator}
use qx_mini_c.Cache.Invariant.{IsValid, Holds}
use qx_mini_c.Cache.Acquire.{init-IsValid, acquire-Holds, acquire-ne-stuck, release-Holds}
use qx_mini_c.Cache.History.{
  acquire_call, release_call, started, run, step, run_bounded_destroy_live,
}
use qx_mini_c.Cache.Contents.{Reader, Granted}
use qx_mini_c.Cache.Lending.{run-acquire_grants}
use qx_mini_c.Cache.Pins.{Keeps, acquire-Keeps}
use qx_mini_c.Cache.Misses.{count_miss-Pending}
use qx_mini_c.Cache.Lru.{trim, excess, make_room-trim}

-- A heap whose blocks are handed out in order; `live p` says that the block at `p` is taken.
record Heap : Type 0 where
  next : ℕ
  live : ℕ → Bool

abbrev alloc : Heap → ℕ → ℕ × Heap
alloc h n =
    if h.next == 0 || h.live h.next
    then (0, h)
    else (h.next, record { next = h.next + 1; live = λ q. h.next == q || h.live q })

abbrev free : Heap → ℕ → Heap
free h p = record h { live = λ q. if p == q then false else h.live q }

-- The byte at each offset is the offset; two of them stand for a slice.
abbrev read_exact : Heap → ℕ → ℕ → ℕ → ReadResult × Heap
read_exact h offset dst size =
    (record { read_ok = true; actual_read = size; bytes = offset ∷ size ∷ [] }, h)

abbrev heap_ops : Ops Heap
heap_ops = record { alloc = alloc; free = free; read_exact = read_exact }

live-alloc_heap :
    (h : Heap) (n q : ℕ)
    → (alloc h n).0 ≢ 0
    → bit ((alloc h n).1.live q) ≡ bit (h.live q) + bit ((alloc h n).0 == q)
live-alloc_heap h n q taken = ground arith

heap_allocator : Allocator heap_ops
heap_allocator = record {
  live = λ h q. bit (h.live q);
  live_le_one = λ h q. ground arith;
  live-alloc = live-alloc_heap;
  live-alloc_null = λ h n q null. ground arith;
  live-free = λ h p q taken. ground arith;
  live-read = λ h offset dst size q. refl;
}

heap_reader : Reader heap_ops
heap_reader = record {
  content = λ offset size. offset ∷ size ∷ [];
  read-content = λ h offset dst size fine all. refl;
}

abbrev key_a : Key
key_a = record { tensor_offset = 100; slice_offset = 8; slice_bytes = 6; expert = 0; reserved = 0 }

abbrev key_b : Key
key_b = record { tensor_offset = 100; slice_offset = 14; slice_bytes = 6; expert = 1; reserved = 0 }

-- Room for one slice and a half; the object stands at 99, and nothing is allocated.
abbrev empty : World Heap
empty = record {
  cache = record (zero_cache 99) { budget_bytes = 10; initialized = true };
  ctx = record { next = 1; live = λ q. false };
}

program : Unit {0}
unfolding init acquire release destroy make_room load finish insert admit miss evict free_entry
    free_entries checked_add key_equal find victim unlink append_mru mru promote set_pin_count unpin
    check_request hit run step
program = tt

abbrev entry_a : Entry
entry_a = record { addr = 1; key = key_a; buf = 2; bytes = 108 ∷ 6 ∷ []; pin_count = 1 }

abbrev holding_a : World Heap
holding_a = (acquire heap_ops empty key_a true).0

abbrev idle_a : World Heap
idle_a = record holding_a {
  cache = (release holding_a.cache (borrow_of holding_a.cache entry_a)).0;
}

holding_a-entries : holding_a.cache.entries ≡ entry_a ∷ []
unfolding program
holding_a-entries = refl

-- While `key_a` is lent there is no room for `key_b`; once it is released it gives way.
second_slice :
    ((acquire heap_ops holding_a key_b true).1 ≡ fail blocked_by_pinned)
    × ((acquire heap_ops idle_a key_b true).0.cache.counters.evictions ≡ 1)
unfolding program
second_slice = (refl, refl)

empty-Holds : Holds heap_ops heap_allocator (λ q. 0) empty
unfolding program heap_allocator
empty-Holds = record {
  valid = (init-IsValid 99 10 true (omega arith) refl).0;
  owns = record { owned = λ q. refl };
}

acquire-Holds_example : Holds heap_ops heap_allocator (λ q. 0) (acquire heap_ops empty key_a true).0
acquire-Holds_example =
    acquire-Holds heap_ops heap_allocator (λ q. 0) empty key_a true (omega arith) empty-Holds

acquire-ne-stuck_example : (acquire heap_ops empty key_a true).1 ≢ stuck
acquire-ne-stuck_example = acquire-ne-stuck heap_ops empty key_a true

idle_a-Holds : Holds heap_ops heap_allocator (λ q. 0) idle_a
idle_a-Holds =
    release-Holds heap_ops heap_allocator (λ q. 0) holding_a (borrow_of holding_a.cache entry_a)
      acquire-Holds_example

run_bounded_destroy_live_example :
    let calls = acquire_call key_a true ∷ acquire_call key_b true ∷ [] in
    let w = run heap_ops (started empty.ctx 99 10 true) calls in
    IsValid w.cache
    × ((q : ℕ) → heap_allocator.live (destroy heap_ops w).ctx q ≡ heap_allocator.live empty.ctx q)
unfolding program
run_bounded_destroy_live_example =
    run_bounded_destroy_live heap_ops heap_allocator empty.ctx 99 10 true
      (acquire_call key_a true ∷ acquire_call key_b true ∷ []) (omega arith) refl (omega arith)

-- The second acquire is a hit, after a release.
run-acquire_grants_example :
    Granted heap_ops heap_reader key_a
      (acquire heap_ops
        (run heap_ops
          (started empty.ctx 99 10 true)
          (acquire_call key_a true ∷ release_call (borrow_of empty.cache entry_a) ∷ []))
        key_a
        true).0.cache
      (borrow_of empty.cache entry_a)
unfolding program
run-acquire_grants_example =
    run-acquire_grants heap_ops heap_reader heap_allocator empty.ctx 99 10 true
      (acquire_call key_a true ∷ release_call (borrow_of empty.cache entry_a) ∷ []) key_a
      (borrow_of empty.cache entry_a) (omega arith) refl (omega arith, (tt, tt)) refl

-- `key_b` cannot push out the lent entry.
acquire-Keeps_example : Keeps entry_a (acquire heap_ops holding_a key_b true).0.cache.entries
unfolding program
acquire-Keeps_example =
    acquire-Keeps heap_ops heap_allocator (λ q. 0) entry_a (omega arith) holding_a key_b true
      (omega arith) (omega arith) acquire-Holds_example
      (inl (record { addr = refl; key = refl; buf = refl; bytes = refl; pins = omega arith }))

make_room-trim_example :
    (make_room heap_ops 2 (count_miss idle_a) 6).0.cache.entries
    ≡ trim (excess (count_miss idle_a) 6) (count_miss idle_a).cache.entries
unfolding program
make_room-trim_example =
    make_room-trim heap_ops heap_allocator (λ q. 0) key_b 2 (count_miss idle_a)
      (count_miss-Pending heap_ops heap_allocator (λ q. 0) idle_a key_b (omega arith) refl
        idle_a-Holds (omega arith) (omega arith))
      (λ h. cc) (λ h. cc)
