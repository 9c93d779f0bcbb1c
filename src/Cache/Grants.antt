-- ===== src/Cache/Grants.antt =====
-- src/qx_expert_cache.c: the buffer that a successful `qx_expert_cache_acquire` hands out, and its key.
use qx_mini_c.Prelude.{ℕ, suc, Bool, length, Option-cases, inl, inr, add64, arith, All}
use qx_mini_c.Cache.{
  Key, Ops, World, find, metadata_allocation, packed_allocation, exceeds_budget, counter_overflow,
  check_request,
}
use qx_mini_c.Cache.Operations.{
  count_miss, Room, room, blocked, no_fuel, acquire, make_room, load, admit, miss, entry_size,
}
use qx_mini_c.Cache.Entries.{find-Split}
use qx_mini_c.Cache.Memory.{Allocator, Owns-apart}
use qx_mini_c.Cache.Invariant.{Holds}
use qx_mini_c.Cache.Contents.{
  Reader, IsSound, Served, failed, make_room-IsSound, hit-Served, finish-Served,
}

module _ {C : Type 0} (ops : Ops C) (reader : Reader ops) where
  load-Served :
      (w : World C) (key : Key)
      → All (IsSound ops reader) w.cache.entries
      → Served ops reader key (load ops w key).0.cache (load ops w key).1
  unfolding load
  load-Served w key h =
      let (p, ctx_p) = ops.alloc w.ctx entry_size in
      let (d, ctx_d) = ops.alloc ctx_p key.slice_bytes in
      let offset = add64 key.tensor_offset key.slice_offset in
      let (r, ctx_r) = ops.read_exact ctx_d offset d key.slice_bytes in
      let done =
        finish-Served ops reader (record w { ctx = ctx_r }) key p d r
          (reader.read-content ctx_d offset d key.slice_bytes) h in
      let no_entry = failed ops reader key w.cache metadata_allocation h in
      let no_buffer = failed ops reader key w.cache packed_allocation h in
      ground (arith, done, no_entry, no_buffer)

  admit-Served :
      (key : Key) (w : World C) (r : Room)
      → All (IsSound ops reader) w.cache.entries
      → Served ops reader key (admit ops key (w, r)).0.cache (admit ops key (w, r)).1
  unfolding admit
  admit-Served key w room h = load-Served w key h
  admit-Served key w (blocked e) h = failed ops reader key w.cache e h
  admit-Served key w no_fuel h = record { sound = h; granted = λ b p. cc }

  miss-Served :
      (w : World C) (key : Key)
      → All (IsSound ops reader) w.cache.entries
      → Served ops reader key (miss ops w key).0.cache (miss ops w key).1
  unfolding miss
  miss-Served w key h =
      let counted = count_miss w in
      let fuel = suc (length w.cache.entries) in
      let (w', r) = make_room ops fuel counted key.slice_bytes in
      let done =
        admit-Served key w' r (make_room-IsSound ops reader fuel counted key.slice_bytes h) in
      let full = failed ops reader key w.cache counter_overflow h in
      let big = failed ops reader key counted.cache exceeds_budget h in
      ground (arith, done, full, big)

  -- Every buffer still holds the bytes of its key, and a success grants what was asked for.
  pub acquire-Served :
      (mem : Allocator ops) (base : ℕ → ℕ) (w : World C) (key : Key) (given : Bool)
      → Holds ops mem base w
      → All (IsSound ops reader) w.cache.entries
      → Served ops reader key (acquire ops w key given).0.cache (acquire ops w key given).1
  unfolding acquire
  acquire-Served mem base w key given hold h =
      elim (Option-cases (check_request w.cache key given)) [
        | inr (e, bad) ↦ rw (bad, acquire) (failed ops reader key w.cache e h)
        | inl good ↦
            rw (good, acquire)
              (elim (Option-cases (find key w.cache.entries)) [
                | inl absent ↦ rw (absent, acquire) (miss-Served w key h)
                | inr (e, found) ↦
                    let (s, same) = find-Split key w.cache.entries found in
                    rw (found, acquire)
                      (hit-Served ops reader w key e s (Owns-apart ops mem hold.owns) same h)
              ])
      ]
