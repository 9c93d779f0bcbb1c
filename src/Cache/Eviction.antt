-- ===== src/Cache/Eviction.antt =====
-- src/qx_expert_cache.c: the loop of `qx_expert_cache_acquire` that evicts until a slice fits.
use qx_mini_c.Prelude.{
  ℕ, zero, suc, ◌-◌, ◌≤◌, ◌<◌, ◌≡◌, ◌≢◌, refl, some, length, Option-cases, inl, inr, IsU64, arith,
}
use qx_mini_c.Cache.{Key, Entry, Ops, World, victim, unlink}
use qx_mini_c.Cache.Operations.{room, no_fuel, evict, make_room}
use qx_mini_c.Cache.Entries.{victim-Split, length-unlink-victim}
use qx_mini_c.Cache.Memory.{Allocator, Owns-apart}
use qx_mini_c.Cache.Invariant.{copies, unlink_measures, Holds, evict-Holds}

module _ {C : Type 0} (ops : Ops C) where
  evicted-entries :
      (w : World C) (e : Entry) → (evict ops w e).cache.entries ≡ unlink e.addr w.cache.entries
  unfolding evict
  evicted-entries w e = refl

  -- The loop ends with room for the key, if it says so.
  pub make_room-room :
      (fuel : ℕ) (w : World C) (size : ℕ)
      → (make_room ops fuel w size).1 ≡ room
      → let w' = (make_room ops fuel w size).0 in
        w'.cache.counters.current_resident_packed_bytes ≤ w'.cache.budget_bytes - size
  unfolding make_room
  make_room-room zero w size h = cc
  make_room-room (suc fuel) w size h = elim (Option-cases (victim w.cache.entries)) [
    | inl e ↦ ground (arith, e)
    | inr (e, v) ↦ ground (arith, v, make_room-room fuel (evict ops w e) size)
  ]

  -- A fuel above the number of entries is enough: each round takes one out.
  pub make_room-ne-no_fuel :
      (fuel : ℕ) (w : World C) (size : ℕ)
      → length w.cache.entries < fuel
      → (make_room ops fuel w size).1 ≢ no_fuel
  unfolding make_room
  make_room-ne-no_fuel zero w size h = absurd (omega arith)
  make_room-ne-no_fuel (suc fuel) w size h = elim (Option-cases (victim w.cache.entries)) [
    | inl e ↦ ground (arith, e)
    | inr (e, v) ↦ ground (
      arith,
      v,
      make_room-ne-no_fuel fuel (evict ops w e) size,
      length-unlink-victim w.cache.entries e v,
      evicted-entries w e,
    )
  ]

module _ {C : Type 0} (ops : Ops C) (mem : Allocator ops) (base : ℕ → ℕ) where
  -- What holds while the key is counted as a miss and not yet loaded.
  pub record Pending (key : Key) (w : World C) : Type 0 where
    pub holds : Holds ops mem base w
    pub absent : copies w.cache.entries key ≡ 0
    pub counted : w.cache.counters.loads < w.cache.counters.misses
    pub sized : IsU64 key.slice_bytes
    pub fits : key.slice_bytes ≤ w.cache.budget_bytes

  pub evict-Pending :
      (key : Key) (w : World C) (e : Entry)
      → victim w.cache.entries ≡ some e
      → Pending key w
      → Pending key (evict ops w e)
  unfolding evict
  evict-Pending key w e v h =
      let (s, _, _) = victim-Split w.cache.entries v in
      let (_, _, keys) = unlink_measures w.cache.entries e s (Owns-apart ops mem h.holds.owns) in
      record {
        holds = evict-Holds ops mem base w e v h.holds;
        absent = omega (arith, keys key, h.absent);
        counted = h.counted;
        sized = h.sized;
        fits = h.fits;
      }

  pub make_room-Pending :
      (key : Key) (fuel : ℕ) (w : World C)
      → Pending key w
      → Pending key (make_room ops fuel w key.slice_bytes).0
  unfolding make_room
  make_room-Pending key zero w h = h
  make_room-Pending key (suc fuel) w h = elim (Option-cases (victim w.cache.entries)) [
    | inl e ↦ ground (arith, e, h)
    | inr (e, v) ↦
        rw v
          (ground (arith, make_room-Pending key fuel (evict ops w e) (evict-Pending key w e v h)))
  ]
