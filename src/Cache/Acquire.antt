-- ===== src/Cache/Acquire.antt =====
-- src/qx_expert_cache.c: the invariant of the expert cache, over every operation and every
-- sequence of operations.
use qx_mini_c.Prelude.{
  ℕ, suc, ◌<◌, ◌≡◌, ◌≢◌, refl, Bool, true, List, [], ◌∷◌, none, length, Option-cases, inl, inr,
  IsU64, add64, arith,
}
use qx_mini_c.Cache.{
  Key, Entry, Cache, Ops, World, Borrow, stuck, find, ReadResult, zero_cache, unpin, check_request,
  hit,
}
use qx_mini_c.Cache.Operations.{
  count_miss, Room, room, blocked, no_fuel, init, acquire, release, destroy, make_room, load,
  finish, admit, miss, entry_size,
}
use qx_mini_c.Cache.Entries.{resident, held, find-Split}
use qx_mini_c.Cache.Memory.{Allocator, Owns-free_entries}
use qx_mini_c.Cache.Invariant.{copies, IsValid, Holds}
use qx_mini_c.Cache.Hits.{hit-Holds}
use qx_mini_c.Cache.Eviction.{make_room-ne-no_fuel}
use qx_mini_c.Cache.Misses.{miss-Holds}

-- What `unpin` leaves alone.
unpin_measures :
    (a : ℕ) (es : List Entry)
    → (resident (unpin a es) ≡ resident es)
      × (length (unpin a es) ≡ length es)
      × ((k : Key) → copies (unpin a es) k ≡ copies es k)
      × ((p : ℕ) → held (unpin a es) p ≡ held es p)
unfolding unpin
unpin_measures a [] = (refl, refl, (λ k. refl), λ p. refl)
unpin_measures a (e ∷ es) =
    let (bytes, count, keys, blocks) = unpin_measures a es in
    (
      ground (arith, bytes),
      ground (arith, count),
      (λ k. ground (arith, keys k)),
      λ p. ground (arith, blocks p),
    )

release-IsValid : (c : Cache) (b : Borrow) → IsValid c → IsValid (release c b).0
unfolding release
release-IsValid c b v =
    let (bytes, count, keys, _) = unpin_measures b.entry c.entries in
    let unpinned : IsValid (record c { entries = unpin b.entry c.entries }) = record {
      ready = v.ready;
      budget_pos = v.budget_pos;
      budget_word = v.budget_word;
      total = omega arith;
      within = v.within;
      peak_ge = v.peak_ge;
      peak_le = v.peak_le;
      requests_split = v.requests_split;
      loads_split = omega arith;
      loads_le = v.loads_le;
      requests_word = v.requests_word;
      read_word = v.read_word;
      avoided_word = v.avoided_word;
      unique = λ k. omega (arith, keys k, v.unique k);
    } in
    ground (arith, unpinned, v)

abbrev pub fresh_cache : ℕ → ℕ → Cache
fresh_cache self budget = record (zero_cache self) { budget_bytes = budget; initialized = true }

-- `qx_expert_cache_init` makes a valid, empty cache whenever it reports no error.
pub init-IsValid :
    (self budget : ℕ) (given : Bool)
    → IsU64 budget
    → (init self budget given).1 ≡ none
    → IsValid (init self budget given).0
      × ((init self budget given).0.entries ≡ [])
      × ((init self budget given).0.budget_bytes ≡ budget)
unfolding init
init-IsValid self budget given sized h =
    let fresh : 0 < budget → IsValid (fresh_cache self budget) = λ positive. record {
      ready = refl;
      budget_pos = positive;
      budget_word = sized;
      total = refl;
      within = omega arith;
      peak_ge = omega arith;
      peak_le = omega arith;
      requests_split = omega arith;
      loads_split = omega arith;
      loads_le = omega arith;
      requests_word = omega arith;
      read_word = omega arith;
      avoided_word = omega arith;
      unique = λ k. omega arith;
    } in
    (ground (arith, fresh), ground arith, ground arith)

module _ {C : Type 0} (ops : Ops C) (mem : Allocator ops) (base : ℕ → ℕ) where
  pub acquire-Holds :
      (w : World C) (key : Key) (given : Bool)
      → IsU64 key.slice_bytes
      → Holds ops mem base w
      → Holds ops mem base (acquire ops w key given).0
  unfolding acquire
  acquire-Holds w key given sized h = elim (Option-cases (check_request w.cache key given)) [
    | inr (e, bad) ↦ rw (bad, acquire) h
    | inl good ↦
        rw (good, acquire)
          (elim (Option-cases (find key w.cache.entries)) [
            | inl absent ↦ rw (absent, acquire) (miss-Holds ops mem base w key sized absent h)
            | inr (e, found) ↦
                rw (found, acquire)
                  (hit-Holds ops mem base w key e (find-Split key w.cache.entries found).0 sized h)
          ])
  ]

  pub release-Holds :
      (w : World C) (b : Borrow)
      → Holds ops mem base w
      → Holds ops mem base (record w { cache = (release w.cache b).0 })
  unfolding release
  release-Holds w b h = record {
    valid = release-IsValid w.cache b h.valid;
    owns = record {
      owned = λ q. ground (arith, h.owns.owned q, (unpin_measures b.entry w.cache.entries).3 q);
    };
  }

  -- `qx_expert_cache_destroy` gives back every block that the cache holds.
  pub destroy-live :
      (w : World C) → Holds ops mem base w → (q : ℕ) → mem.live (destroy ops w).ctx q ≡ base q
  unfolding destroy
  destroy-live w h q =
      let o = Owns-free_entries ops mem w.ctx w.cache.entries h.owns in
      ground (arith, h.valid.ready, o.owned q)

module _ {C : Type 0} (ops : Ops C) where
  finish-ne-stuck :
      (w : World C) (key : Key) (p d : ℕ) (r : ReadResult) → (finish ops w key p d r).1 ≢ stuck
  unfolding finish
  finish-ne-stuck w key p d r h = ground arith

  load-ne-stuck : (w : World C) (key : Key) → (load ops w key).1 ≢ stuck
  unfolding load
  load-ne-stuck w key =
      let (p, ctx_p) = ops.alloc w.ctx entry_size in
      let (d, ctx_d) = ops.alloc ctx_p key.slice_bytes in
      let (r, ctx_r) =
        ops.read_exact ctx_d (add64 key.tensor_offset key.slice_offset) d key.slice_bytes in
      let done = finish-ne-stuck (record w { ctx = ctx_r }) key p d r in λ h. ground (arith, done)

  admit-ne-stuck :
      (key : Key) (w : World C) (r : Room) → r ≢ no_fuel → (admit ops key (w, r)).1 ≢ stuck
  unfolding admit
  admit-ne-stuck key w room h = load-ne-stuck w key
  admit-ne-stuck key w (blocked e) h = λ q. cc
  admit-ne-stuck key w no_fuel h = absurd (h refl)

  miss-ne-stuck : (w : World C) (key : Key) → (miss ops w key).1 ≢ stuck
  unfolding miss
  miss-ne-stuck w key h =
      let counted = count_miss w in
      let (w', r) = make_room ops (suc (length w.cache.entries)) counted key.slice_bytes in
      ground (
        arith,
        admit-ne-stuck key w' r (
            make_room-ne-no_fuel ops (suc (length w.cache.entries)) counted key.slice_bytes
              (omega arith)),
      )

  hit-ne-stuck : (c : Cache) (key : Key) (e : Entry) → (hit c key e).1 ≢ stuck
  unfolding hit
  hit-ne-stuck c key e h = ground arith

  -- Acquire returns on every input: its loop never runs out of fuel.
  pub acquire-ne-stuck :
      (w : World C) (key : Key) (given : Bool) → (acquire ops w key given).1 ≢ stuck
  unfolding acquire
  acquire-ne-stuck w key given = elim (Option-cases (check_request w.cache key given)) [
    | inr (e, bad) ↦ rw (bad, acquire) (λ h. cc)
    | inl good ↦
        rw (good, acquire)
          (elim (Option-cases (find key w.cache.entries)) [
            | inl absent ↦ rw (absent, acquire) (miss-ne-stuck w key)
            | inr (e, found) ↦ rw (found, acquire) (hit-ne-stuck w.cache key e)
          ])
  ]
