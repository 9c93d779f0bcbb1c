-- ===== src/Cache/Misses.antt =====
-- src/qx_expert_cache.c: the miss path of `qx_expert_cache_acquire`, from the count of the miss to
-- the loaded entry, on every branch.
use mathlib.Core.List.{append-nil}
use Prim.Native.Nat.{min}
use qx_mini_c.Prelude.{
  ℕ, suc, ◌+◌, ◌-◌, ◌≤◌, ◌<◌, ◌≡◌, ◌≢◌, refl, true, List, [], ◌∷◌, ◌++◌, none, ltb, ◌==◌, ◌||◌,
  length, length-append, Bool-cases, Option-cases, inl, inr, IsU64, u64_max, add64, arith,
}
use qx_mini_c.Cache.{Key, Entry, Cache, Ops, World, ReadResult, key_equal, find, checked_add}
use qx_mini_c.Cache.Operations.{
  count_miss, Room, room, blocked, no_fuel, loaded_entry, insert, free_entry, finish, load, admit,
  miss, entry_size,
}
use qx_mini_c.Cache.Entries.{resident-append, held-append}
use qx_mini_c.Cache.Memory.{Allocator, Owns, Owns-free_entry}
use qx_mini_c.Cache.Invariant.{copies, copies-append, copies_of_find-none, IsValid, Holds}
use qx_mini_c.Cache.Hits.{checked_add-IsU64}
use qx_mini_c.Cache.Eviction.{Pending, make_room-Pending, make_room-room}

copies-cong : (es : List Entry) (j k : Key) → key_equal j k ≡ true → copies es k ≡ copies es j
unfolding key_equal
copies-cong [] j k h = refl
copies-cong (e ∷ es) j k h = ground (arith, copies-cong es j k h)

count_miss-IsValid :
    (c : Cache)
    → c.counters.requests ≢ u64_max
    → IsValid c
    → IsValid (record c {
      counters = record (c.counters) {
        requests = add64 c.counters.requests 1;
        misses = add64 c.counters.misses 1;
      };
    })
count_miss-IsValid c h v = record {
  ready = v.ready;
  budget_pos = v.budget_pos;
  budget_word = v.budget_word;
  total = v.total;
  within = v.within;
  peak_ge = v.peak_ge;
  peak_le = v.peak_le;
  requests_split = omega arith;
  loads_split = v.loads_split;
  loads_le = omega arith;
  requests_word = omega arith;
  read_word = v.read_word;
  avoided_word = v.avoided_word;
  unique = v.unique;
}

insert-IsValid :
    (c : Cache) (e : Entry)
    → IsValid c
    → copies c.entries e.key ≡ 0
    → c.counters.loads < c.counters.misses
    → c.counters.current_resident_packed_bytes + e.key.slice_bytes ≤ c.budget_bytes
    → IsValid (insert c e)
unfolding insert
insert-IsValid c e v absent counted fits = record {
  ready = v.ready;
  budget_pos = v.budget_pos;
  budget_word = v.budget_word;
  total = omega (arith, resident-append c.entries (e ∷ []));
  within = omega arith;
  peak_ge = ground arith;
  peak_le = ground arith;
  requests_split = v.requests_split;
  loads_split = omega (arith, length-append c.entries (e ∷ []));
  loads_le = omega arith;
  requests_word = v.requests_word;
  read_word = v.read_word;
  avoided_word = v.avoided_word;
  unique = λ k.
      ground (arith, v.unique k, copies-append c.entries (e ∷ []) k, copies-cong c.entries e.key k);
}

count_read-IsValid :
    (c : Cache) (n : ℕ)
    → IsU64 n
    → IsValid c
    → IsValid (record c { counters = record (c.counters) { buffered_bytes_read = n } })
count_read-IsValid c n h v = record {
  ready = v.ready;
  budget_pos = v.budget_pos;
  budget_word = v.budget_word;
  total = v.total;
  within = v.within;
  peak_ge = v.peak_ge;
  peak_le = v.peak_le;
  requests_split = v.requests_split;
  loads_split = v.loads_split;
  loads_le = v.loads_le;
  requests_word = v.requests_word;
  read_word = h;
  avoided_word = v.avoided_word;
  unique = v.unique;
}

module _ {C : Type 0} (ops : Ops C) (mem : Allocator ops) (base : ℕ → ℕ) where
  -- With the new entry's two blocks live beside the cache's, the rest of the call keeps the books.
  finish-Holds :
      (w : World C) (key : Key) (p d : ℕ) (r : ReadResult)
      → IsValid w.cache
      → Owns ops mem base w.ctx (w.cache.entries ++ (loaded_entry key p d r.bytes ∷ []))
      → copies w.cache.entries key ≡ 0
      → w.cache.counters.loads < w.cache.counters.misses
      → IsU64 key.slice_bytes
      → w.cache.counters.current_resident_packed_bytes + key.slice_bytes ≤ w.cache.budget_bytes
      → Holds ops mem base (finish ops w key p d r).0
  unfolding finish
  finish-Holds w key p d r v o absent counted sized fits =
      let e : Entry = loaded_entry key p d r.bytes in
      let freed : Owns ops mem base (free_entry ops w.ctx e) w.cache.entries =
        rw append-nil at (Owns-free_entry ops mem w.ctx w.cache.entries [] e o) in
      elim (Option-cases
        (checked_add w.cache.counters.buffered_bytes_read (min r.actual_read key.slice_bytes))) [
          | inl over ↦ rw (over, finish) (record { valid = v; owns = freed })
          | inr (n, sum) ↦
              let (word, _) = checked_add-IsU64 _ _ (omega arith) sum in
              let c : Cache = record (w.cache) {
                counters = record (w.cache.counters) { buffered_bytes_read = n };
              } in
              let v' = count_read-IsValid w.cache n word v in
              let kept : Holds ops mem base (record { cache = c; ctx = free_entry ops w.ctx e }) =
                record { valid = v'; owns = freed } in
              let added : Holds ops mem base (record w { cache = insert c e }) = record {
                valid = insert-IsValid c e v' absent counted fits;
                owns = unfold insert in o;
              } in
              rw (sum, finish) (ground (arith, kept, added))
        ]

  -- The two allocations, the read and what follows keep the books, and free what they took where
  -- they fail.
  load-Holds :
      (w : World C) (key : Key)
      → Pending ops mem base key w
      → w.cache.counters.current_resident_packed_bytes ≤ w.cache.budget_bytes - key.slice_bytes
      → Holds ops mem base (load ops w key).0
  unfolding load
  load-Holds w key h fits =
      let es = w.cache.entries in
      let p = (ops.alloc w.ctx entry_size).0 in
      let ctx_p = (ops.alloc w.ctx entry_size).1 in
      let d = (ops.alloc ctx_p key.slice_bytes).0 in
      let ctx_d = (ops.alloc ctx_p key.slice_bytes).1 in
      let ctx_r =
        (ops.read_exact ctx_d (add64 key.tensor_offset key.slice_offset) d key.slice_bytes).1 in
      let r =
        (ops.read_exact ctx_d (add64 key.tensor_offset key.slice_offset) d key.slice_bytes).0 in
      let owned = h.holds.owns.owned in
      elim (Bool-cases (p == 0)) [
        | inl null ↦ rw null (record {
          valid = h.holds.valid;
          owns = record {
            owned = λ q. ground (arith, owned q, mem.live-alloc_null w.ctx entry_size q);
          };
        })
        | inr some_p ↦ rw some_p (elim (Bool-cases (d == 0)) [
          | inl null ↦ rw null (record {
            valid = h.holds.valid;
            owns = record {
              owned = λ q. ground (
                arith,
                owned q,
                mem.live-alloc w.ctx entry_size q,
                mem.live-alloc w.ctx entry_size p,
                mem.live-alloc_null ctx_p key.slice_bytes q,
                mem.live-alloc_null ctx_p key.slice_bytes p,
                mem.live-free ctx_d p q,
              );
            };
          })
          | inr some_d ↦ rw some_d (
              finish-Holds (record w { ctx = ctx_r }) key p d r h.holds.valid
                (record {
                  owned = λ q. ground (
                    arith,
                    owned q,
                    held-append es (loaded_entry key p d r.bytes ∷ []) q,
                    mem.live-alloc w.ctx entry_size q,
                    mem.live-alloc ctx_p key.slice_bytes q,
                    mem.live-read ctx_d (add64 key.tensor_offset key.slice_offset) d key.slice_bytes
                        q,
                  );
                })
                h.absent h.counted h.sized (omega (arith, h.fits)))
        ])
      ]

  admit-Holds :
      (key : Key) (w : World C) (r : Room)
      → Pending ops mem base key w
      → (r ≡ room
          → w.cache.counters.current_resident_packed_bytes ≤ w.cache.budget_bytes - key.slice_bytes)
      → Holds ops mem base (admit ops key (w, r)).0
  unfolding admit
  admit-Holds key w room h fits = load-Holds w key h (fits refl)
  admit-Holds key w (blocked e) h fits = h.holds
  admit-Holds key w no_fuel h fits = h.holds

  count_miss-Holds :
      (w : World C)
      → w.cache.counters.requests ≢ u64_max
      → Holds ops mem base w
      → Holds ops mem base (count_miss w)
  count_miss-Holds w below h = record {
    valid = count_miss-IsValid w.cache below h.valid;
    owns = record { owned = h.owns.owned };
  }

  -- What holds when the eviction loop starts.
  pub count_miss-Pending :
      (w : World C) (key : Key)
      → IsU64 key.slice_bytes
      → find key w.cache.entries ≡ none
      → Holds ops mem base w
      → w.cache.counters.requests ≢ u64_max
      → key.slice_bytes ≤ w.cache.budget_bytes
      → Pending ops mem base key (count_miss w)
  count_miss-Pending w key sized absent h below fits = record {
    holds = count_miss-Holds w below h;
    absent = copies_of_find-none key w.cache.entries absent;
    counted = omega (arith, h.valid);
    sized = sized;
    fits = fits;
  }

  pub miss-Holds :
      (w : World C) (key : Key)
      → IsU64 key.slice_bytes
      → find key w.cache.entries ≡ none
      → Holds ops mem base w
      → Holds ops mem base (miss ops w key).0
  unfolding miss
  miss-Holds w key sized absent h =
      let c = w.cache in
      elim (Bool-cases (c.counters.requests == u64_max || c.counters.misses == u64_max)) [
        | inl full ↦ rw full h
        | inr below ↦ rw below (elim (Bool-cases (ltb c.budget_bytes key.slice_bytes)) [
          | inl big ↦ rw big (count_miss-Holds w (ground arith) h)
          | inr fits ↦
              let fuel = suc (length c.entries) in
              let pending = count_miss-Pending w key sized absent h (ground arith) (ground arith) in
              rw fits (
                admit-Holds key _ _ (make_room-Pending ops mem base key fuel (count_miss w) pending)
                  (make_room-room ops fuel (count_miss w) key.slice_bytes))
        ])
      ]
