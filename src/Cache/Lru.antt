-- ===== src/Cache/Lru.antt =====
-- src/qx_expert_cache.c: which entries the eviction loop takes, against one pass over the list.
use mathlib.Core.List.{append-nil}
use mathlib.Core.Path.{ap₂}
use qx_mini_c.Prelude.{
  ℕ, zero, suc, ◌+◌, ◌-◌, ◌≡◌, ◌≢◌, refl, sym, ap, ◌∙◌, true, false, List, [], ◌∷◌, ◌++◌, some,
  ◌==◌, ltb, Bool-cases, Option-cases, inl, inr, u64_max, arith, All, if◌then◌else◌,
}
use qx_mini_c.Cache.{Key, Entry, Ops, World, counter_overflow, victim}
use qx_mini_c.Cache.Operations.{blocked, no_fuel, make_room, evict}
use qx_mini_c.Cache.Entries.{
  IsPinned, victim-Split, victim-none, unlinked, resident, resident-append,
}
use qx_mini_c.Cache.Memory.{Allocator, Owns-apart}
use qx_mini_c.Cache.Eviction.{Pending, evict-Pending}

-- What should be left when `excess` bytes are too many: going from the least to the most recently
-- used, each entry that is not pinned is dropped, until the excess is gone.
unfoldable pub trim : ℕ → List Entry → List Entry
trim zero es = es
trim (suc n) [] = []
trim (suc n) (e ∷ es) =
    let dropped = trim (suc n - e.key.slice_bytes) es in
    let kept = trim (suc n) es in if e.pin_count == 0 then dropped else e ∷ kept

trim-pinned :
    (n : ℕ) (pre post : List Entry) → All IsPinned pre → trim n (pre ++ post) ≡ pre ++ trim n post
unfolding trim
trim-pinned zero pre post h = refl
trim-pinned (suc n) [] post h = refl
trim-pinned (suc n) (e ∷ pre) post h = ground (arith, h.0, trim-pinned (suc n) pre post h.1)

trim-none : (n : ℕ) → trim n [] ≡ []
unfolding trim
trim-none zero = refl
trim-none (suc n) = refl

trim-All_pinned : (n : ℕ) (es : List Entry) → All IsPinned es → trim n es ≡ es
trim-All_pinned n es h =
    let all = trim-pinned n es [] h in rw (append-nil, trim-none n, append-nil) at all

trim-victim :
    (n : ℕ) (pre post : List Entry) (e : Entry)
    → All IsPinned pre
    → e.pin_count ≡ 0
    → trim (suc n) (pre ++ (e ∷ post)) ≡ trim (suc n - e.key.slice_bytes) (pre ++ post)
unfolding trim
trim-victim n pre post e h idle =
    trim-pinned (suc n) pre (e ∷ post) h
    ∙ ap (◌++◌ pre) (ground (arith, idle))
    ∙ sym (trim-pinned (suc n - e.key.slice_bytes) pre post h)

-- How far the resident bytes are above what leaves room for `size`.
abbrev pub excess : {C : Type 0} → World C → ℕ → ℕ
excess w size = w.cache.counters.current_resident_packed_bytes - (w.cache.budget_bytes - size)

module _ {C : Type 0} (ops : Ops C) (mem : Allocator ops) (base : ℕ → ℕ) where
  evict-trim :
      (w : World C) (key : Key) (e : Entry)
      → victim w.cache.entries ≡ some e
      → Pending ops mem base key w
      → excess w key.slice_bytes ≢ 0
      → trim (excess w key.slice_bytes) w.cache.entries
        ≡ trim (excess (evict ops w e) key.slice_bytes) (evict ops w e).cache.entries
  unfolding evict
  evict-trim w key e v p over =
      let (s, before, idle) = victim-Split w.cache.entries v in
      let n = excess w key.slice_bytes - 1 in
      let here : resident w.cache.entries ≡ resident s.pre + resident (e ∷ s.post) =
        rw s.split (resident-append s.pre (e ∷ s.post)) in
      let less : suc n - e.key.slice_bytes ≡ excess (evict ops w e) key.slice_bytes =
        omega (arith, here, over, p.holds.valid) in
      ap₂ trim (omega (arith, over)) s.split
      ∙ trim-victim n s.pre s.post e before idle
      ∙ ap₂ trim less (sym (unlinked s (Owns-apart ops mem p.holds.owns)))

  make_room_step :
      (fuel : ℕ) (w : World C) (size : ℕ) (e : Entry)
      → ltb (w.cache.budget_bytes - size) w.cache.counters.current_resident_packed_bytes ≡ true
      → victim w.cache.entries ≡ some e
      → (w.cache.counters.evictions == u64_max) ≡ false
      → make_room ops (suc fuel) w size ≡ make_room ops fuel (evict ops w e) size
  unfolding make_room
  make_room_step fuel w size e over v below = ground (arith, over, v, below)

  -- The loop starts at the least recently used entry again for each eviction. In every call that
  -- runs into no counter overflow it leaves exactly what one pass over the list would: the least
  -- recently used entries that are not pinned go first, and none after the slice fits.
  pub make_room-trim :
      (key : Key) (fuel : ℕ) (w : World C)
      → Pending ops mem base key w
      → (make_room ops fuel w key.slice_bytes).1 ≢ blocked counter_overflow
      → (make_room ops fuel w key.slice_bytes).1 ≢ no_fuel
      → (make_room ops fuel w key.slice_bytes).0.cache.entries
        ≡ trim (excess w key.slice_bytes) w.cache.entries
  unfolding make_room
  make_room-trim key zero w p a b = absurd (b refl)
  make_room-trim key (suc fuel) w p a b =
      elim (Bool-cases (
        ltb (w.cache.budget_bytes - key.slice_bytes)
          w.cache.counters.current_resident_packed_bytes)) [
            | inr fits ↦
                let none_over : excess w key.slice_bytes ≡ 0 = ground arith in
                rw (fits, make_room) (rw none_over (unfold trim in refl))
            | inl over ↦ elim (Option-cases (victim w.cache.entries)) [
              | inl idle ↦
                  rw (over, make_room)
                    (rw (idle, make_room)
                      (sym (trim-All_pinned _ w.cache.entries (victim-none w.cache.entries idle))))
              | inr (e, v) ↦ elim (Bool-cases (w.cache.counters.evictions == u64_max)) [
                | inl full ↦ absurd (a (ground (arith, over, v, full)))
                | inr below ↦
                    let next = make_room_step fuel w key.slice_bytes e over v below in
                    rw next (
                      make_room-trim key fuel (evict ops w e)
                        (evict-Pending ops mem base key w e v p) (rw next at a) (rw next at b)
                      ∙ sym (evict-trim w key e v p (ground (arith, over))))
              ]
            ]
          ]
