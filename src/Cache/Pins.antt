-- ===== src/Cache/Pins.antt =====
-- src/qx_expert_cache.c: pinned entries in the course of qx_expert_cache_acquire.
use qx_mini_c.Prelude.{
  ℕ, zero, suc, ◌≤◌, ◌≡◌, ◌≢◌, Bool, List, [], ◌∷◌, ◌++◌, none, some, ◌==◌, length, Bool-cases,
  Option-cases, ◌⊎◌, inl, inr, IsU64, u64_max, add64, arith, All, ltb, ◌||◌,
}
use qx_mini_c.Cache.{
  Key, Entry, Cache, Ops, World, ReadResult, find, victim, promote, set_pin_count, check_request,
  hit,
}
use qx_mini_c.Cache.Operations.{
  count_miss, Room, room, blocked, no_fuel, loaded_entry, acquire, make_room, evict, load, finish,
  insert, admit, miss, entry_size,
}
use qx_mini_c.Cache.Entries.{held, Split, IsPinned, find-Split, victim-Split, promoted, unlinked}
use qx_mini_c.Cache.Memory.{Allocator, Owns-apart}
use qx_mini_c.Cache.Invariant.{Holds}
use qx_mini_c.Cache.Eviction.{Pending, evict-Pending}
use qx_mini_c.Cache.Contents.{All-split}
use qx_mini_c.Cache.Misses.{count_miss-Pending}

-- The same object, holding the same bytes for the same key, and pinned no less often.
pub record Continues (e x : Entry) : Type 0 where
  pub addr : x.addr ≡ e.addr
  pub key : x.key ≡ e.key
  pub buf : x.buf ≡ e.buf
  pub bytes : x.bytes ≡ e.bytes
  pub pins : e.pin_count ≤ x.pin_count

abbrev pub Keeps : Entry → List Entry → Type 0
Keeps e [] = ⊥
Keeps e (x ∷ xs) = Continues e x ⊎ Keeps e xs

Keeps-left : (e : Entry) (xs ys : List Entry) → Keeps e xs → Keeps e (xs ++ ys)
Keeps-left e [] ys h = absurd h
Keeps-left e (x ∷ xs) ys (inl h) = inl h
Keeps-left e (x ∷ xs) ys (inr h) = inr (Keeps-left e xs ys h)

Keeps-right : (e : Entry) (xs ys : List Entry) → Keeps e ys → Keeps e (xs ++ ys)
Keeps-right e [] ys h = h
Keeps-right e (x ∷ xs) ys h = inr (Keeps-right e xs ys h)

Keeps-cases : (e : Entry) (xs ys : List Entry) → Keeps e (xs ++ ys) → Keeps e xs ⊎ Keeps e ys
Keeps-cases e [] ys h = inr h
Keeps-cases e (x ∷ xs) ys (inl h) = inl (inl h)
Keeps-cases e (x ∷ xs) ys (inr h) = elim (Keeps-cases e xs ys h) [
  | inl a ↦ inl (inr a)
  | inr b ↦ inr b
]

-- Out of a list goes one entry that is not a continuation.
Keeps-drop :
    (e x : Entry) (pre post : List Entry)
    → (Continues e x → ⊥)
    → Keeps e (pre ++ (x ∷ post))
    → Keeps e (pre ++ post)
Keeps-drop e x pre post other h = elim (Keeps-cases e pre (x ∷ post) h) [
  | inl a ↦ Keeps-left e pre post a
  | inr (inl c) ↦ absurd (other c)
  | inr (inr b) ↦ Keeps-right e pre post b
]

-- One entry moves to the end, and becomes `x'`.
Keeps-move :
    (e x x' : Entry) (pre post : List Entry)
    → (Continues e x → Continues e x')
    → Keeps e (pre ++ (x ∷ post))
    → Keeps e (pre ++ (post ++ (x' ∷ [])))
Keeps-move e x x' pre post on h = elim (Keeps-cases e pre (x ∷ post) h) [
  | inl a ↦ Keeps-left e pre _ a
  | inr (inl c) ↦ Keeps-right e pre _ (Keeps-right e post _ (inl (on c)))
  | inr (inr b) ↦ Keeps-right e pre _ (Keeps-left e post _ b)
]

module _ {C : Type 0} (ops : Ops C) (mem : Allocator ops) (base : ℕ → ℕ) (e : Entry)
    (pinned : IsPinned e) where
  evict-Keeps :
      (w : World C) (x : Entry)
      → victim w.cache.entries ≡ some x
      → ((p : ℕ) → held w.cache.entries p ≤ 1)
      → Keeps e w.cache.entries
      → Keeps e (evict ops w x).cache.entries
  unfolding evict
  evict-Keeps w x v apart h =
      let (s, _, idle) = victim-Split w.cache.entries v in
      rw (unlinked s apart)
        (Keeps-drop e x s.pre s.post (λ c. omega (arith, c.pins, pinned, idle)) (rw s.split at h))

  make_room-Keeps :
      (key : Key) (fuel : ℕ) (w : World C)
      → Pending ops mem base key w
      → Keeps e w.cache.entries
      → Keeps e (make_room ops fuel w key.slice_bytes).0.cache.entries
  unfolding make_room
  make_room-Keeps key zero w p h = h
  make_room-Keeps key (suc fuel) w p h = elim (Option-cases (victim w.cache.entries)) [
    | inl none_idle ↦ ground (arith, none_idle, h)
    | inr (x, v) ↦
        let rest =
          make_room-Keeps key fuel (evict ops w x) (evict-Pending ops mem base key w x v p)
            (evict-Keeps w x v (Owns-apart ops mem p.holds.owns) h) in
        rw (v, make_room) (ground (arith, h, rest))
  ]

  hit-Keeps :
      (c : Cache) (key : Key) (x : Entry)
      → Split c.entries x
      → IsU64 x.pin_count
      → ((p : ℕ) → held c.entries p ≤ 1)
      → Keeps e c.entries
      → Keeps e (hit c key x).0.entries
  unfolding hit
  hit-Keeps c key x s word apart h =
      let n = add64 x.pin_count 1 in
      let x' : Entry = record x { pin_count = n } in
      let moved : x.pin_count ≢ u64_max → Keeps e (promote x' (set_pin_count x.addr n c.entries)) =
        λ below. rw (promoted s n apart) (
          Keeps-move e x x' s.pre s.post
            (λ k. record {
              addr = k.addr;
              key = k.key;
              buf = k.buf;
              bytes = k.bytes;
              pins = omega (arith, k.pins, word, below);
            })
            (rw s.split at h)) in
      ground (arith, h, moved)

  finish-Keeps :
      (w : World C) (key : Key) (p d : ℕ) (r : ReadResult)
      → Keeps e w.cache.entries
      → Keeps e (finish ops w key p d r).0.cache.entries
  unfolding finish insert
  finish-Keeps w key p d r h =
      let more = Keeps-left e w.cache.entries (loaded_entry key p d r.bytes ∷ []) h in
      ground (arith, h, more)

  load-Keeps :
      (w : World C) (key : Key) → Keeps e w.cache.entries → Keeps e (load ops w key).0.cache.entries
  unfolding load
  load-Keeps w key h =
      let (p, ctx_p) = ops.alloc w.ctx entry_size in
      let (d, ctx_d) = ops.alloc ctx_p key.slice_bytes in
      let (r, ctx_r) =
        ops.read_exact ctx_d (add64 key.tensor_offset key.slice_offset) d key.slice_bytes in
      let done = finish-Keeps (record w { ctx = ctx_r }) key p d r h in ground (arith, h, done)

  admit-Keeps :
      (key : Key) (w : World C) (r : Room)
      → Keeps e w.cache.entries
      → Keeps e (admit ops key (w, r)).0.cache.entries
  unfolding admit
  admit-Keeps key w room h = load-Keeps w key h
  admit-Keeps key w (blocked _) h = h
  admit-Keeps key w no_fuel h = h

  miss-Keeps :
      (w : World C) (key : Key)
      → IsU64 key.slice_bytes
      → find key w.cache.entries ≡ none
      → Holds ops mem base w
      → Keeps e w.cache.entries
      → Keeps e (miss ops w key).0.cache.entries
  unfolding miss
  miss-Keeps w key sized absent hold h =
      let c = w.cache in
      elim (Bool-cases (c.counters.requests == u64_max || c.counters.misses == u64_max)) [
        | inl full ↦ rw full h
        | inr below ↦ rw below (elim (Bool-cases (ltb c.budget_bytes key.slice_bytes)) [
          | inl big ↦ rw big h
          | inr fits ↦
              let pending =
                count_miss-Pending ops mem base w key sized absent hold (ground arith)
                  (ground arith) in
              rw fits (
                admit-Keeps key _ _
                  (make_room-Keeps key (suc (length c.entries)) (count_miss w) pending h))
        ])
      ]

  -- The lent bytes stay. On a valid cache that owns its memory, with a slice size of 64 bits asked
  -- for and pin counts of 64 bits in its entries: an acquire, whatever it evicts or returns, does not
  -- take a pinned entry off the list, change its address, key, buffer or bytes, or lower its pin
  -- count. Its pin count may rise, and its place in the list may change.
  pub acquire-Keeps :
      (w : World C) (key : Key) (given : Bool)
      → IsU64 key.slice_bytes
      → All (λ x. IsU64 x.pin_count) w.cache.entries
      → Holds ops mem base w
      → Keeps e w.cache.entries
      → Keeps e (acquire ops w key given).0.cache.entries
  unfolding acquire
  acquire-Keeps w key given sized words hold h =
      elim (Option-cases (check_request w.cache key given)) [
        | inr (_, bad) ↦ rw (bad, acquire) h
        | inl good ↦
            rw (good, acquire)
              (elim (Option-cases (find key w.cache.entries)) [
                | inl absent ↦ rw (absent, acquire) (miss-Keeps w key sized absent hold h)
                | inr (x, found) ↦
                    let (s, _) = find-Split key w.cache.entries found in
                    let (_, word, _) =
                      All-split (λ x. IsU64 x.pin_count) s.pre s.post x (rw s.split at words) in
                    rw (found, acquire)
                      (hit-Keeps w.cache key x s word (Owns-apart ops mem hold.owns) h)
              ])
      ]
