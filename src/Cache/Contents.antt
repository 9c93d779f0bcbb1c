-- ===== src/Cache/Contents.antt =====
-- src/qx_expert_cache.c: what a successful `qx_expert_cache_acquire` hands out.
use qx_mini_c.Prelude.{
  ℕ, zero, suc, ◌≤◌, ◌≡◌, ◌≢◌, refl, true, List, [], ◌∷◌, ◌++◌, ◌==◌, Bool-cases, Option-cases, inl,
  inr, IsU64, u64_max, add64, arith, All, All-append, sym, ◌∙◌,
}
use Prim.Native.Nat.{min}
use mathlib.Core.Path.{ap₂}
use mathlib.Core.List.{append_assoc}
use qx_mini_c.Cache.{
  Key, Entry, Cache, Ops, World, Outcome, Borrow, Error, ok, fail, ReadResult, borrow_of, key_equal,
  victim, unlink, promote, set_pin_count, counter_overflow, pin_count_overflow, read_failed,
  truncated_read, checked_add, hit,
}
use qx_mini_c.Cache.Operations.{loaded_entry, make_room, evict, finish, insert}
use qx_mini_c.Cache.Entries.{held, Split, promoted}

-- The reader's contract: a read that reports success and all its bytes has written the bytes that
-- stand at that offset.
pub record Reader {C : Type 0} (ops : Ops C) : Type 0 where
  pub content : ℕ → ℕ → List ℕ
  pub read-content :
      (ctx : C) (offset dst size : ℕ)
      → (ops.read_exact ctx offset dst size).0.read_ok ≡ true
      → size ≤ (ops.read_exact ctx offset dst size).0.actual_read
      → (ops.read_exact ctx offset dst size).0.bytes ≡ content offset size

-- The bytes that a key stands for.
abbrev pub slice_content : {C : Type 0} {ops : Ops C} → Reader ops → Key → List ℕ
slice_content reader key = reader.content (add64 key.tensor_offset key.slice_offset) key.slice_bytes

module _ {ℓ} (P : Entry → Type ℓ) where
  pub All-split :
      (pre post : List Entry) (e : Entry) → All P (pre ++ (e ∷ post)) → All P pre × P e × All P post
  All-split [] post e h = (tt, h.0, h.1)
  All-split (x ∷ pre) post e h = let (a, b, c) = All-split pre post e h.1 in ((h.0, a), b, c)

  All-unlink : (a : ℕ) (es : List Entry) → All P es → All P (unlink a es)
  unfolding unlink
  All-unlink a [] h = tt
  All-unlink a (e ∷ es) h = elim (Bool-cases (e.addr == a)) [
    | inl same ↦ rw (same, unlink) (h.1)
    | inr other ↦ rw (other, unlink) (h.0, All-unlink a es h.1)
  ]

module _ {C : Type 0} (ops : Ops C) (reader : Reader ops) where
  -- An entry whose buffer holds the bytes of its key.
  pub record IsSound (e : Entry) : Type 0 where
    pub pins : IsU64 e.pin_count
    pub bytes : e.bytes ≡ slice_content reader e.key

  -- What the caller gets for a key: the last entry, pinned, its buffer holding the key's bytes.
  pub record Granted (key : Key) (c : Cache) (b : Borrow) : Type 0 where
    pub front : List Entry
    pub entry : Entry
    pub last : c.entries ≡ front ++ (entry ∷ [])
    pub same : key_equal entry.key key ≡ true
    pub pinned : entry.pin_count ≢ 0
    pub borrowed : b ≡ borrow_of c entry
    pub bytes : entry.bytes ≡ slice_content reader key

  pub record Served (key : Key) (c : Cache) (out : Outcome) : Type 0 where
    pub sound : All IsSound c.entries
    pub granted : (b : Borrow) → out ≡ ok b → Granted key c b

  slice_content-cong :
      (j k : Key) → key_equal j k ≡ true → slice_content reader j ≡ slice_content reader k
  unfolding key_equal
  slice_content-cong j k h = ap₂ reader.content (ground arith) (ground arith)

  pub failed : (key : Key) (c : Cache) (e : Error) → All IsSound c.entries → Served key c (fail e)
  failed key c e h = record { sound = h; granted = λ b p. cc }

  evict-IsSound :
      (w : World C) (e : Entry)
      → All IsSound w.cache.entries
      → All IsSound (evict ops w e).cache.entries
  unfolding evict
  evict-IsSound w e h = All-unlink IsSound e.addr w.cache.entries h

  pub make_room-IsSound :
      (fuel : ℕ) (w : World C) (size : ℕ)
      → All IsSound w.cache.entries
      → All IsSound (make_room ops fuel w size).0.cache.entries
  unfolding make_room
  make_room-IsSound zero w size h = h
  make_room-IsSound (suc fuel) w size h = elim (Option-cases (victim w.cache.entries)) [
    | inl e ↦ ground (arith, e, h)
    | inr (e, v) ↦
        rw (v, make_room)
          (ground (arith, h, make_room-IsSound fuel (evict ops w e) size (evict-IsSound w e h)))
  ]

  moved-Served :
      (c : Cache) (key : Key) (e : Entry) (s : Split c.entries e)
      → ((p : ℕ) → held c.entries p ≤ 1)
      → key_equal e.key key ≡ true
      → All IsSound c.entries
      → e.pin_count ≢ u64_max
      → let n = add64 e.pin_count 1 in
        let es = promote (record e { pin_count = n }) (set_pin_count e.addr n c.entries) in
        Served key (record c { entries = es }) (ok (borrow_of c e))
  moved-Served c key e s apart same h below =
      let n = add64 e.pin_count 1 in
      let e' : Entry = record e { pin_count = n } in
      let (before, this, after) = All-split IsSound s.pre s.post e (rw s.split at h) in
      let sound' : IsSound e' = record { pins = omega arith; bytes = this.bytes } in
      let last = promoted s n apart in
      record {
        sound = rw last (
            All-append IsSound s.pre (s.post ++ (e' ∷ [])) before
              (All-append IsSound s.post (e' ∷ []) after (sound', tt)));
        granted = λ b p. record {
          front = s.pre ++ s.post;
          entry = e';
          last = last ∙ sym (append_assoc s.pre s.post (e' ∷ []));
          same = same;
          pinned = omega (arith, this.pins, below);
          borrowed = cc;
          bytes = this.bytes ∙ slice_content-cong e.key key same;
        };
      }

  inserted-Served :
      (c : Cache) (key : Key) (p d : ℕ) (bytes : List ℕ)
      → bytes ≡ slice_content reader key
      → All IsSound c.entries
      → let e = loaded_entry key p d bytes in Served key (insert c e) (ok (borrow_of c e))
  unfolding insert
  inserted-Served c key p d bytes read h =
      let e : Entry = loaded_entry key p d bytes in
      record {
        sound =
            All-append IsSound c.entries (e ∷ []) h
              (record { pins = omega arith; bytes = read }, tt);
        granted = λ b q. record {
          front = c.entries;
          entry = e;
          last = refl;
          same = unfold key_equal in ground arith;
          pinned = omega arith;
          borrowed = cc;
          bytes = read;
        };
      }

  pub hit-Served :
      (w : World C) (key : Key) (e : Entry) (s : Split w.cache.entries e)
      → ((p : ℕ) → held w.cache.entries p ≤ 1)
      → key_equal e.key key ≡ true
      → All IsSound w.cache.entries
      → Served key (hit w.cache key e).0 (hit w.cache key e).1
  unfolding hit
  hit-Served w key e s apart same h =
      let c = w.cache in
      let counted : Cache = record c {
        counters = record (c.counters) {
          requests = add64 c.counters.requests 1;
          hits = add64 c.counters.hits 1;
          buffered_bytes_avoided = add64 c.counters.buffered_bytes_avoided key.slice_bytes;
        };
      } in
      let refused = failed key c counter_overflow h in
      let full = failed key counted pin_count_overflow h in
      let served : e.pin_count ≢ u64_max
          → Served key (record counted { entries = _ }) (ok (borrow_of c e)) =
        moved-Served counted key e s apart same h in
      ground (arith, refused, full, served)

  pub finish-Served :
      (w : World C) (key : Key) (p d : ℕ) (r : ReadResult)
      → (r.read_ok ≡ true → key.slice_bytes ≤ r.actual_read → r.bytes ≡ slice_content reader key)
      → All IsSound w.cache.entries
      → Served key (finish ops w key p d r).0.cache (finish ops w key p d r).1
  unfolding finish
  finish-Served w key p d r read h =
      elim (Option-cases
        (checked_add w.cache.counters.buffered_bytes_read (min r.actual_read key.slice_bytes))) [
          | inl over ↦ rw (over, finish) (failed key w.cache counter_overflow h)
          | inr (n, sum) ↦
              let c : Cache = record (w.cache) {
                counters = record (w.cache.counters) { buffered_bytes_read = n };
              } in
              let unread = failed key c read_failed h in
              let short = failed key c truncated_read h in
              let full = failed key c counter_overflow h in
              let served : r.read_ok ≡ true
                  → key.slice_bytes ≤ r.actual_read
                  → Served key (insert c (loaded_entry key p d r.bytes))
                      (ok (borrow_of c (loaded_entry key p d r.bytes))) =
                λ fine all. inserted-Served c key p d r.bytes (read fine all) h in
              rw (sum, finish) (ground (arith, unread, short, full, served))
        ]
