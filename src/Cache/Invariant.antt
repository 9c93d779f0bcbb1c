-- ===== src/Cache/Invariant.antt =====
-- src/qx_expert_cache.c: the well-formedness of a cache, and that eviction and a hit keep it.
use qx_mini_c.Prelude.{
  ℕ, suc, ◌+◌, ◌≤◌, ◌<◌, ◌≡◌, refl, true, List, [], ◌∷◌, ◌++◌, none, some, bit, length,
  length-append, IsU64, arith,
}
use qx_mini_c.Cache.{Key, Entry, Cache, Ops, World, key_equal, find, victim, unlink}
use qx_mini_c.Cache.Operations.{evict}
use qx_mini_c.Cache.Entries.{resident, held, resident-append, Split, victim-Split, unlinked}
use qx_mini_c.Cache.Memory.{Allocator, Owns, Owns-apart, Owns-Split, Owns-free_entry}

-- How many entries stand for a key.
abbrev pub copies : List Entry → Key → ℕ
copies [] k = 0
copies (e ∷ es) k = bit (key_equal e.key k) + copies es k

pub copies-append : (xs ys : List Entry) (k : Key) → copies (xs ++ ys) k ≡ copies xs k + copies ys k
copies-append [] ys k = omega arith
copies-append (x ∷ xs) ys k = omega (arith, copies-append xs ys k)

-- `find` finds a key that an entry stands for.
pub copies_of_find-none : (k : Key) (es : List Entry) → find k es ≡ none → copies es k ≡ 0
unfolding find
copies_of_find-none k [] h = refl
copies_of_find-none k (e ∷ es) h = ground (arith, copies_of_find-none k es)

-- What an entry that leaves the list takes with it.
pub unlink_measures :
    (es : List Entry) (e : Entry)
    → Split es e
    → ((q : ℕ) → held es q ≤ 1)
    → (resident (unlink e.addr es) + e.key.slice_bytes ≡ resident es)
      × (suc (length (unlink e.addr es)) ≡ length es)
      × ((k : Key) → copies (unlink e.addr es) k ≤ copies es k)
unlink_measures es e s apart =
    let pre = s.pre in
    let post = s.post in
    rw (unlinked s apart, s.split)
      (
        omega (arith, resident-append pre (e ∷ post), resident-append pre post),
        omega (arith, length-append pre (e ∷ post), length-append pre post),
        λ k. omega (arith, copies-append pre (e ∷ post) k, copies-append pre post k),
      )

pub record IsValid (c : Cache) : Type 0 where
  pub ready : c.initialized ≡ true
  pub budget_pos : 0 < c.budget_bytes
  pub budget_word : IsU64 c.budget_bytes
  -- The byte counts: what is resident is counted, and never passes the budget.
  pub total : c.counters.current_resident_packed_bytes ≡ resident c.entries
  pub within : c.counters.current_resident_packed_bytes ≤ c.budget_bytes
  pub peak_ge : c.counters.current_resident_packed_bytes ≤ c.counters.peak_resident_packed_bytes
  pub peak_le : c.counters.peak_resident_packed_bytes ≤ c.budget_bytes
  -- The event counts: each request is a hit or a miss, each load is resident or was evicted.
  pub requests_split : c.counters.requests ≡ c.counters.hits + c.counters.misses
  pub loads_split : c.counters.loads ≡ c.counters.evictions + length c.entries
  pub loads_le : c.counters.loads ≤ c.counters.misses
  pub requests_word : IsU64 c.counters.requests
  pub read_word : IsU64 c.counters.buffered_bytes_read
  pub avoided_word : IsU64 c.counters.buffered_bytes_avoided
  -- No key has two entries.
  pub unique : (k : Key) → copies c.entries k ≤ 1

module _ {C : Type 0} (ops : Ops C) (mem : Allocator ops) (base : ℕ → ℕ) where
  -- A valid cache that owns its memory: `base` is what the caller held before.
  pub record Holds (w : World C) : Type 0 where
    pub valid : IsValid w.cache
    pub owns : Owns ops mem base w.ctx w.cache.entries

  evict-IsValid-Split :
      (w : World C) (e : Entry) (s : Split w.cache.entries e)
      → Holds w
      → IsValid (evict ops w e).cache
  unfolding evict
  evict-IsValid-Split w e s h =
      let (bytes, count, keys) = unlink_measures w.cache.entries e s (Owns-apart ops mem h.owns) in
      record {
        ready = h.valid.ready;
        budget_pos = h.valid.budget_pos;
        budget_word = h.valid.budget_word;
        total = omega arith;
        within = omega arith;
        peak_ge = omega arith;
        peak_le = h.valid.peak_le;
        requests_split = h.valid.requests_split;
        loads_split = omega arith;
        loads_le = h.valid.loads_le;
        requests_word = h.valid.requests_word;
        read_word = h.valid.read_word;
        avoided_word = h.valid.avoided_word;
        unique = λ k. omega (arith, keys k, h.valid.unique k);
      }

  pub evict-Holds :
      (w : World C) (e : Entry) → victim w.cache.entries ≡ some e → Holds w → Holds (evict ops w e)
  unfolding evict
  evict-Holds w e v h =
      let (s, _, _) = victim-Split w.cache.entries v in
      record {
        valid = evict-IsValid-Split w e s h;
        owns =
            rw (unlinked s (Owns-apart ops mem h.owns))
              (Owns-free_entry ops mem w.ctx s.pre s.post e (Owns-Split ops mem s h.owns));
      }
