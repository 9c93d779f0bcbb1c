-- ===== src/Cache/Hits.antt =====
-- src/qx_expert_cache.c: the body of the first loop of `qx_expert_cache_acquire`, a hit.
use qx_mini_c.Prelude.{
  ℕ, ◌+◌, ◌≤◌, ◌≡◌, List, [], ◌∷◌, ◌++◌, some, length, length-append, IsU64, add64, arith,
}
use qx_mini_c.Cache.{Key, Entry, Ops, World, hit, checked_add, promote, set_pin_count}
use qx_mini_c.Cache.Entries.{resident, held, resident-append, held-append, Split, promoted}
use qx_mini_c.Cache.Memory.{Allocator, Owns-apart}
use qx_mini_c.Cache.Invariant.{copies, copies-append, IsValid, Holds}

module _ {es : List Entry} {e : Entry} (s : Split es e) (n : ℕ)
    (apart : (p : ℕ) → held es p ≤ 1) where
  -- A pin and a promotion change no measure of the list.
  pub promoted_measures :
      let es' = promote (record e { pin_count = n }) (set_pin_count e.addr n es) in
      (resident es' ≡ resident es)
      × (length es' ≡ length es)
      × ((k : Key) → copies es' k ≡ copies es k)
      × ((p : ℕ) → held es' p ≡ held es p)
  promoted_measures =
      let e' : Entry = record e { pin_count = n } in
      let pre = s.pre in
      let post = s.post in
      rw (promoted s n apart, s.split)
        (
          omega (
            arith,
            resident-append pre (e ∷ post),
            resident-append pre (post ++ (e' ∷ [])),
            resident-append post (e' ∷ []),
          ),
          omega (
            arith,
            length-append pre (e ∷ post),
            length-append pre (post ++ (e' ∷ [])),
            length-append post (e' ∷ []),
          ),
          (λ k. omega (
            arith,
            copies-append pre (e ∷ post) k,
            copies-append pre (post ++ (e' ∷ [])) k,
            copies-append post (e' ∷ []) k,
          )),
          λ p. omega (
            arith,
            held-append pre (e ∷ post) p,
            held-append pre (post ++ (e' ∷ [])) p,
            held-append post (e' ∷ []) p,
          ),
        )

pub checked_add-IsU64 :
    (a b : ℕ) {n : ℕ} → IsU64 b → checked_add a b ≡ some n → IsU64 n × (n ≡ a + b)
unfolding checked_add
checked_add-IsU64 a b w h = ground arith

module _ {C : Type 0} (ops : Ops C) (mem : Allocator ops) (base : ℕ → ℕ) where
  hit-IsValid :
      (w : World C) (key : Key) (e : Entry)
      → Split w.cache.entries e
      → IsU64 key.slice_bytes
      → Holds ops mem base w
      → IsValid (hit w.cache key e).0
  unfolding hit
  hit-IsValid w key e s sized h =
      let c = w.cache in
      let (bytes, count, keys, _) =
        promoted_measures s (add64 e.pin_count 1) (Owns-apart ops mem h.owns) in
      let v = h.valid in
      record {
        ready = ground (arith, v.ready);
        budget_pos = ground (arith, v.budget_pos);
        budget_word = ground (arith, v.budget_word);
        total = ground (arith, v.total, bytes);
        within = ground (arith, v.within);
        peak_ge = ground (arith, v.peak_ge);
        peak_le = ground (arith, v.peak_le);
        requests_split = ground (arith, v.requests_split);
        loads_split = ground (arith, v.loads_split, count);
        loads_le = ground (arith, v.loads_le);
        requests_word = ground (arith, v.requests_word);
        read_word = ground (arith, v.read_word);
        avoided_word = ground (arith, v.avoided_word);
        unique = λ k. ground (arith, keys k, v.unique k);
      }

  pub hit-Holds :
      (w : World C) (key : Key) (e : Entry)
      → Split w.cache.entries e
      → IsU64 key.slice_bytes
      → Holds ops mem base w
      → Holds ops mem base (record w { cache = (hit w.cache key e).0 })
  unfolding hit
  hit-Holds w key e s sized h = record {
    valid = hit-IsValid w key e s sized h;
    owns =
        let (_, _, _, blocks) =
          promoted_measures s (add64 e.pin_count 1) (Owns-apart ops mem h.owns) in
        record { owned = λ q. ground (arith, blocks q, h.owns.owned q) };
  }
