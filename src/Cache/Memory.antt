-- ===== src/Cache/Memory.antt =====
-- src/qx_expert_cache.c: what the cache relies on of the caller's `alloc`, `free` and
-- `read_exact` (`qx_expert_cache_ops`), and the memory that it owns.
use qx_mini_c.Prelude.{ℕ, ◌+◌, ◌≤◌, ◌≡◌, ◌≢◌, List, [], ◌∷◌, ◌++◌, ◌==◌, bit, arith}
use qx_mini_c.Cache.{Entry, Ops}
use qx_mini_c.Cache.Operations.{free_entry, free_entries}
use qx_mini_c.Cache.Entries.{held_by, held, held-append, Split}

-- The contract of malloc and free, over a count of the live blocks at each address: an address is
-- live once at most, `alloc` returns one that was not live or NULL, `free` may be given a live
-- address only, and a read leaves the blocks alone.
pub record Allocator {C : Type 0} (ops : Ops C) : Type 0 where
  pub live : C → ℕ → ℕ
  pub live_le_one : (ctx : C) (q : ℕ) → live ctx q ≤ 1
  pub live-alloc :
      (ctx : C) (n q : ℕ)
      → (ops.alloc ctx n).0 ≢ 0
      → live (ops.alloc ctx n).1 q ≡ live ctx q + bit ((ops.alloc ctx n).0 == q)
  pub live-alloc_null :
      (ctx : C) (n q : ℕ) → (ops.alloc ctx n).0 ≡ 0 → live (ops.alloc ctx n).1 q ≡ live ctx q
  pub live-free :
      (ctx : C) (p q : ℕ) → 1 ≤ live ctx p → live (ops.free ctx p) q + bit (p == q) ≡ live ctx q
  pub live-read :
      (ctx : C) (offset dst size q : ℕ) → live (ops.read_exact ctx offset dst size).1 q ≡ live ctx q

module _ {C : Type 0} (ops : Ops C) (mem : Allocator ops) where
  open mem use {live, live_le_one, live-free}

  -- The live blocks are those that the caller had, and two for each entry.
  pub record Owns (base : ℕ → ℕ) (ctx : C) (es : List Entry) : Type 0 where
    pub owned : (q : ℕ) → live ctx q ≡ base q + held es q

  pub Owns-apart :
      {base : ℕ → ℕ} {ctx : C} {es : List Entry} → Owns base ctx es → (q : ℕ) → held es q ≤ 1
  Owns-apart {ctx} o q = omega (arith, o.owned q, live_le_one ctx q)

  pub Owns-Split :
      {base : ℕ → ℕ} {ctx : C} {es : List Entry} {e : Entry} (s : Split es e)
      → Owns base ctx es
      → Owns base ctx (s.pre ++ (e ∷ s.post))
  Owns-Split s o = record { owned = λ q. rw s.split at (o.owned q) }

  -- To free an entry whose two blocks are live takes those two from the live blocks.
  pub live-free_entry :
      (ctx : C) (e : Entry)
      → ((q : ℕ) → held_by e q ≤ live ctx q)
      → (q : ℕ) → live (free_entry ops ctx e) q + held_by e q ≡ live ctx q
  unfolding free_entry
  live-free_entry ctx e h q = ground (
    arith,
    h e.buf,
    h e.addr,
    live_le_one ctx e.buf,
    live_le_one ctx e.addr,
    live-free ctx e.buf q,
    live-free ctx e.buf e.addr,
    live-free (ops.free ctx e.buf) e.addr q,
  )

  pub Owns-free_entry :
      {base : ℕ → ℕ} (ctx : C) (pre post : List Entry) (e : Entry)
      → Owns base ctx (pre ++ (e ∷ post))
      → Owns base (free_entry ops ctx e) (pre ++ post)
  Owns-free_entry ctx pre post e o = record {
    owned = λ q. omega (
      arith,
      live-free_entry ctx e (λ q. omega (arith, o.owned q, held-append pre (e ∷ post) q)) q,
      o.owned q,
      held-append pre (e ∷ post) q,
      held-append pre post q,
    );
  }

  -- `qx_expert_cache_destroy` gives back every block.
  pub Owns-free_entries :
      {base : ℕ → ℕ} (ctx : C) (es : List Entry)
      → Owns base ctx es
      → Owns base (free_entries ops ctx es) []
  unfolding free_entries
  Owns-free_entries ctx [] o = o
  Owns-free_entries ctx (e ∷ es) o =
      Owns-free_entries (free_entry ops ctx e) es (Owns-free_entry ctx [] es e o)
