-- ===== src/Cache/History.antt =====
-- src/qx_expert_cache.c: a run's calls, from `qx_expert_cache_init` to `qx_expert_cache_destroy`.
use qx_mini_c.Prelude.{ℕ, ◌≡◌, Bool, List, [], ◌∷◌, none, IsU64, All, arith}
use qx_mini_c.Cache.{Key, Ops, World, Borrow}
use qx_mini_c.Cache.Operations.{init, acquire, release, destroy}
use qx_mini_c.Cache.Memory.{Allocator}
use qx_mini_c.Cache.Invariant.{IsValid, Holds}
use qx_mini_c.Cache.Acquire.{init-IsValid, acquire-Holds, release-Holds, destroy-live}

-- What the runtime may do between the two; a release may be of any borrow.
pub data Call : Type 0 where
  acquire_call : Key → Bool → Call
  release_call : Borrow → Call

-- A slice size is a `uint64_t`.
abbrev pub IsCall : Call → Type 0
IsCall (acquire_call key given) = IsU64 key.slice_bytes
IsCall (release_call b) = Unit

-- The cache that `init` makes, beside the caller's context.
abbrev pub started : {C : Type 0} → C → ℕ → ℕ → Bool → World C
started ctx self budget given = record { cache = (init self budget given).0; ctx = ctx }

module _ {C : Type 0} (ops : Ops C) where
  unfoldable pub step : World C → Call → World C
  step w (acquire_call key given) = (acquire ops w key given).0
  step w (release_call b) = record w { cache = (release w.cache b).0 }

  unfoldable pub run : World C → List Call → World C
  unfolding step
  run w [] = w
  run w (call ∷ calls) = run (step w call) calls

  module _ (mem : Allocator ops) (base : ℕ → ℕ) where
    pub step-Holds :
        (w : World C) (call : Call)
        → IsCall call
        → Holds ops mem base w
        → Holds ops mem base (step w call)
    unfolding step
    step-Holds w (acquire_call key given) sized h = acquire-Holds ops mem base w key given sized h
    step-Holds w (release_call b) sized h = release-Holds ops mem base w b h

    pub run-Holds :
        (calls : List Call) (w : World C)
        → All IsCall calls
        → Holds ops mem base w
        → Holds ops mem base (run w calls)
    unfolding run
    run-Holds [] w _ h = h
    run-Holds (call ∷ calls) w (c, cs) h = run-Holds calls (step w call) cs (step-Holds w call c h)

  -- What `init` starts without an error.
  pub init-Holds :
      (mem : Allocator ops) (ctx : C) (self budget : ℕ) (given : Bool)
      → IsU64 budget
      → (init self budget given).1 ≡ none
      → Holds ops mem (mem.live ctx) (started ctx self budget given)
  init-Holds mem ctx self budget given sized made =
      let (v, empty, _) = init-IsValid self budget given sized made in
      record { valid = v; owns = record { owned = λ q. rw empty (omega arith) } }

  -- For an allocator that keeps its contract: in every run that `init` starts without an error, the
  -- cache is valid after any sequence of acquires (of slice sizes below 2 ^ 64) and releases, and
  -- `destroy` then leaves exactly the blocks live that were live before `init`.
  pub run_bounded_destroy_live :
      (mem : Allocator ops) (ctx : C) (self budget : ℕ) (given : Bool) (calls : List Call)
      → IsU64 budget
      → (init self budget given).1 ≡ none
      → All IsCall calls
      → let w = run (started ctx self budget given) calls in
        IsValid w.cache × ((q : ℕ) → mem.live (destroy ops w).ctx q ≡ mem.live ctx q)
  run_bounded_destroy_live mem ctx self budget given calls sized made ok_calls =
      let w = started ctx self budget given in
      let h = init-Holds mem ctx self budget given sized made in
      let h' = run-Holds mem (mem.live ctx) calls w ok_calls h in
      (h'.valid, destroy-live ops mem (mem.live ctx) (run w calls) h')
