-- ===== src/Cache/Lending.antt =====
-- src/qx_expert_cache.c: what the runtime is lent in the course of a run.
use qx_mini_c.Prelude.{
  ℕ, ◌-◌, ◌≡◌, Bool, List, [], ◌∷◌, true, none, ◌==◌, IsU64, All, Bool-cases, inl, inr, arith,
}
use qx_mini_c.Cache.{Key, Entry, Cache, Ops, World, Borrow, ok, unpin}
use qx_mini_c.Cache.Operations.{init, acquire, release}
use qx_mini_c.Cache.Memory.{Allocator}
use qx_mini_c.Cache.Invariant.{Holds}
use qx_mini_c.Cache.Acquire.{init-IsValid}
use qx_mini_c.Cache.History.{
  Call, acquire_call, release_call, IsCall, step, run, started, step-Holds, run-Holds, init-Holds,
}
use qx_mini_c.Cache.Contents.{Reader, IsSound, Granted}
use qx_mini_c.Cache.Grants.{acquire-Served}

module _ {C : Type 0} (ops : Ops C) (reader : Reader ops) where
  unpin-IsSound :
      (a : ℕ) (es : List Entry)
      → All (IsSound ops reader) es
      → All (IsSound ops reader) (unpin a es)
  unfolding unpin
  unpin-IsSound a [] h = tt
  unpin-IsSound a (e ∷ es) h =
      let lower : IsSound ops reader (record e { pin_count = e.pin_count - 1 }) = record {
        pins = omega (arith, h.0.pins);
        bytes = h.0.bytes;
      } in
      elim (Bool-cases (e.addr == a)) [
        | inr other ↦ rw (other, unpin) (h.0, unpin-IsSound a es h.1)
        | inl same ↦
            rw (same, unpin)
              (elim (Bool-cases (e.pin_count == 0)) [
                | inl z ↦ rw (z, unpin) h
                | inr nz ↦ rw (nz, unpin) (lower, h.1)
              ])
      ]

  release-IsSound :
      (c : Cache) (b : Borrow)
      → All (IsSound ops reader) c.entries
      → All (IsSound ops reader) (release c b).0.entries
  unfolding release
  release-IsSound c b h = let less = unpin-IsSound b.entry c.entries h in ground (arith, h, less)

  module _ (mem : Allocator ops) (base : ℕ → ℕ) where
    run-IsSound :
        (calls : List Call) (w : World C)
        → All IsCall calls
        → Holds ops mem base w
        → All (IsSound ops reader) w.cache.entries
        → All (IsSound ops reader) (run ops w calls).cache.entries
    unfolding run
    run-IsSound [] w _ hold h = h
    run-IsSound (acquire_call key given ∷ calls) w (c, cs) hold h =
        run-IsSound calls (step ops w (acquire_call key given)) cs
          (step-Holds ops mem base w (acquire_call key given) c hold)
          (unfold step in (acquire-Served ops reader mem base w key given hold h).sound)
    run-IsSound (release_call b ∷ calls) w (c, cs) hold h =
        run-IsSound calls (step ops w (release_call b)) cs
          (step-Holds ops mem base w (release_call b) c hold)
          (unfold step in release-IsSound w.cache b h)

  -- For an allocator and a reader that keep their contracts: in every run that `init` starts without
  -- an error, after any sequence of acquires and releases, an acquire that succeeds lends the last
  -- entry of the list, which is pinned, stands for the key that was asked for, and whose buffer
  -- holds the bytes that the reader has for this key, whether it was read now or was resident.
  pub run-acquire_grants :
      (mem : Allocator ops) (ctx : C) (self budget : ℕ) (given : Bool) (calls : List Call)
      (key : Key) (b : Borrow)
      → IsU64 budget
      → (init self budget given).1 ≡ none
      → All IsCall calls
      → (acquire ops (run ops (started ctx self budget given) calls) key true).1 ≡ ok b
      → Granted ops reader key
          (acquire ops (run ops (started ctx self budget given) calls) key true).0.cache
          b
  run-acquire_grants mem ctx self budget given calls key b sized made ok_calls out =
      let w = started ctx self budget given in
      let (_, empty, _) = init-IsValid self budget given sized made in
      let hold = init-Holds ops mem ctx self budget given sized made in
      let sound = run-IsSound mem (mem.live ctx) calls w ok_calls hold (rw empty tt) in
      let hold' = run-Holds ops mem (mem.live ctx) calls w ok_calls hold in
      (acquire-Served ops reader mem (mem.live ctx) (run ops w calls) key true hold' sound).granted
        b out
