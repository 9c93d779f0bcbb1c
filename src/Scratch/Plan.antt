-- ===== src/Scratch/Plan.antt =====
-- src/qx_format.c: how the callers use the scratch workspace. qx_scratch_plan_add adds up the
-- requests, qx_scratch_reserve_capacity grows the workspace once, and qx_scratch_alloc serves them.
use native.Mathlib.Decide.{ℕ_discrete}
use mathlib.Core.Path.{subst}
use qx_mini_c.Prelude.{
  false, if◌then◌else◌, ◌==◌, ◌&&◌, not, no_overflow, mul64-fits, ◌⊎◌, ℕ, ◌+◌, ◌-◌, ◌*◌, ◌/◌, ◌%◌,
  ◌≤◌, ◌≡◌, refl, ap, Bool, List, [], ◌∷◌, Option, none, some, Option-cases, inl, inr, arith, mul64,
  add64, u64_max, IsU64, ltb,
}
use qx_mini_c.Scratch.{
  Workspace, Ops, Outcome, done, failed, out_of_memory, align_16, plan_add, reserve_capacity,
  alloc_in, alloc,
}

pub record Request : Type 0 where
  pub count : ℕ
  pub size : ℕ
  pub zeroed : Bool

-- The calls of qx_scratch_plan_add for a list of requests.
unfoldable pub plan : ℕ → List Request → Option ℕ
plan cursor [] = some cursor
plan cursor (q ∷ qs) = elim (plan_add cursor q.count q.size) [
  | none ↦ none
  | some next ↦ plan next qs
]

-- What a step of a plan does: the request takes its bytes from the next multiple of 16.
record IsStep (cursor count size next : ℕ) : Type 0 where
  fits : mul64 count size ≡ count * size
  end : next ≡ align_16 cursor + count * size
  word : IsU64 next

product_fits : (count size : ℕ) → (size ≡ 0) ⊎ (count ≤ u64_max / size) → count * size ≤ u64_max
product_fits count size (inl zero_size) = rw zero_size (omega arith)
product_fits count size (inr le) = elim (ℕ_discrete size 0) [
  | yes zero_size ↦ rw zero_size (omega arith)
  | no h ↦ no_overflow count size h le
]

plan_add-IsStep :
    (cursor count size next : ℕ)
    → plan_add cursor count size ≡ some next
    → IsStep cursor count size next
unfolding plan_add
plan_add-IsStep cursor count size next h =
    let fits = mul64-fits count size (product_fits count size (ground (arith, h))) in
    record { fits = fits; end = ground (arith, h, fits); word = ground (arith, h) }

plan_le :
    (cursor : ℕ) (qs : List Request) (total : ℕ) → plan cursor qs ≡ some total → cursor ≤ total
unfolding plan
plan_le cursor [] total h = ground (arith, h)
plan_le cursor (q ∷ qs) total h = elim (Option-cases (plan_add cursor q.count q.size)) [
  | inl bad ↦ ground (arith, h, bad)
  | inr (next, good) ↦
      let s = plan_add-IsStep cursor q.count q.size next good in
      let rest = plan_le next qs total (ground (arith, h, good)) in omega (arith, rest, s.end)
]

module _ {C : Type 0} (ops : Ops C) where
  unfoldable pub alloc_all : Workspace → List Request → C → Outcome C (List ℕ × Workspace)
  alloc_all w [] c = done ([], w) c
  alloc_all w (q ∷ qs) c = elim (alloc ops w q.count q.size q.zeroed c) [
    | failed e c' ↦ elim (alloc_all w qs c') [
      | failed e' c'' ↦ failed out_of_memory c''
      | done more c'' ↦ failed out_of_memory c''
    ]
    | done (p, w') c' ↦ elim (alloc_all w' qs c') [
      | failed e c'' ↦ failed e c''
      | done (ps, w'') c'' ↦ done (p ∷ ps, w'') c''
    ]
  ]

-- The blocks lie in the order of their requests, each with its bytes, none over another, from `low`
-- to `limit`, and start at multiples of 16 from `base`.
abbrev pub IsStacked : ℕ → ℕ → ℕ → List Request → List ℕ → Type 0
IsStacked base limit low [] [] = low ≤ limit
IsStacked base limit low [] (p ∷ ps) = ⊥
IsStacked base limit low (q ∷ qs) [] = ⊥
IsStacked base limit low (q ∷ qs) (p ∷ ps) =
    (low ≤ p) × ((p - base) % 16 ≡ 0) × IsStacked base limit (p + q.count * q.size) qs ps

align_16-multiple : (n : ℕ) → align_16 n % 16 ≡ 0
align_16-multiple n = omega arith

module _ {C : Type 0} (ops : Ops C) where
  abbrev after_fill : Workspace → Request → C → C
  after_fill w q c =
      if q.zeroed && not (mul64 q.count q.size == 0)
      then ops.memset c (w.base + align_16 w.used) 0 (mul64 q.count q.size)
      else c

  reserve_capacity-kept :
      (w : Workspace) (required : ℕ) (c : C)
      → required ≤ w.capacity
      → reserve_capacity ops w required c ≡ done w c
  unfolding reserve_capacity
  reserve_capacity-kept w required c le = ground (arith, le)

  alloc_in-kept :
      (w : Workspace) (bytes next : ℕ) (zeroed : Bool) (c : C)
      → w.used ≤ u64_max - 15
      → align_16 w.used ≤ u64_max - bytes
      → add64 (align_16 w.used) bytes ≡ next
      → next ≤ w.capacity
      → alloc_in ops w bytes zeroed c
        ≡ done
            (w.base + align_16 w.used, record w { used = next })
            (if zeroed && not (bytes == 0)
              then ops.memset c (w.base + align_16 w.used) 0 bytes
              else c)
  unfolding alloc_in
  alloc_in-kept w bytes next zeroed c low fits sum room =
      let kept =
        reserve_capacity-kept w (add64 (align_16 w.used) bytes) c (omega (arith, sum, room)) in
      let early : ltb (u64_max - 15) w.used ≡ false = ground (arith, low) in
      let late : ltb (u64_max - bytes) (align_16 w.used) ≡ false = ground (arith, fits) in
      rw (early, late, kept, sum) refl

  alloc-planned :
      (w : Workspace) (q : Request) (next : ℕ) (c : C)
      → plan_add w.used q.count q.size ≡ some next
      → next ≤ w.capacity
      → alloc ops w q.count q.size q.zeroed c
        ≡ done (w.base + align_16 w.used, record w { used = next }) (after_fill w q c)
  unfolding plan_add alloc
  alloc-planned w q next c h room =
      let small : (not (q.size == 0) && ltb (u64_max / q.size) q.count) ≡ false =
        ground (arith, h) in
      rw small (
        alloc_in-kept w (mul64 q.count q.size) next q.zeroed c (ground (arith, h))
          (ground (arith, h)) (ground (arith, h)) room)

  -- A workspace with at least the bytes that qx_scratch_plan_add adds up for a list of requests,
  -- starting at the bytes in use: qx_scratch_alloc serves all of them, with aligned blocks that do
  -- not overlap and stay inside the block, which neither moves nor grows.
  pub alloc_all-served :
      (w : Workspace) (qs : List Request) (total : ℕ) (c : C)
      → plan w.used qs ≡ some total
      → total ≤ w.capacity
      → (ps : List ℕ) × (c' : C) × (alloc_all ops w qs c ≡ done (ps, record w { used = total }) c')
        × IsStacked w.base (w.base + total) (w.base + w.used) qs ps
  unfolding plan alloc_all
  alloc_all-served w [] total c h room =
      let same : w.used ≡ total = ground (arith, h) in
      ([], c, ap (λ (u : ℕ). done ([], record w { used = u }) c) same, omega (arith, same))
  alloc_all-served w (q ∷ qs) total c h room =
      elim (Option-cases (plan_add w.used q.count q.size)) [
        | inl bad ↦ ground (arith, h, bad)
        | inr (next, good) ↦
            let rest : plan next qs ≡ some total = ground (arith, h, good) in
            let s = plan_add-IsStep w.used q.count q.size next good in
            let le = plan_le next qs total rest in
            let first = alloc-planned w q next c good (omega (arith, le, room)) in
            let (ps, c', served, stacked) =
              alloc_all-served (record w { used = next }) qs total (after_fill w q c) rest room in
            let place : w.base + next ≡ w.base + align_16 w.used + q.count * q.size =
              omega (arith, s.end) in
            (
              (w.base + align_16 w.used) ∷ ps,
              c',
              rw (first, served, alloc_all) refl,
              (
                omega arith,
                omega (arith, align_16-multiple w.used),
                subst (λ low. IsStacked w.base (w.base + total) low qs ps) place stacked,
              ),
            )
      ]
