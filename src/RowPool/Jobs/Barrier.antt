-- ===== src/RowPool/Jobs/Barrier.antt =====
-- src/qx_row_pool.h: the count of the workers that still have their part of a job to run.
use mathlib.Core.Option.{some-injective}
use qx_mini_c.Prelude.{
  length-set, ℕ, zero, suc, ◌+◌, ◌%◌, ◌≤◌, ◌≡◌, ◌≢◌, refl, sym, ap, ◌∙◌, Bool, true, false, not,
  ◌||◌, List, [], ◌∷◌, ◌==◌, some, if◌then◌else◌, arith, length, get_elem?, set, replicate, add64,
  All, All-get_elem?, IsU64, Bool-cases, inl, inr,
}
use qx_mini_c.RowPool.Jobs.{
  Worker, State, take_job, leave_job, count_job, Step, start, enter, leave, collect, stop, Reach,
  fresh, move,
}

-- A worker that has the job of this generation before it or under way.
abbrev pub is_pending : ℕ → Worker → Bool
is_pending generation w = w.busy || not (w.seen == generation)

abbrev pub pending : ℕ → List Worker → ℕ
pending generation [] = 0
pending generation (w ∷ ws) =
    if is_pending generation w then suc (pending generation ws) else pending generation ws

pub record IsCounted (workers : ℕ) (s : State) : Type 0 where
  pub size : length s.threads ≡ workers
  pub whole : s.pool.workers ≡ workers
  pub counted : s.pool.remaining ≡ pending s.pool.generation s.threads
  pub current : All (λ (w : Worker). w.busy ≡ true → w.seen ≡ s.pool.generation) s.threads
  pub wide : IsU64 s.pool.generation
  pub quiet : s.awaiting ≡ false → s.pool.remaining ≡ 0
  pub running : s.awaiting ≡ true → s.pool.stopping ≡ false

pending-replicate : (n : ℕ) → pending 0 (replicate n (record { seen = 0; busy = false })) ≡ 0
pending-replicate zero = refl
pending-replicate (suc n) = pending-replicate n

pending-set_same :
    (g : ℕ) (ws : List Worker) (i : ℕ) (w w' : Worker)
    → get_elem? ws i ≡ some w
    → is_pending g w ≡ is_pending g w'
    → pending g (set ws i w') ≡ pending g ws
pending-set_same g [] i w w' at same = refl
pending-set_same g (x ∷ ws) zero w w' at same =
    let entry : x ≡ w = some-injective x w at in
    let alike : is_pending g w' ≡ is_pending g x = sym same ∙ ap (is_pending g) (sym entry) in
    rw alike refl
pending-set_same g (x ∷ ws) (suc i) w w' at same =
    ground (arith, pending-set_same g ws i w w' at same)

pending-set_done :
    (g : ℕ) (ws : List Worker) (i : ℕ) (w w' : Worker)
    → get_elem? ws i ≡ some w
    → is_pending g w ≡ true
    → is_pending g w' ≡ false
    → suc (pending g (set ws i w')) ≡ pending g ws
pending-set_done g [] i w w' at before after = ground (arith, at)
pending-set_done g (x ∷ ws) zero w w' at before after =
    let entry : x ≡ w = some-injective x w at in
    let counted : is_pending g x ≡ true = ap (is_pending g) entry ∙ before in
    rw (after, counted) refl
pending-set_done g (x ∷ ws) (suc i) w w' at before after =
    ground (arith, pending-set_done g ws i w w' at before after)

All-set :
    (P : Worker → Type 0) (ws : List Worker) (i : ℕ) (w : Worker)
    → All P ws
    → P w
    → All P (set ws i w)
All-set P [] i w all h = tt
All-set P (x ∷ ws) zero w all h = (h, all.1)
All-set P (x ∷ ws) (suc i) w all h = (all.0, All-set P ws i w all.1 h)

-- With no worker pending, all of them are when the generation changes.
pending_all : (g g' : ℕ) (ws : List Worker) → g ≢ g' → pending g ws ≡ 0 → pending g' ws ≡ length ws
pending_all g g' [] ne h = refl
pending_all g g' (w ∷ ws) ne h = elim (Bool-cases (is_pending g w)) [
  | inl yes' ↦ ground (arith, h, yes')
  | inr no' ↦
      let rest : pending g ws ≡ 0 = ground (arith, h, no') in
      let old : w.seen ≡ g = ground (arith, no') in
      let now : is_pending g' w ≡ true = ground (arith, old, ne) in
      rw now (ap suc (pending_all g g' ws ne rest))
]

idle_current :
    (g g' : ℕ) (ws : List Worker)
    → pending g ws ≡ 0
    → All (λ (w : Worker). w.busy ≡ true → w.seen ≡ g') ws
idle_current g g' [] h = tt
idle_current g g' (w ∷ ws) h = elim (Bool-cases (is_pending g w)) [
  | inl yes' ↦ ground (arith, h, yes')
  | inr no' ↦ ((λ busy. ground (arith, no', busy)), idle_current g g' ws (ground (arith, h, no')))
]

replicate_current :
    (n : ℕ)
    → All
        (λ (w : Worker). w.busy ≡ true → w.seen ≡ 0)
        (replicate n (record { seen = 0; busy = false }))
replicate_current zero = tt
replicate_current (suc n) = ((λ busy. refl), replicate_current n)

length-replicate : (n : ℕ) (w : Worker) → length (replicate n w) ≡ n
length-replicate zero w = refl
length-replicate (suc n) w = ap suc (length-replicate n w)

next_differs : (g : ℕ) → IsU64 g → g ≢ add64 g 1
next_differs g h = grind (arith, h)

pending-le : (g : ℕ) (ws : List Worker) → pending g ws ≤ length ws
pending-le g [] = omega arith
pending-le g (w ∷ ws) = ground (arith, pending-le g ws)

one_less : (n m : ℕ) → suc m ≡ n → n ≤ 64 → (n + 4294967295) % 4294967296 ≡ m
one_less n m e h = omega (arith, e, h)

Step-IsCounted :
    (workers : ℕ) (s s' : State)
    → workers ≤ 64
    → IsCounted workers s
    → Step s s'
    → IsCounted workers s'
Step-IsCounted workers _ _ few inv (start s rows idle go some_rows) =
    let none_left = inv.quiet idle in
    let none_pending : pending s.pool.generation s.threads ≡ 0 = sym inv.counted ∙ none_left in
    record {
      size = inv.size;
      whole = inv.whole;
      counted =
          inv.whole
          ∙ sym inv.size
          ∙ sym (
              pending_all s.pool.generation (add64 s.pool.generation 1) s.threads
                (next_differs s.pool.generation inv.wide) none_pending);
      current = idle_current s.pool.generation (add64 s.pool.generation 1) s.threads none_pending;
      wide = omega arith;
      quiet = λ h. ground (arith, h);
      running = λ h. go;
    }
Step-IsCounted workers _ _ few inv (enter s i w at idle go new) = record {
  size = length-set s.threads i (take_job s.pool w) ∙ inv.size;
  whole = inv.whole;
  counted =
      inv.counted
      ∙ sym (
          pending-set_same s.pool.generation s.threads i w (take_job s.pool w) at
            (ground (arith, new)));
  current =
      All-set (λ (w : Worker). w.busy ≡ true → w.seen ≡ s.pool.generation) s.threads i
        (take_job s.pool w) inv.current (λ h. refl);
  wide = inv.wide;
  quiet = inv.quiet;
  running = inv.running;
}
Step-IsCounted workers _ _ few inv (leave s i result w at busy) =
    let g = s.pool.generation in
    let seen : w.seen ≡ g =
      All-get_elem? (λ (w : Worker). w.busy ≡ true → w.seen ≡ g) s.threads i w inv.current at
        busy in
    let before : is_pending g w ≡ true = ground (arith, busy) in
    let after : is_pending g (leave_job w) ≡ false = ground (arith, seen) in
    let less = pending-set_done g s.threads i w (leave_job w) at before after in
    let few_left = pending-le g s.threads in
    let counted =
      one_less s.pool.remaining (pending g (set s.threads i (leave_job w))) (less ∙ sym inv.counted)
        (omega (arith, few_left, few, inv.counted, inv.size)) in
    record {
      size = length-set s.threads i (leave_job w) ∙ inv.size;
      whole = inv.whole;
      counted = counted;
      current =
          All-set (λ (w : Worker). w.busy ≡ true → w.seen ≡ g) s.threads i (leave_job w) inv.current
            (λ h. seen);
      wide = inv.wide;
      quiet = λ idle. absurd (omega (arith, less, inv.counted, inv.quiet idle));
      running = inv.running;
    }
Step-IsCounted workers _ _ few inv (collect s waiting none_left) = record {
  size = inv.size;
  whole = inv.whole;
  counted = inv.counted;
  current = inv.current;
  wide = inv.wide;
  quiet = λ h. none_left;
  running = λ h. ground (arith, h);
}
Step-IsCounted workers _ _ few inv (stop s idle) = record {
  size = inv.size;
  whole = inv.whole;
  counted = inv.counted;
  current = inv.current;
  wide = inv.wide;
  quiet = inv.quiet;
  running = λ h. ground (arith, h, idle);
}

Reach-IsCounted : (workers : ℕ) (s : State) → workers ≤ 64 → Reach workers s → IsCounted workers s
Reach-IsCounted workers _ few fresh = record {
  size = length-replicate workers (record { seen = 0; busy = false });
  whole = refl;
  counted = sym (pending-replicate workers);
  current = replicate_current workers;
  wide = omega arith;
  quiet = λ idle. refl;
  running = λ h. refl;
}
Reach-IsCounted workers _ few (move s s' r step) =
    Step-IsCounted workers s s' few (Reach-IsCounted workers s few r) step

-- The worker is out of its callback and has had the job of this generation.
abbrev pub IsDone : ℕ → Worker → Type 0
IsDone generation w = (w.busy ≡ false) × (w.seen ≡ generation)

pending_none : (g : ℕ) (ws : List Worker) → pending g ws ≡ 0 → All (IsDone g) ws
pending_none g [] h = tt
pending_none g (w ∷ ws) h = elim (Bool-cases (is_pending g w)) [
  | inl yes' ↦ ground (arith, h, yes')
  | inr no' ↦
      ((ground (arith, no'), ground (arith, no')), pending_none g ws (ground (arith, h, no')))
]

-- In every state that a pool of at most 64 workers gets to where the coordinator can leave the wait of
-- qx_row_pool_run, as the count of workers is 0, every worker has taken the job of this generation and
-- is out of its callback.
pub barrier :
    (workers : ℕ) (s : State)
    → workers ≤ 64
    → Reach workers s
    → s.pool.remaining ≡ 0
    → All (IsDone s.pool.generation) s.threads
barrier workers s few r none_left =
    let inv = Reach-IsCounted workers s few r in
    pending_none s.pool.generation s.threads (sym inv.counted ∙ none_left)

pending_found :
    (g : ℕ) (ws : List Worker)
    → pending g ws ≢ 0
    → (i : ℕ) × (w : Worker) × (get_elem? ws i ≡ some w) × (is_pending g w ≡ true)
pending_found g [] h = absurd (h refl)
pending_found g (w ∷ ws) h = elim (Bool-cases (is_pending g w)) [
  | inl yes' ↦ (0, w, refl, yes')
  | inr no' ↦
      let (i, w', at, there) = pending_found g ws (λ none_left. h (rw no' none_left)) in
      (suc i, w', at, there)
]

-- In every state that a pool of at most 64 workers gets to where the coordinator waits for some of
-- them, a step is possible: the wait never stands still.
pub wait_moves :
    (workers : ℕ) (s : State)
    → workers ≤ 64
    → Reach workers s
    → s.awaiting ≡ true
    → s.pool.remaining ≢ 0
    → (s' : State) × Step s s'
wait_moves workers s few r waiting left =
    let inv = Reach-IsCounted workers s few r in
    let (i, w, at, there) =
      pending_found s.pool.generation s.threads (λ e. left (inv.counted ∙ e)) in
    elim (Bool-cases w.busy) [
      | inl busy ↦ (
        record s { pool = count_job 0 s.pool; threads = set s.threads i (leave_job w) },
        leave s i 0 w at busy,
      )
      | inr waits ↦ (
        record s { threads = set s.threads i (take_job s.pool w) },
        enter s i w at waits (inv.running waiting) (λ e. ground (arith, there, waits, e)),
      )
    ]
