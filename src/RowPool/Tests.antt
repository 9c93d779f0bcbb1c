-- ===== src/RowPool/Tests.antt =====
-- src/qx_row_pool.h: jobs of a few rows for two and three workers.
use qx_mini_c.Prelude.{ℕ, ◌≡◌, refl, arith, Bool, true, false, [], ◌∷◌, All}
use qx_mini_c.RowPool.{row_begin, row_end}
use qx_mini_c.RowPool.Jobs.{
  Worker, State, created, start_job, count_job, Step, start, enter, leave, Reach, fresh, move,
}
use qx_mini_c.RowPool.Jobs.Barrier.{IsDone, barrier, wait_moves}
use qx_mini_c.RowPool.Partition.{IsRun, row-IsRun_once}

second_begin : row_begin 7 3 1 ≡ 2
unfolding row_begin
second_begin = refl

second_end : row_end 7 3 1 ≡ 4
unfolding row_end
second_end = refl

row-IsRun_once_example :
    (worker : ℕ) × IsRun 7 3 5 worker × ((other : ℕ) → IsRun 7 3 5 other → other ≡ worker)
row-IsRun_once_example =
    row-IsRun_once 7 3 5 (omega arith) (omega arith) (omega arith) (omega arith)

-- Two workers: a job of five rows is given, and both take it and leave it.
abbrev worker : ℕ → Bool → Worker
worker seen busy = record { seen = seen; busy = busy }

abbrev begun : State
begun = record {
  pool = start_job 5 (created 2).pool;
  threads = worker 0 false ∷ worker 0 false ∷ [];
  awaiting = true;
}

begun-Reach : Reach 2 begun
begun-Reach = move (created 2) begun fresh (start (created 2) 5 refl refl (λ e. ground (arith, e)))

wait_moves_example : (s' : State) × Step begun s'
wait_moves_example = wait_moves 2 begun (omega arith) begun-Reach refl (λ e. ground (arith, e))

abbrev one_in : State
one_in = record begun { threads = worker 1 true ∷ worker 0 false ∷ [] }

abbrev both_in : State
both_in = record begun { threads = worker 1 true ∷ worker 1 true ∷ [] }

abbrev one_out : State
one_out = record both_in {
  pool = count_job 0 begun.pool;
  threads = worker 1 true ∷ worker 1 false ∷ [];
}

abbrev both_out : State
both_out = record one_out {
  pool = count_job 1 one_out.pool;
  threads = worker 1 false ∷ worker 1 false ∷ [];
}

both_out-Reach : Reach 2 both_out
both_out-Reach =
    let first =
      move begun one_in begun-Reach
        (enter begun 0 (worker 0 false) refl refl refl (λ e. ground (arith, e))) in
    let second =
      move one_in both_in first
        (enter one_in 1 (worker 0 false) refl refl refl (λ e. ground (arith, e))) in
    let third = move both_in one_out second (leave both_in 1 0 (worker 1 true) refl refl) in
    move one_out both_out third (leave one_out 0 1 (worker 1 true) refl refl)

barrier_example : All (IsDone 1) (worker 1 false ∷ worker 1 false ∷ [])
barrier_example = barrier 2 both_out (omega arith) both_out-Reach refl
