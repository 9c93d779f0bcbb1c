-- ===== src/RowPool/Jobs.antt =====
-- src/qx_row_pool.h: workers and coordinator, as steps on a shared state. A step is what one thread does
-- under the lock; a worker that is woken without a job waits again, which is no step. Threads, lock and
-- condition variables are Windows': any order of steps that the guards allow is a run.
pub mod Barrier
use qx_mini_c.Prelude.{
  ℕ, suc, ◌+◌, ◌-◌, ◌%◌, ◌≡◌, ◌≢◌, Bool, true, false, not, ◌||◌, List, [], ◌∷◌, map, ◌==◌, some,
  if◌then◌else◌, length, get_elem?, set, replicate, add64, sub64,
}

-- `qx_row_pool`, without its lock, its callback and the borrowed context.
pub record Pool : Type 0 where
  pub workers : ℕ
  pub remaining : ℕ
  pub rows : ℕ
  pub generation : ℕ
  pub jobs : ℕ
  pub stopping : Bool
  pub failed : Bool

-- A worker's `seen`, and whether it is outside the lock, in the callback.
pub record Worker : Type 0 where
  pub seen : ℕ
  pub busy : Bool

-- `awaiting`: the coordinator is in the loop of qx_row_pool_run that waits for the workers.
pub record State : Type 0 where
  pub pool : Pool
  pub threads : List Worker
  pub awaiting : Bool

-- The pool as qx_row_pool_create leaves it.
abbrev pub created : ℕ → State
created workers = record {
  pool = record {
    workers = workers;
    remaining = 0;
    rows = 0;
    generation = 0;
    jobs = 0;
    stopping = false;
    failed = false;
  };
  threads = replicate workers (record { seen = 0; busy = false });
  awaiting = false;
}

-- qx_row_pool_run, up to its wait.
abbrev pub start_job : ℕ → Pool → Pool
start_job rows pool = record pool {
  rows = rows;
  remaining = pool.workers;
  failed = false;
  generation = add64 pool.generation 1;
  jobs = add64 pool.jobs 1;
}

-- What qx_row_pool_entry does under the lock before and after the callback.
abbrev pub take_job : Pool → Worker → Worker
take_job pool w = record { seen = pool.generation; busy = true }

abbrev pub leave_job : Worker → Worker
leave_job w = record w { busy = false }

abbrev pub count_job : ℕ → Pool → Pool
count_job result pool = record pool {
  failed = not (result == 0) || pool.failed;
  remaining = (pool.remaining + 4294967295) % 4294967296;
}

pub data Step : State → State → Type 0 where
  start :
      (s : State) (rows : ℕ)
      → s.awaiting ≡ false
      → s.pool.stopping ≡ false
      → rows ≢ 0
      → Step s (record s { pool = start_job rows s.pool; awaiting = true })
  enter :
      (s : State) (i : ℕ) (w : Worker)
      → get_elem? s.threads i ≡ some w
      → w.busy ≡ false
      → s.pool.stopping ≡ false
      → s.pool.generation ≢ w.seen
      → Step s (record s { threads = set s.threads i (take_job s.pool w) })
  leave :
      (s : State) (i result : ℕ) (w : Worker)
      → get_elem? s.threads i ≡ some w
      → w.busy ≡ true
      → Step s
          (record s { pool = count_job result s.pool; threads = set s.threads i (leave_job w) })
  collect :
      (s : State)
      → s.awaiting ≡ true
      → s.pool.remaining ≡ 0
      → Step s (record s { awaiting = false })
  stop :
      (s : State)
      → s.awaiting ≡ false
      → Step s (record s { pool = record s.pool { stopping = true } })

-- The states that a pool of so many workers gets to.
pub data Reach (workers : ℕ) : State → Type 0 where
  fresh : Reach workers (created workers)
  move : (s s' : State) → Reach workers s → Step s s' → Reach workers s'
