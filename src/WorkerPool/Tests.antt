-- ===== src/WorkerPool/Tests.antt =====
-- A pool with one worker, where a task is submitted.
use monocle.Prelude.{ℕ, ◌<◌, refl, ◌⊎◌, [], ◌∷◌, arith, true, false}
use monocle.WorkerPool.{
  Thread, WorkerPool, new_threads, new_worker_pool, submit, Runs, begins, steps, submits,
}
use monocle.WorkerPool.Progress.{IsDone, CanGo, Runs-IsDone-CanGo}

abbrev submitter : Thread ℕ
submitter = record { is_worker = false; tasks = [] }

abbrev worker : Thread ℕ
worker = record { is_worker = true; tasks = [] }

abbrev waiting : WorkerPool ℕ
waiting = record { buf = 7 ∷ []; queue_capacity = 2; wg = 1; threads = submitter ∷ worker ∷ [] }

waiting-Runs : Runs (new_worker_pool ℕ 1 2) waiting
unfolding new_worker_pool new_threads submit
waiting-Runs =
    steps (new_worker_pool ℕ 1 2) waiting begins (submits 7 (worker ∷ []) submitter [] refl)

Runs-IsDone-CanGo_example : IsDone waiting ⊎ ((0 < waiting.wg) × CanGo waiting)
Runs-IsDone-CanGo_example = Runs-IsDone-CanGo 1 2 waiting (omega arith) waiting-Runs
