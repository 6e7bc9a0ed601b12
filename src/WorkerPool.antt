-- ===== src/WorkerPool.antt =====
-- pkg/workerPool/workerPool.go, `NewWorkerPool`, `Submit`, `worker` and `Wait`, up to `Stop`. A thread is a worker or one
-- that only submits, with the tasks that it is in, the innermost first; threads change places at every step. With a queue
-- capacity of 0 a task is never handed to a waiting worker here, but run by its submitter.
pub mod Counted
pub mod Progress
mod Tests
use monocle.Prelude.{
  ℕ, zero, suc, ◌+◌, ◌-◌, ltb, ◌≡◌, Bool, true, false, Option, none, some, List, [], ◌∷◌, ◌++◌,
  length, if◌then◌else◌,
}

pub record Thread (T : Type 0) : Type 0 where
  pub is_worker : Bool
  pub tasks : List T

-- `WorkerPool`: `wg` is the counter of the wait group.
pub record WorkerPool (T : Type 0) : Type 0 where
  pub buf : List T
  pub queue_capacity : ℕ
  pub wg : ℕ
  pub threads : List (Thread T)

unfoldable pub new_threads : (T : Type 0) → ℕ → List (Thread T)
new_threads T zero = record { is_worker = false; tasks = [] } ∷ []
new_threads T (suc size) = record { is_worker = true; tasks = [] } ∷ new_threads T size

unfoldable pub new_worker_pool : (T : Type 0) → ℕ → ℕ → WorkerPool T
new_worker_pool T size queue_capacity = record {
  buf = [];
  queue_capacity = queue_capacity;
  wg = 0;
  threads = new_threads T size;
}

module _ {T : Type 0} where
  -- A thread submits: where the buffer is full it runs the task itself.
  unfoldable pub submit : T → Thread T → List (Thread T) → WorkerPool T → WorkerPool T
  submit task thread others wp =
      if ltb (length wp.buf) wp.queue_capacity
      then record wp { wg = wp.wg + 1; buf = wp.buf ++ task ∷ []; threads = thread ∷ others }
      else record wp {
        wg = wp.wg + 1;
        threads = record thread { tasks = task ∷ thread.tasks } ∷ others;
      }

  -- A worker that is in no task takes the first one of the buffer.
  unfoldable pub take_task : Thread T → List (Thread T) → WorkerPool T → Option (WorkerPool T)
  take_task thread others wp = elim thread.tasks [
    | t ∷ ts ↦ none
    | [] ↦ elim wp.buf [
      | [] ↦ none
      | task ∷ rest ↦
          if thread.is_worker
          then some
              (record wp { buf = rest; threads = record thread { tasks = task ∷ [] } ∷ others })
          else none
    ]
  ]

  -- The end of the innermost task of a thread, with `wg.Done()`; `none` where it is in no task, or the counter is 0.
  unfoldable pub finish_task : Thread T → List (Thread T) → WorkerPool T → Option (WorkerPool T)
  finish_task thread others wp = elim thread.tasks [
    | [] ↦ none
    | t ∷ ts ↦ elim wp.wg [
      | zero ↦ none
      | suc n ↦ some (record wp { wg = n; threads = record thread { tasks = ts } ∷ others })
    ]
  ]

-- One step of one thread.
pub data Step {T : Type 0} (wp : WorkerPool T) : WorkerPool T → Type 0 where
  submits :
      (task : T) (before : List (Thread T)) (thread : Thread T) (after : List (Thread T))
      → wp.threads ≡ before ++ thread ∷ after
      → Step wp (submit task thread (before ++ after) wp)
  takes :
      (next : WorkerPool T) (before : List (Thread T)) (thread : Thread T) (after : List (Thread T))
      → wp.threads ≡ before ++ thread ∷ after
      → take_task thread (before ++ after) wp ≡ some next
      → Step wp next
  finishes :
      (next : WorkerPool T) (before : List (Thread T)) (thread : Thread T) (after : List (Thread T))
      → wp.threads ≡ before ++ thread ∷ after
      → finish_task thread (before ++ after) wp ≡ some next
      → Step wp next

pub data Runs {T : Type 0} (first : WorkerPool T) : WorkerPool T → Type 0 where
  begins : Runs first first
  steps : (wp next : WorkerPool T) → Runs first wp → Step wp next → Runs first next
