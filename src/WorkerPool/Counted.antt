-- ===== src/WorkerPool/Counted.antt =====
-- What the counter of a pool counts.
use monocle.Prelude.{
  ℕ, zero, suc, ◌+◌, ltb, ◌≡◌, refl, sym, ◌∙◌, ap, inl, inr, Bool-cases, some, List, [], ◌∷◌, ◌++◌,
  length, length-append, if◌then◌else◌, arith,
}
use monocle.WorkerPool.{
  Thread, WorkerPool, new_threads, new_worker_pool, submit, take_task, finish_task, Step, submits,
  takes, finishes, Runs, begins, steps,
}

module _ {T : Type 0} where
  -- The number of the tasks that the threads are in.
  abbrev pub in_tasks : List (Thread T) → ℕ
  in_tasks [] = 0
  in_tasks (thread ∷ threads) = length thread.tasks + in_tasks threads

  pub in_tasks-append :
      (before : List (Thread T)) (thread : Thread T) (after : List (Thread T))
      → in_tasks (before ++ thread ∷ after) ≡ length thread.tasks + in_tasks (before ++ after)
  in_tasks-append [] thread after = refl
  in_tasks-append (t ∷ before) thread after = omega (arith, in_tasks-append before thread after)

  abbrev pub workers : List (Thread T) → ℕ
  workers [] = 0
  workers (thread ∷ threads) = (if thread.is_worker then 1 else 0) + workers threads

  workers-append :
      (before : List (Thread T)) (thread : Thread T) (after : List (Thread T))
      → workers (before ++ thread ∷ after)
        ≡ (if thread.is_worker then 1 else 0) + workers (before ++ after)
  workers-append [] thread after = refl
  workers-append (t ∷ before) thread after = omega (arith, workers-append before thread after)

  pub record IsCounted (size : ℕ) (wp : WorkerPool T) : Type 0 where
    pub wg : wp.wg ≡ length wp.buf + in_tasks wp.threads
    pub workers_kept : workers wp.threads ≡ size

  submit-IsCounted :
      (size : ℕ) (wp : WorkerPool T) (task : T) (before : List (Thread T)) (thread : Thread T)
      (after : List (Thread T))
      → wp.threads ≡ before ++ thread ∷ after
      → IsCounted size wp
      → IsCounted size (submit task thread (before ++ after) wp)
  unfolding submit
  submit-IsCounted size wp task before thread after e h =
      let all : in_tasks wp.threads ≡ length thread.tasks + in_tasks (before ++ after) =
        ap in_tasks e ∙ in_tasks-append before thread after in
      let same : workers wp.threads
          ≡ (if thread.is_worker then 1 else 0) + workers (before ++ after) =
        ap workers e ∙ workers-append before thread after in
      elim (Bool-cases (ltb (length wp.buf) wp.queue_capacity)) [
        | inl room ↦
            rw (submit, room)
              (record {
                wg = omega (arith, h.wg, all, length-append wp.buf (task ∷ []));
                workers_kept = sym same ∙ h.workers_kept;
              })
        | inr full ↦
            rw (submit, full)
              (record { wg = omega (arith, h.wg, all); workers_kept = sym same ∙ h.workers_kept })
      ]

  module _ (size : ℕ) (wp next : WorkerPool T) (before : List (Thread T)) (thread : Thread T)
      (after : List (Thread T)) (e : wp.threads ≡ before ++ thread ∷ after)
      (h : IsCounted size wp) where
    all : in_tasks wp.threads ≡ length thread.tasks + in_tasks (before ++ after)
    all = ap in_tasks e ∙ in_tasks-append before thread after

    same : workers wp.threads ≡ (if thread.is_worker then 1 else 0) + workers (before ++ after)
    same = ap workers e ∙ workers-append before thread after

    take_task-IsCounted : take_task thread (before ++ after) wp ≡ some next → IsCounted size next
    unfolding take_task
    take_task-IsCounted r = record {
      wg = ground (arith, r, h.wg, all);
      workers_kept = ground (arith, r, h.workers_kept, same);
    }

    finish_task-IsCounted :
        finish_task thread (before ++ after) wp ≡ some next → IsCounted size next
    unfolding finish_task
    finish_task-IsCounted r = record {
      wg = ground (arith, r, h.wg, all);
      workers_kept = ground (arith, r, h.workers_kept, same);
    }

  Step-IsCounted :
      (size : ℕ) (wp next : WorkerPool T) → IsCounted size wp → Step wp next → IsCounted size next
  Step-IsCounted size wp next h (submits task before thread after e) =
      submit-IsCounted size wp task before thread after e h
  Step-IsCounted size wp next h (takes _ before thread after e r) =
      take_task-IsCounted size wp next before thread after e h r
  Step-IsCounted size wp next h (finishes _ before thread after e r) =
      finish_task-IsCounted size wp next before thread after e h r

new_threads-workers :
    (T : Type 0) (size : ℕ)
    → (in_tasks (new_threads T size) ≡ 0) × (workers (new_threads T size) ≡ size)
unfolding new_threads
new_threads-workers T zero = (refl, refl)
new_threads-workers T (suc size) =
    let (none_busy, counted) = new_threads-workers T size in
    (omega (arith, none_busy), omega (arith, counted))

module _ {T : Type 0} where
  pub Runs-IsCounted :
      (size queue_capacity : ℕ) (wp : WorkerPool T)
      → Runs (new_worker_pool T size queue_capacity) wp
      → IsCounted size wp
  unfolding new_worker_pool
  Runs-IsCounted size queue_capacity wp begins = record {
    wg = omega (arith, (new_threads-workers T size).0);
    workers_kept = (new_threads-workers T size).1;
  }
  Runs-IsCounted size queue_capacity wp (steps last _ ran step) =
      Step-IsCounted size last wp (Runs-IsCounted size queue_capacity last ran) step
