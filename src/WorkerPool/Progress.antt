-- ===== src/WorkerPool/Progress.antt =====
-- A pool that is not done goes on.
use monocle.Prelude.{
  All-split, ℕ, zero, suc, ◌≡◌, ◌<◌, refl, ap, inl, inr, ◌⊎◌, true, Bool-cases, some, List, [], ◌∷◌,
  ◌++◌, List-cases, length, All, arith,
}
use mathlib.Core.Path.{subst}
use monocle.WorkerPool.{Thread, WorkerPool, new_worker_pool, take_task, finish_task, Runs}
use monocle.WorkerPool.Counted.{in_tasks, in_tasks-append, workers, IsCounted, Runs-IsCounted}

positive_lem : (n : ℕ) → 0 < n → (m : ℕ) × (n ≡ suc m)
positive_lem zero h = absurd (omega (arith, h))
positive_lem (suc n) h = (n, refl)

module _ {T : Type 0} where
  abbrev pub IsIdle : Thread T → Type 0
  IsIdle thread = thread.tasks ≡ []

  -- A thread at some place of a list.
  abbrev Has : (Thread T → Type 0) → List (Thread T) → Type 0
  Has P threads =
      (before : List (Thread T)) × (thread : Thread T) × (after : List (Thread T)) × (threads
        ≡ before ++ thread ∷ after)
      × P thread

  Has-later :
      (P : Thread T → Type 0) (t : Thread T) (threads : List (Thread T))
      → Has P threads
      → Has P (t ∷ threads)
  Has-later P t threads (before, thread, after, e, p) = (t ∷ before, thread, after, ap (◌∷◌ t) e, p)

  abbrev IsBusy : Thread T → Type 0
  IsBusy thread = (task : T) × (tasks : List T) × (thread.tasks ≡ task ∷ tasks)

  find-IsBusy : (threads : List (Thread T)) → All IsIdle threads ⊎ Has IsBusy threads
  find-IsBusy [] = inl tt
  find-IsBusy (t ∷ threads) = elim (List-cases t.tasks) [
    | inr (task, tasks, busy) ↦ inr ([], t, threads, refl, (task, tasks, busy))
    | inl idle ↦ elim (find-IsBusy threads) [
      | inl none_busy ↦ inl (idle, none_busy)
      | inr later ↦ inr (Has-later IsBusy t threads later)
    ]
  ]

  find_worker :
      (threads : List (Thread T))
      → 0 < workers threads
      → Has (λ thread. thread.is_worker ≡ true) threads
  find_worker [] h = absurd (omega (arith, h))
  find_worker (t ∷ threads) h = elim (Bool-cases t.is_worker) [
    | inl works ↦ ([], t, threads, refl, works)
    | inr other ↦
        Has-later (λ thread. thread.is_worker ≡ true) t threads
          (find_worker threads (ground (arith, h, other)))
  ]

  -- Nothing waits and no thread is in a task.
  abbrev pub IsDone : WorkerPool T → Type 0
  IsDone wp = (wp.wg ≡ 0) × (wp.buf ≡ []) × All IsIdle wp.threads

  -- A thread can end its innermost task, or a worker take one.
  abbrev pub CanGo : WorkerPool T → Type 0
  CanGo wp =
      (next : WorkerPool T) × (before : List (Thread T)) × (thread : Thread T) × (after : List
        (Thread T))
      × (wp.threads ≡ before ++ thread ∷ after)
      × ((finish_task thread (before ++ after) wp ≡ some next)
          ⊎ (take_task thread (before ++ after) wp ≡ some next))

  idle_lem : (threads : List (Thread T)) → All IsIdle threads → in_tasks threads ≡ 0
  idle_lem [] h = refl
  idle_lem (t ∷ threads) h = omega (arith, ap length h.0, idle_lem threads h.1)

  busy_lem : (size : ℕ) (wp : WorkerPool T) → IsCounted size wp → Has IsBusy wp.threads → 0 < wp.wg
  busy_lem size wp h (before, thread, after, e, (task, tasks, busy)) =
      omega (arith, h.wg, ap in_tasks e, in_tasks-append before thread after, ap length busy)

  finish_lem : (size : ℕ) (wp : WorkerPool T) → IsCounted size wp → Has IsBusy wp.threads → CanGo wp
  unfolding finish_task
  finish_lem size wp h (before, thread, after, e, (task, tasks, busy)) =
      let (n, one_more) =
        positive_lem wp.wg (busy_lem size wp h (before, thread, after, e, (task, tasks, busy))) in
      (
        record wp { wg = n; threads = record thread { tasks = tasks } ∷ before ++ after },
        before,
        thread,
        after,
        e,
        inl (simp (finish_task, busy, one_more)),
      )

  take_lem :
      (wp : WorkerPool T) (task : T) (rest : List T)
      → wp.buf ≡ task ∷ rest
      → All IsIdle wp.threads
      → Has (λ thread. thread.is_worker ≡ true) wp.threads
      → CanGo wp
  unfolding take_task
  take_lem wp task rest waits idle (before, thread, after, e, works) =
      let (_, free, _) = All-split IsIdle before after thread (subst (All IsIdle) e idle) in
      (
        record wp { buf = rest; threads = record thread { tasks = task ∷ [] } ∷ before ++ after },
        before,
        thread,
        after,
        e,
        inr (simp (take_task, free, waits, works)),
      )

  -- A pool with a worker, after any number of steps in whatever order its threads take them, is done, with the counter
  -- at 0, nothing in the buffer and every thread in no task; or the counter is not 0, so Wait does not return, and some
  -- thread can end its innermost task or some worker take one.
  pub Runs-IsDone-CanGo :
      (size queue_capacity : ℕ) (wp : WorkerPool T)
      → 0 < size
      → Runs (new_worker_pool T size queue_capacity) wp
      → IsDone wp ⊎ ((0 < wp.wg) × CanGo wp)
  Runs-IsDone-CanGo size queue_capacity wp positive ran =
      let h = Runs-IsCounted size queue_capacity wp ran in
      elim (find-IsBusy wp.threads) [
        | inr busy ↦ inr (busy_lem size wp h busy, finish_lem size wp h busy)
        | inl idle ↦ elim (List-cases wp.buf) [
          | inl empty ↦
              inl (omega (arith, h.wg, ap length empty, idle_lem wp.threads idle), empty, idle)
          | inr (task, rest, waits) ↦ inr (
            omega (arith, h.wg, ap length waits),
            take_lem wp task rest waits idle
                (find_worker wp.threads (omega (arith, positive, h.workers_kept))),
          )
        ]
      ]
