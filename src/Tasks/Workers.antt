-- ===== src/Tasks/Workers.antt =====
-- back/components/task_manager/source/workers_manager.cpp, workers_manager.h and task_handler.cpp: the queue of
-- tasks and the threads that take from it. Each step is what one thread does under the mutex, or the
-- handling of a task, which catches every exception.
pub mod Queued
use warehouse_accounting_sys.Base.{
  ℕ, ◌+◌, ◌≡◌, Bool, true, false, if◌then◌else◌, List, [], ◌∷◌, ◌++◌,
}

-- Where a thread is in `Run`: before the test of the loop, in `m_queueCv.wait`, in `HandleTask`, or
-- behind the loop.
pub data Worker {ℓ} (T : Type ℓ) : Type ℓ where
  checking waiting ended : Worker T
  handling : T → Worker T

-- `added`, `taken` and `handled` are what was done so far, in this order.
pub record WorkersManager {ℓ} (T : Type ℓ) : Type ℓ where
  pub queue : List T
  pub stop : Bool
  pub workers : List (Worker T)
  pub added : List T
  pub taken : List T
  pub handled : List T

module _ {ℓ} {T : Type ℓ} where
  -- The constructor, with `DEFAULT_NUM_WORKERS` threads.
  abbrev pub new_workers : WorkersManager T
  new_workers = record {
    queue = [];
    stop = false;
    workers = checking ∷ checking ∷ checking ∷ checking ∷ [];
    added = [];
    taken = [];
    handled = [];
  }

  -- `AddTask`
  unfoldable pub add_task : T → WorkersManager T → WorkersManager T
  add_task t s = record s { queue = s.queue ++ t ∷ []; added = s.added ++ t ∷ [] }

  -- The destructor, before it joins the threads.
  unfoldable pub stop_workers : WorkersManager T → WorkersManager T
  stop_workers s = record s { stop = true }

  -- The predicate of the wait holds, and then the queue is looked at; else the thread waits on.
  abbrev pub woken :
      List (Worker T) → List (Worker T) → List T → WorkersManager T → WorkersManager T
  woken before after [] s = record s {
    workers = before ++ (if s.stop then checking else waiting) ∷ after;
  }
  woken before after (t ∷ rest) s = record s {
    queue = rest;
    workers = before ++ handling t ∷ after;
    taken = s.taken ++ t ∷ [];
  }

  -- The next step of `Run` in one thread, between the others.
  unfoldable pub run :
      List (Worker T) → Worker T → List (Worker T) → WorkersManager T → WorkersManager T
  run before checking after s = record s {
    workers = before ++ (if s.stop then ended else waiting) ∷ after;
  }
  run before waiting after s = woken before after s.queue s
  run before (handling t) after s = record s {
    workers = before ++ checking ∷ after;
    handled = s.handled ++ t ∷ [];
  }
  run before ended after s = s

  -- What the threads may do, in any order.
  pub data Step : WorkersManager T → WorkersManager T → Type ℓ where
    adds : (s : WorkersManager T) (t : T) → Step s (add_task t s)
    stops : (s : WorkersManager T) → Step s (stop_workers s)
    runs :
        (s : WorkersManager T) (before : List (Worker T)) (w : Worker T) (after : List (Worker T))
        → s.workers ≡ before ++ w ∷ after
        → Step s (run before w after s)

  pub data Reaches : WorkersManager T → Type ℓ where
    starts : Reaches new_workers
    later : {s t : WorkersManager T} → Reaches s → Step s t → Reaches t
