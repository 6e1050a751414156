-- ===== src/Tasks/Workers/Queued.antt =====
-- The tasks of workers_manager.cpp are taken in the order that they were added, and handled once.
use warehouse_accounting_sys.Base.{
  ℕ, ◌+◌, ◌≡◌, refl, sym, ap, ◌∙◌, Bool, Bool-cases, inl, inr, if◌then◌else◌, List, [], ◌∷◌, ◌++◌,
  arith,
}
use warehouse_accounting_sys.Tasks.Workers.{
  Worker, checking, waiting, ended, handling, WorkersManager, add_task, stop_workers, woken, run,
  Step, adds, stops, runs, Reaches, starts, later,
}

module _ {ℓ} {T : Type ℓ} where
  -- How many of the tasks are of a kind.
  abbrev pub tally : (T → Bool) → List T → ℕ
  tally kind [] = 0
  tally kind (t ∷ ts) = (if kind t then 1 else 0) + tally kind ts

  abbrev pub in_hand : (T → Bool) → Worker T → ℕ
  in_hand kind (handling t) = if kind t then 1 else 0
  in_hand kind _ = 0

  -- And how many of the kind the threads are handling.
  abbrev pub in_hands : (T → Bool) → List (Worker T) → ℕ
  in_hands kind [] = 0
  in_hands kind (w ∷ ws) = in_hand kind w + in_hands kind ws

  tally-append :
      (kind : T → Bool) (xs ys : List T) → tally kind (xs ++ ys) ≡ tally kind xs + tally kind ys
  tally-append kind [] ys = omega arith
  tally-append kind (x ∷ xs) ys = omega (arith, tally-append kind xs ys)

  in_hands-append :
      (kind : T → Bool) (xs ys : List (Worker T))
      → in_hands kind (xs ++ ys) ≡ in_hands kind xs + in_hands kind ys
  in_hands-append kind [] ys = omega arith
  in_hands-append kind (x ∷ xs) ys = omega (arith, in_hands-append kind xs ys)

  append_assoc : (xs ys zs : List T) → (xs ++ ys) ++ zs ≡ xs ++ (ys ++ zs)
  append_assoc [] ys zs = refl
  append_assoc (x ∷ xs) ys zs = ap (λ r. x ∷ r) (append_assoc xs ys zs)

  -- The queue is what was added and not taken yet, and every task that was taken is handled or in
  -- the hands of one thread.
  abbrev pub IsKept : WorkersManager T → Type ℓ
  IsKept s =
      (s.taken ++ s.queue ≡ s.added)
      × ((kind : T → Bool) → tally kind s.taken ≡ tally kind s.handled + in_hands kind s.workers)

  -- A thread that has no task goes on without one.
  moved :
      (kind : T → Bool) (s : WorkersManager T) (before : List (Worker T)) (v w : Worker T)
      (after : List (Worker T))
      → s.workers ≡ before ++ v ∷ after
      → in_hand kind v ≡ in_hand kind w
      → tally kind s.taken ≡ tally kind s.handled + in_hands kind s.workers
      → tally kind s.taken ≡ tally kind s.handled + in_hands kind (before ++ w ∷ after)
  moved kind s before v w after e same once = omega (
    arith,
    once,
    same,
    ap (in_hands kind) e,
    in_hands-append kind before (v ∷ after),
    in_hands-append kind before (w ∷ after),
  )

  woken-IsKept :
      (s : WorkersManager T) (before after : List (Worker T)) (queue : List T)
      → s.workers ≡ before ++ waiting ∷ after
      → s.queue ≡ queue
      → IsKept s
      → IsKept (woken before after queue s)
  woken-IsKept s before after [] e q (order, once) = (
    order,
    λ kind. elim (Bool-cases s.stop) [
      | inl b ↦ rw b (moved kind s before waiting checking after e refl (once kind))
      | inr b ↦ rw b (moved kind s before waiting waiting after e refl (once kind))
    ],
  )
  woken-IsKept s before after (t ∷ rest) e q (order, once) = (
    append_assoc s.taken (t ∷ []) rest ∙ ap (λ r. s.taken ++ r) (sym q) ∙ order,
    λ kind. omega (
      arith,
      once kind,
      ap (in_hands kind) e,
      in_hands-append kind before (waiting ∷ after),
      in_hands-append kind before (handling t ∷ after),
      tally-append kind s.taken (t ∷ []),
    ),
  )

  run-IsKept :
      (s : WorkersManager T) (before : List (Worker T)) (w : Worker T) (after : List (Worker T))
      → s.workers ≡ before ++ w ∷ after
      → IsKept s
      → IsKept (run before w after s)
  unfolding run
  run-IsKept s before checking after e (order, once) = (
    order,
    λ kind. elim (Bool-cases s.stop) [
      | inl b ↦ rw b (moved kind s before checking ended after e refl (once kind))
      | inr b ↦ rw b (moved kind s before checking waiting after e refl (once kind))
    ],
  )
  run-IsKept s before waiting after e kept = woken-IsKept s before after s.queue e refl kept
  run-IsKept s before (handling t) after e (order, once) = (
    order,
    λ kind. omega (
      arith,
      once kind,
      ap (in_hands kind) e,
      in_hands-append kind before (handling t ∷ after),
      in_hands-append kind before (checking ∷ after),
      tally-append kind s.handled (t ∷ []),
    ),
  )
  run-IsKept s before ended after e kept = kept

  Step-IsKept : {s t : WorkersManager T} → Step s t → IsKept s → IsKept t
  unfolding add_task stop_workers
  Step-IsKept (adds s t) (order, once) =
      (sym (append_assoc s.taken s.queue (t ∷ [])) ∙ ap (λ r. r ++ t ∷ []) order, once)
  Step-IsKept (stops s) kept = kept
  Step-IsKept (runs s before w after e) kept = run-IsKept s before w after e kept

  -- However the threads interleave, the tasks are taken in the order in which they were added, none of
  -- them is lost, and of every kind as many were taken as were handled or are in the hands of a thread.
  pub Reaches-IsKept : (s : WorkersManager T) → Reaches s → IsKept s
  Reaches-IsKept s starts = (refl, λ kind. refl)
  Reaches-IsKept s (later reached step) = Step-IsKept step (Reaches-IsKept _ reached)
