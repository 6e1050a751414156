-- ===== src/Examples/Queues.antt =====
-- Two tasks that are added, the first of which a thread takes.
use warehouse_accounting_sys.Base.{ℕ, ◌+◌, ◌≡◌, refl, Bool, false, [], ◌∷◌, ◌++◌}
use warehouse_accounting_sys.Tasks.Workers.{
  WorkersManager, checking, waiting, handling, Reaches, starts, later, adds, runs, add_task, run,
}
use warehouse_accounting_sys.Tasks.Workers.Queued.{tally, in_hands, Reaches-IsKept}

abbrev one_taken : WorkersManager ℕ
one_taken = record {
  queue = 8 ∷ [];
  stop = false;
  workers = checking ∷ handling 7 ∷ checking ∷ checking ∷ [];
  added = 7 ∷ 8 ∷ [];
  taken = 7 ∷ [];
  handled = [];
}

one_taken-Reaches : Reaches one_taken
unfolding add_task run
one_taken-Reaches =
    later
      (later
        (later (later starts (adds _ 7))
          (runs _ (checking ∷ []) checking (checking ∷ checking ∷ []) refl))
        (adds _ 8))
      (runs _ (checking ∷ []) waiting (checking ∷ checking ∷ []) refl)

Reaches-IsKept_example :
    (one_taken.taken ++ one_taken.queue ≡ one_taken.added)
    × ((kind : ℕ → Bool)
        → tally kind one_taken.taken
          ≡ tally kind one_taken.handled + in_hands kind one_taken.workers)
Reaches-IsKept_example = Reaches-IsKept one_taken one_taken-Reaches
