-- ===== src/Semaphore/Tests.antt =====
-- A semaphore of two units at concrete events.
use corosig.Prelude.{◌≡◌, refl, ◌^◌, ◌-◌, [], ◌∷◌, arith}
use corosig.Semaphore.{
  HolderAwaiter, Semaphore, System, construct, try_hold, free_units, step, holding, resuming,
  releasing,
}
use corosig.Semaphore.Wakes.{Served, less, free_units_lem}
use corosig.Semaphore.Units.{IsSound}
use corosig.Semaphore.Reachable.{Reaches, start, event, Reaches-IsSound, Reaches-waiters}

abbrev first : HolderAwaiter
first = record { id = 1; units = 2 }

abbrev second : HolderAwaiter
second = record { id = 2; units = 1 }

-- The first takes both units, and the second waits for one.
abbrev waiting : System
waiting = step (holding second) (step (holding first) (construct 2))

waiting-Reaches : Reaches 2 waiting
unfolding construct step
waiting-Reaches = event (holding second) (event (holding first) start (omega arith)) (omega arith)

waits : waiting.semaphore.waiters ≡ second ∷ []
unfolding construct step
waits = refl

-- The first gives its units back, the second resumes and does the same.
abbrev over : System
over = step (releasing 0) (step resuming (step (releasing 0) waiting))

over-Reaches : Reaches 2 over
over-Reaches = event (releasing 0) (event resuming (event (releasing 0) waiting-Reaches tt) tt) tt

-- A sum that wraps around is no more than the maximum.
wraps :
    (try_hold
      (record { max_parallelism = 5; current_parallelism = 2; waiters = [] })
      (2 ^ 64 - 1)).0
    ≡ record { max_parallelism = 5; current_parallelism = 1; waiters = [] }
unfolding try_hold
wraps = refl

Reaches-IsSound_example : IsSound waiting
Reaches-IsSound_example = Reaches-IsSound 2 waiting (omega arith) waiting-Reaches

Reaches-waiters_example : over.semaphore.waiters ≡ []
unfolding construct step
Reaches-waiters_example = Reaches-waiters 2 over (omega arith) over-Reaches refl refl

abbrev full : Semaphore
full = record { max_parallelism = 2; current_parallelism = 2; waiters = second ∷ first ∷ [] }

free_units_lem_example : Served (less full 2) full.waiters [] (free_units full 2 [])
free_units_lem_example =
    free_units_lem full 2 [] (omega arith) (omega arith) (omega arith) (omega arith)
