-- ===== src/Semaphore.antt =====
-- `Semaphore` of include/corosig/Semaphore.hpp and src/Semaphore.cpp, with the part of the reactor
-- that it uses: the queue of the coroutines that are ready to resume.
pub mod Wakes
pub mod Units
pub mod Reachable
mod Tests
use corosig.Prelude.{
  ℕ, zero, suc, ◌+◌, ◌-◌, ◌%◌, ◌^◌, Bool, true, false, ◌||◌, List, [], ◌∷◌, ◌++◌, Option, none,
  some, ltb, ◌==◌, if◌then◌else◌,
}

-- `HolderAwaiter`: `id` stands for its address and the coroutine that waits on it.
pub record HolderAwaiter : Type 0 where
  pub id : ℕ
  pub units : ℕ

-- `held` says that `m_semaphore` is set.
pub record Holder : Type 0 where
  pub units : ℕ
  pub held : Bool

pub record Semaphore : Type 0 where
  pub max_parallelism : ℕ
  pub current_parallelism : ℕ
  pub waiters : List HolderAwaiter

-- Sums of size_t.
pub would_block : Semaphore → ℕ → Bool
would_block s units = ltb s.max_parallelism ((s.current_parallelism + units) % 2 ^ 64)

pub take_units : Semaphore → ℕ → Semaphore
take_units s units = record s { current_parallelism = (s.current_parallelism + units) % 2 ^ 64 }

pub try_hold : Semaphore → ℕ → Semaphore × Option Holder
unfolding would_block take_units
try_hold s units =
    if would_block s units
    then (s, none)
    else (take_units s units, some (record { units = units; held = true }))

pub await_ready : Semaphore → HolderAwaiter → Semaphore × Bool
unfolding would_block take_units
await_ready s awaiter =
    if would_block s awaiter.units then (s, false) else (take_units s awaiter.units, true)

pub await_suspend : Semaphore → HolderAwaiter → Semaphore
await_suspend s awaiter = record s { waiters = s.waiters ++ awaiter ∷ [] }

pub await_resume : HolderAwaiter → Holder
await_resume awaiter = record { units = awaiter.units; held = true }

-- The loop of `free_units` over the waiters; `schedule` appends to `ready`.
pub wake : Semaphore → List HolderAwaiter → List HolderAwaiter → Semaphore × List HolderAwaiter
unfolding would_block take_units
wake s [] ready = (record s { waiters = [] }, ready)
wake s (w ∷ ws) ready =
    let next = wake (take_units s w.units) ws (ready ++ w ∷ []) in
    if would_block s w.units then (record s { waiters = w ∷ ws }, ready) else next

pub free_units : Semaphore → ℕ → List HolderAwaiter → Semaphore × List HolderAwaiter
unfolding wake
free_units s units ready =
    wake (record s { current_parallelism = (s.current_parallelism + 2 ^ 64 - units) % 2 ^ 64 })
      s.waiters ready

-- `Holder::reset`, which the destructor calls too.
pub reset : Semaphore → List HolderAwaiter → Holder → (Semaphore × List HolderAwaiter) × Holder
unfolding free_units
reset s ready h =
    if h.held
    then (if h.units == 0
        then ((s, ready), h)
        else (free_units s h.units ready, record { units = 0; held = false }))
    else ((s, ready), h)

-- A semaphore with the ready queue and the holders that the program has.
pub record System : Type 0 where
  pub semaphore : Semaphore
  pub ready : List HolderAwaiter
  pub holders : List Holder

pub construct : ℕ → System
construct max = record {
  semaphore = record { max_parallelism = max; current_parallelism = 0; waiters = [] };
  ready = [];
  holders = [];
}

-- What the program may do: call `try_hold`, await `hold`, let the reactor resume the next ready
-- coroutine, or reset the holder at a place of the list.
pub data Event : Type 0 where
  trying : ℕ → Event
  holding : HolderAwaiter → Event
  resuming : Event
  releasing : ℕ → Event

tried : System → Semaphore × Option Holder → System
tried y (s, none) = record y { semaphore = s }
tried y (s, some h) = record y { semaphore = s; holders = h ∷ y.holders }

awaited : System → HolderAwaiter → Semaphore × Bool → System
unfolding await_suspend await_resume
awaited y a (s, true) = record y { semaphore = s; holders = await_resume a ∷ y.holders }
awaited y a (s, false) = record y { semaphore = await_suspend s a }

resumed : System → List HolderAwaiter → System
unfolding await_resume
resumed y [] = y
resumed y (a ∷ rest) = record y { ready = rest; holders = await_resume a ∷ y.holders }

-- The holders with the one at a place reset.
pub reset_at :
    ℕ
    → Semaphore
    → List HolderAwaiter
    → List Holder
    → (Semaphore × List HolderAwaiter) × List Holder
unfolding reset
reset_at i s ready [] = ((s, ready), [])
reset_at zero s ready (h ∷ hs) = let (after, h') = reset s ready h in (after, h' ∷ hs)
reset_at (suc i) s ready (h ∷ hs) = let (after, hs') = reset_at i s ready hs in (after, h ∷ hs')

-- No event destroys an awaiter or a coroutine that waits or is scheduled: its list node would
-- unlink itself.
pub step : Event → System → System
unfolding tried awaited resumed reset_at try_hold await_ready
step (trying units) y = tried y (try_hold y.semaphore units)
step (holding a) y = awaited y a (await_ready y.semaphore a)
step resuming y = resumed y y.ready
step (releasing i) y =
    let (after, hs) = reset_at i y.semaphore y.ready y.holders in
    record { semaphore = after.0; ready = after.1; holders = hs }
