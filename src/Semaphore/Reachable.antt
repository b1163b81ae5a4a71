-- ===== src/Semaphore/Reachable.antt =====
-- The states that a `Semaphore` reaches, from event to event.
use corosig.Prelude.{
  ℕ, ◌^◌, ◌≤◌, ◌<◌, ◌≡◌, refl, ap, List, [], ◌∷◌, All, All-append, Bool-cases, inl, inr, arith,
}
use corosig.Semaphore.{
  HolderAwaiter, System, would_block, try_hold, await_ready, await_suspend, await_resume, tried,
  awaited, resumed, construct, Event, trying, holding, resuming, releasing, step,
}
use corosig.Semaphore.Wakes.{asked, Blocked, IsAskable, would_block-true, would_block-false}
use corosig.Semaphore.Units.{take_units-Inv, reset_at-Inv, Blocked-append, IsSound, live}

-- What the program keeps to: `hold` asserts that the units are not above the maximum, and
-- `try_hold` is asked for no number of units so large that the sum wraps around.
abbrev pub IsAllowed : System → Event → Type 0
IsAllowed y (trying units) = units ≤ 2 ^ 63
IsAllowed y (holding a) = a.units ≤ y.semaphore.max_parallelism
IsAllowed y resuming = Unit
IsAllowed y (releasing i) = Unit

tried-IsSound :
    (y : System) (units : ℕ)
    → units ≤ 2 ^ 63
    → IsSound y
    → IsSound (tried y (try_hold y.semaphore units))
unfolding tried try_hold
tried-IsSound y units h v = elim (Bool-cases (would_block y.semaphore units)) [
  | inl e ↦ rw e v
  | inr e ↦ rw e (
      take_units-Inv y.semaphore units y.ready y.holders
        (would_block-false y.semaphore units v.fits v.small h e) v)
]

awaited-IsSound :
    (y : System) (a : HolderAwaiter)
    → a.units ≤ y.semaphore.max_parallelism
    → IsSound y
    → IsSound (awaited y a (await_ready y.semaphore a))
unfolding awaited await_ready await_suspend await_resume
awaited-IsSound y a h v = elim (Bool-cases (would_block y.semaphore a.units)) [
  | inl e ↦ rw e (record {
    counted = v.counted;
    fits = v.fits;
    small = v.small;
    askable =
        All-append (IsAskable y.semaphore.max_parallelism) y.semaphore.waiters (a ∷ []) v.askable
          (h, tt);
    blocked =
        Blocked-append y.semaphore.max_parallelism y.semaphore.current_parallelism
          y.semaphore.waiters a
          (would_block-true y.semaphore a.units v.fits v.small (omega (arith, v.small)) e)
          v.blocked;
  })
  | inr e ↦ rw e (
      take_units-Inv y.semaphore a.units y.ready y.holders
        (would_block-false y.semaphore a.units v.fits v.small (omega (arith, v.small)) e) v)
]

resumed-IsSound :
    (y : System) (ready : List HolderAwaiter)
    → y.ready ≡ ready
    → IsSound y
    → IsSound (resumed y ready)
unfolding resumed await_resume
resumed-IsSound y [] e v = v
resumed-IsSound y (a ∷ rest) e v = record {
  counted = omega (arith, v.counted, ap asked e);
  fits = v.fits;
  small = v.small;
  askable = v.askable;
  blocked = v.blocked;
}

pub step-IsSound : (y : System) (e : Event) → IsAllowed y e → IsSound y → IsSound (step e y)
unfolding step
step-IsSound y (trying units) h v = tried-IsSound y units h v
step-IsSound y (holding a) h v = awaited-IsSound y a h v
step-IsSound y resuming h v = resumed-IsSound y y.ready refl v
step-IsSound y (releasing i) h v = reset_at-Inv 0 i y.semaphore y.ready y.holders v

-- The states of a semaphore with a maximum, by any allowed events.
pub data Reaches (max : ℕ) : System → Type 0 where
  start : Reaches max (construct max)
  event : {y : System} (e : Event) → Reaches max y → IsAllowed y e → Reaches max (step e y)

construct-IsSound : (max : ℕ) → max < 2 ^ 63 → IsSound (construct max)
unfolding construct
construct-IsSound max h = record {
  counted = refl;
  fits = omega arith;
  small = h;
  askable = tt;
  blocked = tt;
}

-- In every state that a semaphore of at most 2^63 - 1 units reaches, where `hold` is asked for at
-- most the maximum and `try_hold` for at most 2^63 units, the units that are taken are those of the
-- holders and of the coroutines that are scheduled to become holders, no more than the maximum is
-- taken, every waiter asks for at most the maximum, and the first waiter cannot be served.
pub Reaches-IsSound : (max : ℕ) (y : System) → max < 2 ^ 63 → Reaches max y → IsSound y
Reaches-IsSound max y h start = construct-IsSound max h
Reaches-IsSound max y h (event {y = y'} e r a) = step-IsSound y' e a (Reaches-IsSound max y' h r)

-- In every such state a coroutine waits only while units are held, or are on their way to a
-- coroutine that is scheduled: when all units are back and nothing is scheduled, nothing waits. The
-- semaphore has at most 2^63 - 1 units, `hold` is asked for at most these, and `try_hold` for at
-- most 2^63.
pub Reaches-waiters :
    (max : ℕ) (y : System)
    → max < 2 ^ 63
    → Reaches max y
    → live y.holders ≡ 0
    → y.ready ≡ []
    → y.semaphore.waiters ≡ []
Reaches-waiters max y h r none_held none_ready =
    let v = Reaches-IsSound max y h r in
    idle y.semaphore.waiters v.askable v.blocked (omega (arith, v.counted, ap asked none_ready))
  where
    idle :
        (ws : List HolderAwaiter)
        → All (IsAskable y.semaphore.max_parallelism) ws
        → Blocked y.semaphore.max_parallelism y.semaphore.current_parallelism ws
        → y.semaphore.current_parallelism ≡ 0
        → ws ≡ []
    idle [] a b z = refl
    idle (w ∷ ws) a b z = absurd (omega arith)
