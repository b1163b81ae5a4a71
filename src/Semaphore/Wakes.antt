-- ===== src/Semaphore/Wakes.antt =====
-- The loop of `Semaphore::free_units` of Semaphore.cpp.
use mathlib.Core.List.{append_assoc, append-nil}
use corosig.Prelude.{
  ℕ, ◌+◌, ◌-◌, ◌%◌, ◌^◌, ◌≤◌, ◌<◌, ◌≡◌, refl, sym, ap, ◌∙◌, true, false, List, [], ◌∷◌, ◌++◌, All,
  Bool-cases, inl, inr, arith,
}
use corosig.Semaphore.{HolderAwaiter, Semaphore, would_block, take_units, wake, free_units}

-- The units that a list of awaiters asks for.
abbrev pub asked : List HolderAwaiter → ℕ
asked [] = 0
asked (w ∷ ws) = w.units + asked ws

pub asked-append : (xs ys : List HolderAwaiter) → asked (xs ++ ys) ≡ asked xs + asked ys
asked-append [] ys = omega arith
asked-append (x ∷ xs) ys = omega (arith, asked-append xs ys)

-- The first waiter cannot be served.
abbrev pub Blocked : ℕ → ℕ → List HolderAwaiter → Type 0
Blocked max current [] = Unit
Blocked max current (w ∷ ws) = max < current + w.units

abbrev pub IsBlocked : Semaphore → Type 0
IsBlocked s = Blocked s.max_parallelism s.current_parallelism s.waiters

abbrev pub IsAskable : ℕ → HolderAwaiter → Type 0
IsAskable max w = w.units ≤ max

-- What the loop does: it serves waiters from the front and stops at the first it cannot serve.
pub record Served (s : Semaphore) (ws ready : List HolderAwaiter)
    (r : Semaphore × List HolderAwaiter) : Type 0 where
  pub served : List HolderAwaiter
  pub queue : ws ≡ served ++ r.0.waiters
  pub scheduled : r.1 ≡ ready ++ served
  pub taken : r.0.current_parallelism ≡ s.current_parallelism + asked served
  pub same_max : r.0.max_parallelism ≡ s.max_parallelism
  pub within : r.0.current_parallelism ≤ r.0.max_parallelism
  pub blocked : IsBlocked r.0

-- Without a wrap-around, the test compares the true sum.
pub would_block-true :
    (s : Semaphore) (units : ℕ)
    → s.current_parallelism ≤ s.max_parallelism
    → s.max_parallelism < 2 ^ 63
    → units ≤ 2 ^ 63
    → would_block s units ≡ true
    → s.max_parallelism < s.current_parallelism + units
unfolding would_block
would_block-true s units fits small h e = ground arith

pub would_block-false :
    (s : Semaphore) (units : ℕ)
    → s.current_parallelism ≤ s.max_parallelism
    → s.max_parallelism < 2 ^ 63
    → units ≤ 2 ^ 63
    → would_block s units ≡ false
    → s.current_parallelism + units ≤ s.max_parallelism
unfolding would_block
would_block-false s units fits small h e = ground arith

Served-cons :
    (s : Semaphore) (w : HolderAwaiter) (ws ready : List HolderAwaiter)
    (r : Semaphore × List HolderAwaiter)
    → s.current_parallelism + w.units ≤ s.max_parallelism
    → s.max_parallelism < 2 ^ 63
    → Served (take_units s w.units) ws (ready ++ w ∷ []) r
    → Served s (w ∷ ws) ready r
unfolding take_units
Served-cons s w ws ready r fits small t = record {
  served = w ∷ t.served;
  queue = ap (◌∷◌ w) t.queue;
  scheduled = t.scheduled ∙ append_assoc ready (w ∷ []) t.served;
  taken = omega (arith, t.taken);
  same_max = t.same_max;
  within = t.within;
  blocked = t.blocked;
}

wake_lem :
    (s : Semaphore) (ws ready : List HolderAwaiter)
    → s.current_parallelism ≤ s.max_parallelism
    → s.max_parallelism < 2 ^ 63
    → All (IsAskable s.max_parallelism) ws
    → Served s ws ready (wake s ws ready)
unfolding wake take_units
wake_lem s [] ready fits small h = record {
  served = [];
  queue = refl;
  scheduled = sym (append-nil ready);
  taken = omega arith;
  same_max = refl;
  within = fits;
  blocked = tt;
}
wake_lem s (w ∷ ws) ready fits small (x, h) = elim (Bool-cases (would_block s w.units)) [
  | inl e ↦ rw e (record {
    served = [];
    queue = refl;
    scheduled = sym (append-nil ready);
    taken = omega arith;
    same_max = refl;
    within = fits;
    blocked = would_block-true s w.units fits small (omega arith) e;
  })
  | inr e ↦
      let room : s.current_parallelism + w.units ≤ s.max_parallelism =
        would_block-false s w.units fits small (omega arith) e in
      rw e (
        Served-cons s w ws ready _ room small
          (wake_lem (take_units s w.units) ws (ready ++ w ∷ []) (omega arith) small h))
]

-- The semaphore when the units are given back and no waiter is served yet.
abbrev pub less : Semaphore → ℕ → Semaphore
less s units = record s { current_parallelism = s.current_parallelism - units }

-- Where no more units are given back than are taken, no more are taken than the maximum, which is
-- below 2^63, and every waiter asks for at most the maximum, `free_units` gives the units back and
-- serves waiters in the order in which they came, up to the first whose units are still too many:
-- these are taken and their coroutines scheduled, the others wait on, and no more than the maximum
-- is taken.
pub free_units_lem :
    (s : Semaphore) (units : ℕ) (ready : List HolderAwaiter)
    → units ≤ s.current_parallelism
    → s.current_parallelism ≤ s.max_parallelism
    → s.max_parallelism < 2 ^ 63
    → All (IsAskable s.max_parallelism) s.waiters
    → Served (less s units) s.waiters ready (free_units s units ready)
unfolding free_units
free_units_lem s units ready some_held fits small h =
    let e : (s.current_parallelism + 2 ^ 64 - units) % 2 ^ 64 ≡ s.current_parallelism - units =
      omega arith in
    rw e (wake_lem (less s units) s.waiters ready (omega arith) small h)
