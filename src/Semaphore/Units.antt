-- ===== src/Semaphore/Units.antt =====
-- The units of a `Semaphore` and of its holders, and `Holder::reset` of Semaphore.cpp.
use mathlib.Core.Path.{subst}
use corosig.Prelude.{
  ℕ, zero, suc, ◌+◌, ◌%◌, ◌^◌, ◌≤◌, ◌<◌, ◌≡◌, refl, ap, ◌∙◌, true, false, List, [], ◌∷◌, ◌++◌, All,
  All-right, ◌==◌, if◌then◌else◌, Bool-cases, inl, inr, arith,
}
use corosig.Semaphore.{
  HolderAwaiter, Holder, Semaphore, System, take_units, free_units, reset, reset_at,
}
use corosig.Semaphore.Wakes.{asked, asked-append, Blocked, IsBlocked, IsAskable, free_units_lem}

-- The units of the holders that are not reset.
abbrev pub held_units : Holder → ℕ
held_units h = if h.held then h.units else 0

abbrev pub live : List Holder → ℕ
live [] = 0
live (h ∷ hs) = held_units h + live hs

-- `others` are the units of further holders.
pub record Inv (others : ℕ) (s : Semaphore) (ready : List HolderAwaiter) (hs : List Holder)
    : Type 0 where
  pub counted : s.current_parallelism ≡ others + (live hs + asked ready)
  pub fits : s.current_parallelism ≤ s.max_parallelism
  pub small : s.max_parallelism < 2 ^ 63
  pub askable : All (IsAskable s.max_parallelism) s.waiters
  pub blocked : IsBlocked s

abbrev pub IsSound : System → Type 0
IsSound y = Inv 0 y.semaphore y.ready y.holders

Blocked-more : (max k n : ℕ) (ws : List HolderAwaiter) → k ≤ n → Blocked max k ws → Blocked max n ws
Blocked-more max k n [] h b = tt
Blocked-more max k n (w ∷ ws) h b = omega arith

pub Blocked-append :
    (max k : ℕ) (ws : List HolderAwaiter) (a : HolderAwaiter)
    → max < k + a.units
    → Blocked max k ws
    → Blocked max k (ws ++ a ∷ [])
Blocked-append max k [] a h b = h
Blocked-append max k (w ∷ ws) a h b = b

-- Taking units for a new holder.
pub take_units-Inv :
    (s : Semaphore) (units : ℕ) (ready : List HolderAwaiter) (hs : List Holder)
    → s.current_parallelism + units ≤ s.max_parallelism
    → Inv 0 s ready hs
    → Inv 0 (take_units s units) ready (record { units = units; held = true } ∷ hs)
unfolding take_units
take_units-Inv s units ready hs room v =
    let e : (s.current_parallelism + units) % 2 ^ 64 ≡ s.current_parallelism + units =
      omega (arith, v.small) in
    rw e (record {
      counted = omega (arith, v.counted);
      fits = room;
      small = v.small;
      askable = v.askable;
      blocked =
          Blocked-more s.max_parallelism s.current_parallelism (s.current_parallelism + units)
            s.waiters (omega arith) v.blocked;
    })

reset-Inv :
    (others : ℕ) (s : Semaphore) (ready : List HolderAwaiter) (h : Holder) (hs : List Holder)
    → Inv others s ready (h ∷ hs)
    → Inv others (reset s ready h).0.0 (reset s ready h).0.1 ((reset s ready h).1 ∷ hs)
unfolding reset
reset-Inv others s ready h hs v = elim (Bool-cases h.held) [
  | inr e ↦ simp e v
  | inl e ↦
      simp e (elim (Bool-cases (h.units == 0)) [ inl z ↦ simp z v | inr z ↦ simp z (freed e) ])
]
  where
    freed :
        h.held ≡ true
        → Inv others
            (free_units s h.units ready).0
            (free_units s h.units ready).1
            (record { units = 0; held = false } ∷ hs)
    freed e =
        let all : s.current_parallelism ≡ others + (h.units + live hs + asked ready) =
          v.counted ∙ rw e refl in
        let t = free_units_lem s h.units ready (omega arith) v.fits v.small v.askable in
        record {
          counted = omega (arith, t.taken, ap asked t.scheduled, asked-append ready t.served);
          fits = t.within;
          small = omega (arith, t.same_max, v.small);
          askable = All-right (IsAskable _) t.served _ (
              subst (All (IsAskable (free_units s h.units ready).0.max_parallelism)) t.queue
                (rw t.same_max v.askable));
          blocked = t.blocked;
        }

pub reset_at-Inv :
    (others i : ℕ) (s : Semaphore) (ready : List HolderAwaiter) (hs : List Holder)
    → Inv others s ready hs
    → Inv others (reset_at i s ready hs).0.0 (reset_at i s ready hs).0.1 (reset_at i s ready hs).1
unfolding reset_at
reset_at-Inv others i s ready [] v = v
reset_at-Inv others zero s ready (h ∷ hs) v = reset-Inv others s ready h hs v
reset_at-Inv others (suc i) s ready (h ∷ hs) v =
    let t = reset_at-Inv (others + held_units h) i s ready hs (record {
      counted = omega (arith, v.counted);
      fits = v.fits;
      small = v.small;
      askable = v.askable;
      blocked = v.blocked;
    }) in
    record {
      counted = omega (arith, t.counted);
      fits = t.fits;
      small = t.small;
      askable = t.askable;
      blocked = t.blocked;
    }
