-- ===== src/Core/TextStore/Exclusion.antt =====
-- packages/core/src/text-store.ts: no two processes are in `fn` at a time, where nothing comes between
-- the tests of a stale lock and its removal.
use cere_worker.Prelude.{ℕ, ◌+◌, ◌<◌, some, List, [], ◌∷◌, ◌≡◌, refl, ap}
use cere_worker.Core.TextStore.Lock.{
  LockDir, LockOptions, System, Pc, gone, inside, made, Event, advancing, beginning, write_failing,
  spawning, crashing, passing, step, steps, nothing_runs,
}
use cere_worker.Core.TextStore.Holders.{holds, Owns, IsExclusive, keep-IsExclusive}
use cere_worker.Core.TextStore.Places.{
  IsTimelyAt, advance_from-IsExclusive, begin_from-IsExclusive, fail_from-IsExclusive,
  spawn_from-IsExclusive,
}

-- A stale lock is removed while it is stale still, and a process that has made the directory writes
-- the owner before the lock is as old as a stale one.
abbrev pub IsTimely : LockOptions → Event → System → Type 0
IsTimely opts e s = elim e [
  | advancing host pid ↦ IsTimelyAt opts host s (s.procs host pid)
  | passing n ↦
      (host pid t : ℕ) (d : LockDir)
      → s.procs host pid ≡ made t
      → s.lock ≡ some d
      → s.now + n < d.mtime_ms + opts.stale_ms
  | _ ↦ Unit
]

abbrev pub AreTimely : LockOptions → List Event → System → Type 0
AreTimely opts [] s = Unit
AreTimely opts (e ∷ events) s = IsTimely opts e s × AreTimely opts events (step opts e s)

-- As time passes, what the lock is to its holder stays as it is.
Owns-passing :
    (opts : LockOptions) (s : System) (n host pid : ℕ) (pc : Pc)
    → ((t : ℕ) (d : LockDir)
        → pc ≡ made t
        → s.lock ≡ some d
        → s.now + n < d.mtime_ms + opts.stale_ms)
    → Owns opts s.now s.lock host pid pc
    → Owns opts (s.now + n) s.lock host pid pc
Owns-passing opts s n host pid (made t) timely (d, l, (none_yet, fresh)) =
    (d, l, (none_yet, timely t d refl l))
Owns-passing opts s n host pid _ timely own = own

step-IsExclusive :
    (opts : LockOptions) (e : Event) (s : System)
    → 0 < opts.stale_ms
    → IsTimely opts e s
    → IsExclusive opts s
    → IsExclusive opts (step opts e s)
unfolding step
step-IsExclusive opts (advancing host pid) s pos timely x =
    advance_from-IsExclusive opts s x host pid (s.procs host pid) pos refl timely
step-IsExclusive opts (beginning host pid) s pos timely x =
    begin_from-IsExclusive opts s x host pid (s.procs host pid) refl
step-IsExclusive opts (write_failing host pid) s pos timely x =
    fail_from-IsExclusive opts s x host pid (s.procs host pid) refl
step-IsExclusive opts (spawning host pid) s pos timely x =
    spawn_from-IsExclusive opts s x host pid (s.procs host pid) refl
step-IsExclusive opts (crashing host pid) s pos timely x =
    keep-IsExclusive opts s host pid gone (λ z. refl) refl x
step-IsExclusive opts (passing n) s pos timely x = record {
  no_zero = x.no_zero;
  unique = x.unique;
  owns = λ h p. Owns-passing opts s n h p (s.procs h p) (λ t d. timely h p t d) (x.owns h p);
}

steps-IsExclusive :
    (opts : LockOptions) (events : List Event) (s : System)
    → 0 < opts.stale_ms
    → AreTimely opts events s
    → IsExclusive opts s
    → IsExclusive opts (steps opts events s)
unfolding steps
steps-IsExclusive opts [] s pos timely x = x
steps-IsExclusive opts (e ∷ events) s pos (timely, later) x =
    steps-IsExclusive opts events (step opts e s) pos later (step-IsExclusive opts e s pos timely x)

nothing_runs-IsExclusive : (opts : LockOptions) (now : ℕ) → IsExclusive opts (nothing_runs now)
nothing_runs-IsExclusive opts now = record {
  no_zero = λ h. refl;
  unique = λ h p h' p' m m'. cc;
  owns = λ h p. tt;
}

-- Mutual exclusion: over any steps of any processes on any hosts, crashes and failed writes among them,
-- two that are in `fn` at a time are the same one, if each stale lock is stale still when it is removed
-- and each process that has made the directory writes the owner, or ends, before the lock is as old as a
-- stale one.
pub steps-exclusive :
    (opts : LockOptions) (events : List Event) (now h p h' p' : ℕ)
    → 0 < opts.stale_ms
    → AreTimely opts events (nothing_runs now)
    → (steps opts events (nothing_runs now)).procs h p ≡ inside
    → (steps opts events (nothing_runs now)).procs h' p' ≡ inside
    → (h ≡ h') × (p ≡ p')
steps-exclusive opts events now h p h' p' pos timely at at' =
    let x =
      steps-IsExclusive opts events (nothing_runs now) pos timely
        (nothing_runs-IsExclusive opts now) in
    x.unique h p h' p' (ap holds at) (ap holds at')
