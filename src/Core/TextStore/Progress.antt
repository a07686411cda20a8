-- ===== src/Core/TextStore/Progress.antt =====
-- packages/core/src/text-store.ts: a process gets a lock that is free or stale.
use cere_worker.Prelude.{
  ℕ, zero, suc, ◌≤◌, if◌then◌else◌, Bool, true, false, Option, none, some, List, [], ◌∷◌, ◌≡◌, refl,
  sym, subst, ◌∙◌, ap, arith, Bool-cases, inl, inr,
}
use cere_worker.Core.TextStore.Lock.{
  LockOwner, LockDir, LockOptions, System, Pc, inside, trying, made, checking, reading, aging,
  removing, waiting, is_running, is_process_alive, is_at, owner_of, go_to, is_stale_owner, is_old,
  advance_from, advance, advancing, steps, make, read_owner, stat_dir, exists_dir, remove,
}
use cere_worker.Core.TextStore.Stale.{stale_by, is_still_stale}

abbrev pub repeat {ℓ} : {A : Type ℓ} → ℕ → A → List A
repeat zero a = []
repeat (suc n) a = a ∷ repeat n a

at-go_to : (host pid : ℕ) (pc : Pc) (s : System) → (go_to host pid pc s).procs host pid ≡ pc
unfolding go_to
at-go_to host pid pc s = let here : is_at host pid host pid ≡ true = ground arith in rw here refl

-- Where a running process goes on running, the same processes are alive.
alive-go_to :
    (host pid : ℕ) (pc : Pc) (s : System) (h p : ℕ)
    → is_running (s.procs host pid) ≡ true
    → is_running pc ≡ true
    → is_process_alive h p (go_to host pid pc s) ≡ is_process_alive h p s
unfolding go_to
alive-go_to host pid pc s h p r r' = elim (Bool-cases (is_at host pid h p)) [
  | inl a ↦
      let eh : h ≡ host = ground (arith, a) in
      let ep : p ≡ pid = ground (arith, a) in rw (a, r', eh, ep, r) refl
  | inr a ↦ rw a refl
]

module _ (opts : LockOptions) (host pid : ℕ) where
  goes :
      (s : System) (pc : Pc)
      → s.procs host pid ≡ pc
      → advance opts host pid s ≡ advance_from opts host pid s pc
  unfolding advance
  goes s pc e = ap (advance_from opts host pid s) e

  -- The places of a run of the process alone, with the lock as it finds it.
  data Run : System → ℕ → Type 0 where
    arrived : (s : System) → s.procs host pid ≡ inside → Run s 0
    goes_on : (s : System) (n : ℕ) → Run (advance opts host pid s) n → Run s (suc n)

  Run-inside :
      (s : System) (n : ℕ)
      → Run s n
      → (steps opts (repeat n (advancing host pid)) s).procs host pid ≡ inside
  unfolding steps
  Run-inside s _ (arrived _ e) = e
  Run-inside s _ (goes_on _ n r) = Run-inside (advance opts host pid s) n r

  goes_from :
      (s : System) (n : ℕ) (pc : Pc)
      → s.procs host pid ≡ pc
      → Run (advance_from opts host pid s pc) n
      → Run s (suc n)
  goes_from s n pc e r = goes_on s n (rw (goes s pc e) r)

  from_made :
      (s : System) (t : ℕ) (d : LockDir) → s.procs host pid ≡ made t → s.lock ≡ some d → Run s 1
  from_made s t d e l = goes_from s 0 (made t) e (rw l (arrived _ (at-go_to host pid inside _)))

  from_make :
      (s : System) (t : ℕ) (lock : Option LockDir) → lock ≡ none → Run (make host pid t s lock) 1
  unfolding go_to
  from_make s t none e =
      let free : System = record s { lock = some (record { mtime_ms = s.now; owner = none }) } in
      from_made (go_to host pid (made t) free) t _ (at-go_to host pid (made t) free) refl
  from_make s t (some d) e = cc

  from_free : (s : System) (t : ℕ) → s.procs host pid ≡ trying t → s.lock ≡ none → Run s 2
  from_free s t e l = goes_from s 1 (trying t) e (from_make s t s.lock l)

  from_removing : (s : System) (t : ℕ) → s.procs host pid ≡ removing t → Run s 3
  unfolding go_to
  from_removing s t e =
      let freed = go_to host pid (trying t) (remove s) in
      goes_from s 2 (removing t) e
        (from_free freed t (at-go_to host pid (trying t) (remove s)) refl)

  -- After a test that is passed, the lock is removed.
  from_test :
      (s : System) (t : ℕ) (b : Bool) (pc : Pc)
      → b ≡ true
      → Run (go_to host pid (if b then removing t else pc) s) 3
  from_test s t true pc h =
      from_removing (go_to host pid (removing t) s) t (at-go_to host pid (removing t) s)
  from_test s t false pc h = cc

  from_aging :
      (s : System) (t : ℕ) (d : LockDir)
      → s.procs host pid ≡ aging t
      → s.lock ≡ some d
      → is_old opts d s ≡ true
      → Run s 4
  from_aging s t d e l old = goes_from s 3 (aging t) e (stats s.lock l)
    where
      stats : (lock : Option LockDir) → lock ≡ some d → Run (stat_dir opts host pid t s lock) 3
      stats none l = cc
      stats (some d') l =
          let same : d ≡ d' = ground (arith, l) in
          from_test s t (is_old opts d' s) (waiting t) (rw (← same) old)

  from_reading :
      (s : System) (t : ℕ) (d : LockDir) (o : Option LockOwner)
      → s.procs host pid ≡ reading t
      → s.lock ≡ some d
      → d.owner ≡ o
      → stale_by opts host s d.mtime_ms o ≡ true
      → (n : ℕ) × (n ≤ 5) × Run s n
  unfolding go_to
  from_reading s t d none e l no_owner old =
      let next = go_to host pid (aging t) s in
      let reads : Run (read_owner opts host pid t s (owner_of s.lock)) 4 =
        subst (λ o. Run (read_owner opts host pid t s o) 4) (sym (ap owner_of l ∙ no_owner))
          (from_aging next t d (at-go_to host pid (aging t) s) l old) in
      (5, omega arith, goes_from s 4 (reading t) e reads)
  from_reading s t d (some o) e l owner stale =
      let reads : Run (read_owner opts host pid t s (owner_of s.lock)) 3 =
        subst (λ o. Run (read_owner opts host pid t s o) 3) (sym (ap owner_of l ∙ owner))
          (from_test s t (is_stale_owner opts host o s) (waiting t) stale) in
      (4, omega arith, goes_from s 3 (reading t) e reads)

  -- The tests of a stale lock are as before where the process goes on running.
  stale_by-go_to :
      (s : System) (pc : Pc) (mtime : ℕ) (o : Option LockOwner)
      → is_running (s.procs host pid) ≡ true
      → is_running pc ≡ true
      → stale_by opts host s mtime o ≡ true
      → stale_by opts host (go_to host pid pc s) mtime o ≡ true
  unfolding go_to
  stale_by-go_to s pc mtime none r r' h = h
  stale_by-go_to s pc mtime (some o) r r' h =
      let same = alive-go_to host pid pc s o.hostname o.pid r r' in rw same h

  from_stale :
      (s : System) (t : ℕ) (lock : Option LockDir)
      → s.procs host pid ≡ trying t
      → s.lock ≡ lock
      → is_still_stale opts host s lock ≡ true
      → (n : ℕ) × (n ≤ 7) × Run s n
  unfolding go_to
  from_stale s t none e l h = (2, omega arith, from_free s t e l)
  from_stale s t (some d) e l h =
      let running : is_running (s.procs host pid) ≡ true = rw e refl in
      let checks = go_to host pid (checking t) s in
      let checks_at : checks.procs host pid ≡ checking t = at-go_to host pid (checking t) s in
      let checks_run : is_running (checks.procs host pid) ≡ true = rw checks_at refl in
      let reads = go_to host pid (reading t) checks in
      let still =
        stale_by-go_to checks (reading t) d.mtime_ms d.owner checks_run refl
          (stale_by-go_to s (checking t) d.mtime_ms d.owner running refl h) in
      let (n, le, run) =
        from_reading reads t d d.owner (at-go_to host pid (reading t) checks) l refl still in
      let tests : Run (exists_dir host pid t checks checks.lock) n =
        subst (λ x. Run (exists_dir host pid t checks x) n) (sym l) run in
      let makes : Run (make host pid t s s.lock) (suc n) =
        subst (λ x. Run (make host pid t s x) (suc n)) (sym l)
          (goes_from checks n (checking t) checks_at tests) in
      (suc (suc n), omega (arith, le), goes_from s (suc n) (trying t) e makes)

-- Progress: a process that has called `withTextStoreLock` and takes its steps with no other between
-- them is in `fn` after at most seven of them, if there is no lock, if the lock is old and has no owner,
-- or if its owner is a process of the same host that is not alive and took it long enough ago.
pub steps-gets_lock :
    (opts : LockOptions) (host pid t : ℕ) (s : System)
    → s.procs host pid ≡ trying t
    → is_still_stale opts host s s.lock ≡ true
    → (n : ℕ) × (n ≤ 7) × ((steps opts (repeat n (advancing host pid)) s).procs host pid ≡ inside)
steps-gets_lock opts host pid t s e h =
    let (n, le, run) = from_stale opts host pid s t s.lock e refl h in
    (n, le, Run-inside opts host pid s n run)
