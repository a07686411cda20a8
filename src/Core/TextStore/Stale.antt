-- ===== src/Core/TextStore/Stale.antt =====
-- packages/core/src/text-store.ts: a lock that is stale is held by no process.
use cere_worker.Prelude.{
  ℕ, zero, suc, ◌+◌, ltb, Bool, true, false, not, Option, none, some, ◌≡◌, refl, sym, ◌∙◌, ap,
  arith,
}
use cere_worker.Core.TextStore.Lock.{
  LockOwner, LockDir, LockOptions, System, Pc, gone, inside, made, is_running, is_stale_owner,
  is_process_alive,
}
use cere_worker.Core.TextStore.Holders.{holds, Owns, IsExclusive, unlocked-none}

-- Whether the tests of `tryReleaseStaleLock` still hold, or the lock is gone.
abbrev pub stale_by : LockOptions → ℕ → System → ℕ → Option LockOwner → Bool
stale_by opts host s mtime none = not (ltb s.now (mtime + opts.stale_ms))
stale_by opts host s mtime (some o) = is_stale_owner opts host o s

abbrev pub is_still_stale : LockOptions → ℕ → System → Option LockDir → Bool
is_still_stale opts host s none = true
is_still_stale opts host s (some d) = stale_by opts host s d.mtime_ms d.owner

module _ (opts : LockOptions) (s : System) (x : IsExclusive opts s) where
  owner-alive :
      (h p : ℕ) (o : LockOwner)
      → s.procs h p ≡ inside
      → o.hostname ≡ h
      → o.pid ≡ p
      → is_process_alive o.hostname o.pid s ≡ true
  owner-alive h zero o at eh ep =
      let none_there = x.no_zero h in
      let same : gone ≡ inside = sym none_there ∙ at in
      let dead : is_running gone ≡ is_running inside = ap is_running same in cc
  owner-alive h (suc p) o at eh ep = rw (eh, ep, at) (ground arith)

  stale-not_held :
      (host h p : ℕ) (pc : Pc) (d : LockDir) (o : Option LockOwner)
      → s.lock ≡ some d
      → d.owner ≡ o
      → stale_by opts host s d.mtime_ms o ≡ true
      → s.procs h p ≡ pc
      → Owns opts s.now s.lock h p pc
      → holds pc ≡ false
  stale-not_held host h p inside d none l e stale at (d', l', (o', e', _, _)) =
      let same : d ≡ d' = ground (arith, l, l') in
      let no_owner : d'.owner ≡ none = rw (← same) e in cc
  stale-not_held host h p inside d (some o) l e stale at (d', l', (o', e', eh, ep)) =
      let same : d ≡ d' = ground (arith, l, l') in
      let owner : d'.owner ≡ some o = rw (← same) e in
      let same_owner : o' ≡ o = ground (arith, owner, e') in
      let alive = owner-alive h p o at (rw (← same_owner) eh) (rw (← same_owner) ep) in
      ground (arith, stale, alive)
  stale-not_held host h p (made t) d none l e stale at (d', l', (e', fresh)) =
      let same : d ≡ d' = ground (arith, l, l') in
      let mtime : d.mtime_ms ≡ d'.mtime_ms = ap (λ y. y.mtime_ms) same in
      ground (arith, stale, fresh, mtime)
  stale-not_held host h p (made t) d (some o) l e stale at (d', l', (e', fresh)) =
      let same : d ≡ d' = ground (arith, l, l') in
      let owner : d'.owner ≡ some o = rw (← same) e in cc
  stale-not_held host h p _ d o l e stale at own = refl

  pub still_stale-none :
      (host : ℕ) (lock : Option LockDir)
      → s.lock ≡ lock
      → is_still_stale opts host s lock ≡ true
      → (h p : ℕ) → holds (s.procs h p) ≡ false
  still_stale-none host none l stale h p = unlocked-none opts s x l h p
  still_stale-none host (some d) l stale h p =
      stale-not_held host h p (s.procs h p) d d.owner l refl stale refl (x.owns h p)
