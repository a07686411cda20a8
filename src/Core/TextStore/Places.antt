-- ===== src/Core/TextStore/Places.antt =====
-- packages/core/src/text-store.ts: each step of a process keeps the lock for one holder.
use cere_worker.Prelude.{
  ℕ, ◌+◌, ◌<◌, ltb, leb, if◌then◌else◌, Bool, true, false, Option, none, some, ◌≡◌, refl, ◌∙◌, ap,
  arith, Bool-cases, inl, inr,
}
use cere_worker.Core.TextStore.Lock.{
  LockOwner, LockDir, LockOptions, System, Pc, gone, inside, out, trying, made, checking, reading,
  aging, removing, waiting, sleeping, is_running, go_to, is_stale_owner, is_old, make, write_owner,
  read_owner, owner_of, stat_dir, exists_dir, advance_from, begin_from, fail_from, spawn_from,
  threw, returned, store_busy,
}
use cere_worker.Core.TextStore.Holders.{
  holds, Owns, IsExclusive, NoOther, keep-IsExclusive, take-IsExclusive, unlocked-none,
  holder-NoOther, running-not_zero,
}
use cere_worker.Core.TextStore.Stale.{is_still_stale, still_stale-none}

-- The removal of a stale lock finds it stale still.
abbrev pub IsTimelyAt : LockOptions → ℕ → System → Pc → Type 0
IsTimelyAt opts host s pc = elim pc [
  | removing t ↦ is_still_stale opts host s s.lock ≡ true
  | _ ↦ Unit
]

module _ (opts : LockOptions) (s : System) (x : IsExclusive opts s) (host pid : ℕ) where
  -- Another place of a process that is running, where it does not hold the lock.
  moves :
      (pc pc' : Pc)
      → s.procs host pid ≡ pc
      → is_running pc ≡ true
      → holds pc' ≡ false
      → IsExclusive opts (go_to host pid pc' s)
  moves pc pc' e r n =
      keep-IsExclusive opts s host pid pc' (running-not_zero opts s x host pid pc pc' e r) n x

  if-moves :
      (pc : Pc) (b : Bool) (pc' pc'' : Pc)
      → s.procs host pid ≡ pc
      → is_running pc ≡ true
      → holds pc' ≡ false
      → holds pc'' ≡ false
      → IsExclusive opts (go_to host pid (if b then pc' else pc'') s)
  if-moves pc true pc' pc'' e r n n' = moves pc pc' e r n
  if-moves pc false pc' pc'' e r n n' = moves pc pc'' e r n'

  -- What the process does with the lock, when no other holds it.
  places :
      (pc pc' : Pc) (lock : Option LockDir)
      → s.procs host pid ≡ pc
      → is_running pc ≡ true
      → NoOther s host pid
      → Owns opts s.now lock host pid pc'
      → IsExclusive opts (go_to host pid pc' (record s { lock = lock }))
  places pc pc' lock e r alone own =
      take-IsExclusive opts (record s { lock = lock }) host pid pc'
        (running-not_zero opts s x host pid pc pc' e r) x.no_zero alone own

  its_own : (pc : Pc) → s.procs host pid ≡ pc → holds pc ≡ true → NoOther s host pid
  its_own pc e h = holder-NoOther opts s x host pid (ap holds e ∙ h)

  read_owner-IsExclusive :
      (t : ℕ) (o : Option LockOwner)
      → s.procs host pid ≡ reading t
      → IsExclusive opts (read_owner opts host pid t s o)
  read_owner-IsExclusive t none e = moves (reading t) _ e refl refl
  read_owner-IsExclusive t (some o) e =
      if-moves (reading t) (is_stale_owner opts host o s) (removing t) (waiting t) e refl refl refl

  stat_dir-IsExclusive :
      (t : ℕ) (lock : Option LockDir)
      → s.procs host pid ≡ aging t
      → IsExclusive opts (stat_dir opts host pid t s lock)
  stat_dir-IsExclusive t none e = moves (aging t) _ e refl refl
  stat_dir-IsExclusive t (some d) e =
      if-moves (aging t) (is_old opts d s) (removing t) (waiting t) e refl refl refl

  exists_dir-IsExclusive :
      (t : ℕ) (lock : Option LockDir)
      → s.procs host pid ≡ checking t
      → IsExclusive opts (exists_dir host pid t s lock)
  exists_dir-IsExclusive t none e = moves (checking t) _ e refl refl
  exists_dir-IsExclusive t (some d) e = moves (checking t) _ e refl refl

  make-IsExclusive :
      (t : ℕ) (lock : Option LockDir)
      → 0 < opts.stale_ms
      → s.procs host pid ≡ trying t
      → s.lock ≡ lock
      → IsExclusive opts (make host pid t s lock)
  make-IsExclusive t none pos e l =
      places (trying t) (made t) _ e refl (λ h p a. unlocked-none opts s x l h p)
        (_, refl, (refl, omega (arith, pos)))
  make-IsExclusive t (some d) pos e l = moves (trying t) _ e refl refl

  write_owner-IsExclusive :
      (t : ℕ) (lock : Option LockDir)
      → s.procs host pid ≡ made t
      → IsExclusive opts (write_owner host pid s lock)
  write_owner-IsExclusive t none e = moves (made t) _ e refl refl
  write_owner-IsExclusive t (some d) e =
      places (made t) inside _ e refl (its_own (made t) e refl) (_, refl, (_, refl, refl, refl))

  pub advance_from-IsExclusive :
      (pc : Pc)
      → 0 < opts.stale_ms
      → s.procs host pid ≡ pc
      → IsTimelyAt opts host s pc
      → IsExclusive opts (advance_from opts host pid s pc)
  advance_from-IsExclusive gone pos e timely = x
  advance_from-IsExclusive (out outcome) pos e timely = x
  advance_from-IsExclusive (trying t) pos e timely = make-IsExclusive t s.lock pos e refl
  advance_from-IsExclusive (made t) pos e timely = write_owner-IsExclusive t s.lock e
  advance_from-IsExclusive (checking t) pos e timely = exists_dir-IsExclusive t s.lock e
  advance_from-IsExclusive (reading t) pos e timely = read_owner-IsExclusive t (owner_of s.lock) e
  advance_from-IsExclusive (aging t) pos e timely = stat_dir-IsExclusive t s.lock e
  advance_from-IsExclusive (removing t) pos e timely =
      places (removing t) (trying t) none e refl
        (λ h p a. still_stale-none opts s x host s.lock refl timely h p) tt
  advance_from-IsExclusive (waiting t) pos e timely =
      if-moves (waiting t) (leb (t + opts.timeout_ms) s.now) (out store_busy) _ e refl refl refl
  advance_from-IsExclusive (sleeping t until) pos e timely = elim (Bool-cases (ltb s.now until)) [
    | inl b ↦ rw b x
    | inr b ↦ rw b (moves (sleeping t until) (trying t) e refl refl)
  ]
  advance_from-IsExclusive inside pos e timely =
      places inside (out returned) none e refl (its_own inside e refl) tt

  pub begin_from-IsExclusive :
      (pc : Pc) → s.procs host pid ≡ pc → IsExclusive opts (begin_from host pid s pc)
  begin_from-IsExclusive (out outcome) e = moves (out outcome) (trying s.now) e refl refl
  begin_from-IsExclusive _ e = x

  pub fail_from-IsExclusive :
      (pc : Pc) → s.procs host pid ≡ pc → IsExclusive opts (fail_from host pid s pc)
  fail_from-IsExclusive (made t) e =
      places (made t) (out threw) none e refl (its_own (made t) e refl) tt
  fail_from-IsExclusive _ e = x

  pub spawn_from-IsExclusive :
      (pc : Pc) → s.procs host pid ≡ pc → IsExclusive opts (spawn_from host pid s pc)
  spawn_from-IsExclusive gone e = elim (Bool-cases (leb pid 0)) [
    | inl z ↦ rw z x
    | inr nz ↦
        rw nz (keep-IsExclusive opts s host pid _ (λ z. absurd (ground (arith, nz, z))) refl x)
  ]
  spawn_from-IsExclusive _ e = x
