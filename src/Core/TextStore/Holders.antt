-- ===== src/Core/TextStore/Holders.antt =====
-- packages/core/src/text-store.ts: which process holds the lock, and what the lock is to it.
use cere_worker.Prelude.{
  ℕ, ◌+◌, ◌<◌, Bool, true, false, Option, none, some, ◌≡◌, refl, sym, ◌∙◌, arith, Bool-cases, inl,
  inr,
}
use cere_worker.Core.TextStore.Lock.{
  LockOwner, LockDir, LockOptions, System, Pc, gone, inside, out, trying, made, checking, reading,
  aging, removing, waiting, sleeping, is_running, is_at, go_to,
}

-- It has made the directory, and not removed it since.
abbrev pub holds : Pc → Bool
holds pc = elim pc [ inside ↦ true | made t ↦ true | _ ↦ false ]

abbrev pub IsOwnedBy : ℕ → ℕ → LockDir → Type 0
IsOwnedBy host pid d = (o : LockOwner) × (d.owner ≡ some o) × (o.hostname ≡ host) × (o.pid ≡ pid)

abbrev pub IsFresh : LockOptions → ℕ → LockDir → Type 0
IsFresh opts now d = (d.owner ≡ none) × (now < d.mtime_ms + opts.stale_ms)

-- What the lock is to a process at a place.
abbrev pub Owns : LockOptions → ℕ → Option LockDir → ℕ → ℕ → Pc → Type 0
Owns opts now lock host pid pc = elim pc [
  | inside ↦ (d : LockDir) × (lock ≡ some d) × IsOwnedBy host pid d
  | made t ↦ (d : LockDir) × (lock ≡ some d) × IsFresh opts now d
  | _ ↦ Unit
]

pub record IsExclusive (opts : LockOptions) (s : System) : Type 0 where
  pub no_zero : (h : ℕ) → s.procs h 0 ≡ gone
  pub unique :
      (h p h' p' : ℕ)
      → holds (s.procs h p) ≡ true
      → holds (s.procs h' p') ≡ true
      → (h ≡ h') × (p ≡ p')
  pub owns : (h p : ℕ) → Owns opts s.now s.lock h p (s.procs h p)

-- No process holds the lock but, perhaps, the given one.
abbrev pub NoOther : System → ℕ → ℕ → Type 0
NoOther s host pid = (h p : ℕ) → is_at host pid h p ≡ false → holds (s.procs h p) ≡ false

is_at-eq : (host pid h p : ℕ) → is_at host pid h p ≡ true → (h ≡ host) × (p ≡ pid)
is_at-eq host pid h p e = (ground arith, ground arith)

Owns-not :
    (opts : LockOptions) (now : ℕ) (lock : Option LockDir) (host pid : ℕ) (pc : Pc)
    → holds pc ≡ false
    → Owns opts now lock host pid pc
Owns-not opts now lock host pid inside h = cc
Owns-not opts now lock host pid (made t) h = cc
Owns-not opts now lock host pid gone h = tt
Owns-not opts now lock host pid (out outcome) h = tt
Owns-not opts now lock host pid (trying t) h = tt
Owns-not opts now lock host pid (checking t) h = tt
Owns-not opts now lock host pid (reading t) h = tt
Owns-not opts now lock host pid (aging t) h = tt
Owns-not opts now lock host pid (removing t) h = tt
Owns-not opts now lock host pid (waiting t) h = tt
Owns-not opts now lock host pid (sleeping t until) h = tt

module _ (opts : LockOptions) where
  -- A process goes to a place where it holds the lock only if no other does.
  placed-IsExclusive :
      (s : System) (host pid : ℕ) (pc : Pc)
      → (pid ≡ 0 → pc ≡ gone)
      → ((h : ℕ) → s.procs h 0 ≡ gone)
      → ((h p h' p' : ℕ)
          → is_at host pid h p ≡ false
          → holds (s.procs h p) ≡ true
          → holds (s.procs h' p') ≡ true
          → (h ≡ h') × (p ≡ p'))
      → (holds pc ≡ true → NoOther s host pid)
      → ((h p : ℕ) → is_at host pid h p ≡ false → Owns opts s.now s.lock h p (s.procs h p))
      → Owns opts s.now s.lock host pid pc
      → IsExclusive opts (go_to host pid pc s)
  unfolding go_to
  placed-IsExclusive s host pid pc z no_zero apart alone others own = record {
    no_zero = λ h. elim (Bool-cases (is_at host pid h 0)) [
      | inl a ↦ rw a (z (sym (is_at-eq host pid h 0 a).1))
      | inr a ↦ rw a (no_zero h)
    ];
    unique = λ h p h' p' m m'. elim (Bool-cases (is_at host pid h p)) [
      | inl a ↦ elim (Bool-cases (is_at host pid h' p')) [
        | inl b ↦
            let (e, f) = is_at-eq host pid h p a in
            let (e', f') = is_at-eq host pid h' p' b in (e ∙ sym e', f ∙ sym f')
        | inr b ↦
            let mine : holds pc ≡ true = rw a at m in
            let not_his = alone mine h' p' b in
            let his : holds (s.procs h' p') ≡ true = rw b at m' in absurd cc
      ]
      | inr a ↦ elim (Bool-cases (is_at host pid h' p')) [
        | inl b ↦
            let mine : holds pc ≡ true = rw b at m' in
            let not_his = alone mine h p a in
            let his : holds (s.procs h p) ≡ true = rw a at m in absurd cc
        | inr b ↦ apart h p h' p' a (rw a at m) (rw b at m')
      ]
    ];
    owns = λ h p. elim (Bool-cases (is_at host pid h p)) [
      | inl a ↦ let (e, f) = is_at-eq host pid h p a in rw (a, e, f) own
      | inr a ↦ rw a (others h p a)
    ];
  }

  pub keep-IsExclusive :
      (s : System) (host pid : ℕ) (pc : Pc)
      → (pid ≡ 0 → pc ≡ gone)
      → holds pc ≡ false
      → IsExclusive opts s
      → IsExclusive opts (go_to host pid pc s)
  keep-IsExclusive s host pid pc z n x =
      placed-IsExclusive s host pid pc z x.no_zero (λ h p h' p' a. x.unique h p h' p') (λ m. cc)
        (λ h p a. x.owns h p) (Owns-not opts s.now s.lock host pid pc n)

  pub take-IsExclusive :
      (s : System) (host pid : ℕ) (pc : Pc)
      → (pid ≡ 0 → pc ≡ gone)
      → ((h : ℕ) → s.procs h 0 ≡ gone)
      → NoOther s host pid
      → Owns opts s.now s.lock host pid pc
      → IsExclusive opts (go_to host pid pc s)
  take-IsExclusive s host pid pc z no_zero alone own =
      placed-IsExclusive s host pid pc z no_zero
        (λ h p h' p' a m m'. let no = alone h p a in absurd cc) (λ m. alone)
        (λ h p a. Owns-not opts s.now s.lock h p _ (alone h p a)) own

  Owns-lock :
      (now : ℕ) (lock : Option LockDir) (host pid : ℕ) (pc : Pc)
      → Owns opts now lock host pid pc
      → holds pc ≡ true
      → (d : LockDir) × (lock ≡ some d)
  Owns-lock now lock host pid inside (d, e, _) m = (d, e)
  Owns-lock now lock host pid (made t) (d, e, _) m = (d, e)
  Owns-lock now lock host pid _ own m = cc

  module _ (s : System) (x : IsExclusive opts s) where
    pub unlocked-none : (s.lock ≡ none) → (h p : ℕ) → holds (s.procs h p) ≡ false
    unlocked-none e h p = elim (Bool-cases (holds (s.procs h p))) [
      | inl m ↦ let (d, l) = Owns-lock s.now s.lock h p (s.procs h p) (x.owns h p) m in cc
      | inr m ↦ m
    ]

    pub holder-NoOther : (host pid : ℕ) → holds (s.procs host pid) ≡ true → NoOther s host pid
    holder-NoOther host pid m h p a = elim (Bool-cases (holds (s.procs h p))) [
      | inl k ↦ let (e, f) = x.unique h p host pid k m in ground (arith, a, e, f)
      | inr k ↦ k
    ]

    -- A place where a process is running is no place of process 0.
    pub running-not_zero :
        (host pid : ℕ) (pc pc' : Pc)
        → s.procs host pid ≡ pc
        → is_running pc ≡ true
        → pid ≡ 0
        → pc' ≡ gone
    running-not_zero host pid pc pc' e r z =
        let none_there : s.procs host pid ≡ gone = rw z (x.no_zero host) in
        let same : pc ≡ gone = sym e ∙ none_there in
        let dead : is_running pc ≡ false = rw same refl in cc
