-- ===== src/Core/TextStore/Lock.antt =====
-- packages/core/src/text-store.ts: `withTextStoreLock` of processes on several hosts, one step for each
-- call of the file system. A process is a host and a process id; it is in one call at a time, as the
-- call is synchronous. All hosts read the same clock. Paths other than the lock's are left out. A test of
-- an age is one of the sum, as an age may be negative.
use cere_worker.Prelude.{
  ℕ, ◌+◌, ◌-◌, min, leb, ltb, ◌==◌, if◌then◌else◌, Bool, true, false, not, ◌&&◌, Option, none, some,
  List, [], ◌∷◌,
}

pub record LockOwner : Type 0 where
  pub pid : ℕ
  pub hostname : ℕ
  pub acquired_at : ℕ

-- The directory of the lock, with the file of its owner.
pub record LockDir : Type 0 where
  pub mtime_ms : ℕ
  pub owner : Option LockOwner

pub data Outcome : Type 0 where
  none_yet returned store_busy threw : Outcome

-- Where a process is: out of the call; before `mkdirSync`, before the owner is written; before
-- `existsSync`, `readLockOwner`, `statSync` and `rmSync` of `tryReleaseStaleLock`; before the test of the
-- time, asleep until a time; in `fn`. A number is the `startedAt` of the call.
pub data Pc : Type 0 where
  gone inside : Pc
  out : Outcome → Pc
  trying made checking reading aging removing waiting : ℕ → Pc
  sleeping : ℕ → ℕ → Pc

pub record LockOptions : Type 0 where
  pub timeout_ms : ℕ
  pub poll_ms : ℕ
  pub stale_ms : ℕ

pub record System : Type 0 where
  pub now : ℕ
  pub lock : Option LockDir
  pub procs : ℕ → ℕ → Pc

abbrev pub default_options : LockOptions
default_options = record { timeout_ms = 2000; poll_ms = 100; stale_ms = 30000 }

abbrev pub is_running : Pc → Bool
is_running pc = elim pc [ gone ↦ false | _ ↦ true ]

-- `process.kill(pid, 0)` on the host.
abbrev pub is_process_alive : ℕ → ℕ → System → Bool
is_process_alive host pid s = if leb pid 0 then false else is_running (s.procs host pid)

abbrev pub is_at : ℕ → ℕ → ℕ → ℕ → Bool
is_at host pid h p = h == host && p == pid

unfoldable pub go_to : ℕ → ℕ → Pc → System → System
go_to host pid pc s = record s { procs = λ h p. if is_at host pid h p then pc else s.procs h p }

-- The tests of `tryReleaseStaleLock` on an owner.
abbrev pub is_stale_owner : LockOptions → ℕ → LockOwner → System → Bool
is_stale_owner opts host o s =
    not (ltb s.now (o.acquired_at + opts.stale_ms))
    && o.hostname == host
    && not (is_process_alive o.hostname o.pid s)

abbrev pub is_old : LockOptions → LockDir → System → Bool
is_old opts d s = not (ltb s.now (d.mtime_ms + opts.stale_ms))

-- `mkdirSync`
abbrev pub make : ℕ → ℕ → ℕ → System → Option LockDir → System
make host pid t s none =
    go_to host pid (made t) (record s { lock = some (record { mtime_ms = s.now; owner = none }) })
make host pid t s (some d) = go_to host pid (checking t) s

-- The write of the owner fails where the directory is gone; the directory's time is that of the write.
abbrev pub write_owner : ℕ → ℕ → System → Option LockDir → System
write_owner host pid s none = go_to host pid (out threw) s
write_owner host pid s (some d) =
    let owner : LockOwner = record { pid = pid; hostname = host; acquired_at = s.now } in
    go_to host pid inside
      (record s { lock = some (record { mtime_ms = s.now; owner = some owner }) })

abbrev pub read_owner : LockOptions → ℕ → ℕ → ℕ → System → Option LockOwner → System
read_owner opts host pid t s none = go_to host pid (aging t) s
read_owner opts host pid t s (some o) =
    go_to host pid (if is_stale_owner opts host o s then removing t else waiting t) s

abbrev pub owner_of : Option LockDir → Option LockOwner
owner_of none = none
owner_of (some d) = d.owner

-- `statSync` throws where the directory is gone.
abbrev pub stat_dir : LockOptions → ℕ → ℕ → ℕ → System → Option LockDir → System
stat_dir opts host pid t s none = go_to host pid (out threw) s
stat_dir opts host pid t s (some d) =
    go_to host pid (if is_old opts d s then removing t else waiting t) s

abbrev pub exists_dir : ℕ → ℕ → ℕ → System → Option LockDir → System
exists_dir host pid t s none = go_to host pid (waiting t) s
exists_dir host pid t s (some d) = go_to host pid (reading t) s

-- The test of the time, with the sleep that follows.
abbrev pub wait_or_fail : LockOptions → ℕ → ℕ → Pc
wait_or_fail opts t now =
    if leb (t + opts.timeout_ms) now
    then out store_busy
    else sleeping t (now + min opts.poll_ms (t + opts.timeout_ms - now))

-- `rmSync`, with `force`
abbrev pub remove : System → System
remove s = record s { lock = none }

-- The next step of a process, from where it is.
abbrev pub advance_from : LockOptions → ℕ → ℕ → System → Pc → System
advance_from opts host pid s gone = s
advance_from opts host pid s (out outcome) = s
advance_from opts host pid s (trying t) = make host pid t s s.lock
advance_from opts host pid s (made t) = write_owner host pid s s.lock
advance_from opts host pid s (checking t) = exists_dir host pid t s s.lock
advance_from opts host pid s (reading t) = read_owner opts host pid t s (owner_of s.lock)
advance_from opts host pid s (aging t) = stat_dir opts host pid t s s.lock
advance_from opts host pid s (removing t) = go_to host pid (trying t) (remove s)
advance_from opts host pid s (waiting t) = go_to host pid (wait_or_fail opts t s.now) s
advance_from opts host pid s (sleeping t until) =
    if ltb s.now until then s else go_to host pid (trying t) s
advance_from opts host pid s inside = go_to host pid (out returned) (remove s)

unfoldable pub advance : LockOptions → ℕ → ℕ → System → System
unfolding go_to
advance opts host pid s = advance_from opts host pid s (s.procs host pid)

-- The call of `withTextStoreLock`.
abbrev pub begin_from : ℕ → ℕ → System → Pc → System
begin_from host pid s (out outcome) = go_to host pid (trying s.now) s
begin_from host pid s _ = s

-- The write of the owner fails for a reason of its own: the directory is removed, the error thrown.
abbrev pub fail_from : ℕ → ℕ → System → Pc → System
fail_from host pid s (made t) = go_to host pid (out threw) (remove s)
fail_from host pid s _ = s

abbrev pub spawn_from : ℕ → ℕ → System → Pc → System
spawn_from host pid s gone = if leb pid 0 then s else go_to host pid (out none_yet) s
spawn_from host pid s _ = s

pub data Event : Type 0 where
  advancing beginning write_failing spawning crashing : ℕ → ℕ → Event
  passing : ℕ → Event

unfoldable pub step : LockOptions → Event → System → System
unfolding advance
step opts (advancing host pid) s = advance opts host pid s
step opts (beginning host pid) s = begin_from host pid s (s.procs host pid)
step opts (write_failing host pid) s = fail_from host pid s (s.procs host pid)
step opts (spawning host pid) s = spawn_from host pid s (s.procs host pid)
step opts (crashing host pid) s = go_to host pid gone s
step opts (passing n) s = record s { now = s.now + n }

unfoldable pub steps : LockOptions → List Event → System → System
unfolding step
steps opts [] s = s
steps opts (e ∷ events) s = steps opts events (step opts e s)

-- No process, no lock.
abbrev pub nothing_runs : ℕ → System
nothing_runs now = record { now = now; lock = none; procs = λ host pid. gone }
