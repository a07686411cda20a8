-- ===== src/Core/SubAgents/Invariant.antt =====
-- packages/core/src/sub-agent-manager.ts: each event keeps the agents attended.
use cere_worker.Prelude.{
  ℕ, Text, text_eq_iff, if◌then◌else◌, Bool, true, false, not, ◌||◌, Option, none, some, List, [],
  ◌∷◌, ◌≡◌, refl, sym, ◌∙◌, any, map, find?, find?-sat, find?-none, All-find?, arith, Bool-cases,
  Option-cases, inl, inr, leb, count_if,
}
use cere_worker.Core.SubAgents.{
  SubAgentStatus, pending, running, completed, failed, timed_out, cancelled, SubAgentInstance,
  SessionMeta, save_session_meta, Promise, open_promise, resolved, rejected, Run, Manager,
  SpawnOptions, is_active, is_active_agent, is_cancelled, has_id, stop_found, set_status, abort_run,
  reject_open, spawn, cancel, timeout, retry, retry_found, ping, pinged, prune, is_kept, run_agent,
  new_instance, renewed,
}
use cere_worker.Core.SubAgents.Runs.{
  of_controller, change_found, with_activity, with_tool_call, with_tool_result, with_result,
  settle_promise, resolve_open, on_chunk, on_tool_call, on_tool_result, on_finish, on_error,
  after_run, is_open, remove_run, save_found, settle,
}
use cere_worker.Core.SubAgents.Recovery.{
  report_progress, with_progress, persist_each, persist_all_running, AgentDir, recover_dir,
  recover_dirs, recover_from_disk, resume_dir, recovered_instance, is_expired,
}
use cere_worker.Core.SubAgents.Attended.{Attended, IsAttended}
use cere_worker.Core.SubAgents.Kept.{
  Keeps, start-IsAttended, map-IsAttended, put_agent-IsAttended, update_agent-IsAttended,
  filter-IsAttended, remove-IsAttended, end-IsAttended,
}
use cere_worker.Core.SubAgents.Events.{
  Event, spawning, cancelling, timing_out, retrying, pinging, pruning, chunk, tool_call,
  tool_result, finished, failing, settling, progress, persisting, recovering, perform, perform_all,
  AllAttended,
}

spawn-AllAttended :
    (id conversation_id task : Text) (opts : SpawnOptions) (now : ℕ) (m : Manager)
    → AllAttended m
    → AllAttended (spawn id conversation_id task opts now m).0
unfolding spawn run_agent
spawn-AllAttended id conversation_id task opts now m h =
    elim (Bool-cases (leb m.max_concurrent (count_if is_active_agent m.agents))) [
      | inl full ↦ rw full h
      | inr free ↦ rw free (
          start-IsAttended _ _ (new_instance id conversation_id task opts now m.next_controller) _
            m.runs m.agents refl refl refl h)
    ]

retry-AllAttended :
    (id conversation_id : Text) (now : ℕ) (m : Manager)
    → AllAttended m
    → AllAttended (retry id conversation_id now m).0
unfolding retry run_agent
retry-AllAttended id conversation_id now m h = found (find? (has_id id) m.agents)
  where
    found : (o : Option SubAgentInstance) → AllAttended (retry_found id conversation_id now m o).0
    found none = h
    found (some agent) = elim (Bool-cases (is_active_agent agent)) [
      | inl t ↦ rw t h
      | inr t ↦ rw t (
          start-IsAttended _ _ (renewed conversation_id now m.next_controller agent) _ m.runs
            m.agents refl refl refl h)
    ]

stop-AllAttended :
    (status : SubAgentStatus) (m : Manager) (o : Option SubAgentInstance)
    → is_active status ≡ false
    → AllAttended m
    → AllAttended (stop_found status m o)
stop-AllAttended status m none idle h = h
stop-AllAttended status m (some agent) idle h = elim (Bool-cases (is_active_agent agent)) [
  | inl t ↦
      let stopped = record (set_status status agent) { aborted = true } in
      let mapped =
        map-IsAttended (abort_run agent.controller) m.runs m.agents (keeps agent.controller) h in
      rw t (
        put_agent-IsAttended stopped (map (abort_run agent.controller) m.runs) m.agents
          (rw idle refl) mapped)
  | inr t ↦ rw t h
]
  where
    keeps : (controller : ℕ) (r : Run) → (abort_run controller r).agent_id ≡ r.agent_id
    keeps controller r = ground arith

change-AllAttended :
    (change : SubAgentInstance → SubAgentInstance) (m : Manager) (o : Option Run)
    → Keeps change
    → AllAttended m
    → AllAttended (change_found change m o)
change-AllAttended change m none keeps h = h
change-AllAttended change m (some r) keeps h =
    update_agent-IsAttended m.runs r.agent_id change m.agents keeps h

after_run-idle :
    (p : Promise) (a : SubAgentInstance)
    → is_open p ≡ false
    → is_active_agent (after_run p a) ≡ false
after_run-idle open_promise a h = absurd cc
after_run-idle resolved a h = refl
after_run-idle (rejected message) a h = elim (Bool-cases a.aborted) [
  | inr t ↦ rw t refl
  | inl t ↦ elim (Bool-cases (is_cancelled a.meta.status)) [
    | inl c ↦ rw (t, c) (cancelled_idle a.meta.status c)
    | inr c ↦ rw (t, c) refl
  ]
]
  where
    cancelled_idle : (s : SubAgentStatus) → is_cancelled s ≡ true → is_active s ≡ false
    cancelled_idle cancelled h = refl
    cancelled_idle pending h = absurd cc
    cancelled_idle running h = absurd cc
    cancelled_idle completed h = refl
    cancelled_idle failed h = refl
    cancelled_idle timed_out h = refl

after_run-id : (p : Promise) (a : SubAgentInstance) → (after_run p a).meta.id ≡ a.meta.id
after_run-id open_promise a = refl
after_run-id resolved a = refl
after_run-id (rejected message) a = ground arith

save-AllAttended :
    (controller : ℕ) (r : Run) (m : Manager)
    → find? (of_controller controller) m.runs ≡ some r
    → is_open r.promise ≡ false
    → AllAttended m
    → AllAttended (
        save_found r.promise
          (record m { runs = remove_run controller m.runs })
          (find? (has_id r.agent_id) m.agents))
save-AllAttended controller r m found settled h =
    elim (Option-cases (find? (has_id r.agent_id) m.agents)) [
      | inl no_one ↦ rw no_one (
          remove-IsAttended controller m.runs r m.agents found
            (find?-none (has_id r.agent_id) m.agents no_one) h)
      | inr (a, there) ↦
          let same =
            (text_eq_iff a.meta.id r.agent_id).0 (find?-sat (has_id r.agent_id) m.agents there) in
          rw there (
            end-IsAttended controller m.runs r (after_run r.promise a) m.agents found
              (sym (after_run-id r.promise a ∙ same)) (after_run-idle r.promise a settled) h)
    ]

settle-AllAttended :
    (controller : ℕ) (m : Manager) → AllAttended m → AllAttended (settle controller m)
unfolding settle
settle-AllAttended controller m h = elim (Option-cases (find? (of_controller controller) m.runs)) [
  | inl no_run ↦ rw no_run h
  | inr (r, found) ↦ elim (Bool-cases (is_open r.promise)) [
    | inl t ↦ rw (found, t) h
    | inr t ↦ rw (found, t) (save-AllAttended controller r m found t h)
  ]
]

promises-AllAttended :
    (controller : ℕ) (change : Promise → Promise) (m : Manager)
    → AllAttended m
    → IsAttended (map (settle_promise controller change) m.runs) m.agents
promises-AllAttended controller change m h =
    map-IsAttended (settle_promise controller change) m.runs m.agents (λ r. ground arith) h

finish-AllAttended :
    (controller : ℕ) (content : Text) (m : Manager)
    → AllAttended m
    → AllAttended (on_finish controller content m)
unfolding on_finish
finish-AllAttended controller content m h =
    promises-AllAttended controller resolve_open
      (change_found (with_result content) m (find? (of_controller controller) m.runs))
      (change-AllAttended (with_result content) m (find? (of_controller controller) m.runs)
        (record { id = λ a. refl; active = λ a. refl }) h)

progress-AllAttended :
    (note : Text) (percent : Option ℕ) (now : ℕ) (id : Text) (m : Manager)
    → AllAttended m
    → AllAttended (report_progress id note percent now m)
unfolding report_progress
progress-AllAttended note percent now id m h = elim (Option-cases (find? (has_id id) m.agents)) [
  | inl no_one ↦ rw no_one h
  | inr (a, there) ↦
      let attended = All-find? (Attended m.runs) (has_id id) m.agents h.each there in
      rw there (put_agent-IsAttended (with_progress note percent now a) m.runs m.agents attended h)
]

persist-AllAttended :
    (agents : List SubAgentInstance) (m : Manager)
    → AllAttended m
    → AllAttended (persist_each agents m)
unfolding persist_each
persist-AllAttended [] m h = h
persist-AllAttended (a ∷ agents) m h =
    persist-AllAttended agents (if is_active_agent a then save_session_meta a m else m)
      (either (is_active_agent a))
  where
    either : (b : Bool) → AllAttended (if b then save_session_meta a m else m)
    either true = h
    either false = h

resume-AllAttended :
    (meta : SessionMeta) (messages : Option ℕ) (now : ℕ) (done : Manager × List Text)
    → AllAttended done.0
    → AllAttended (resume_dir meta messages now done).0
unfolding run_agent
resume-AllAttended meta none now (m, recovered) h = h
resume-AllAttended meta (some stored) now (m, recovered) h =
    start-IsAttended _ _ (recovered_instance meta now m.next_controller stored) _ m.runs m.agents
      refl refl refl h

recover-AllAttended :
    (now : ℕ) (dirs : List AgentDir) (done : Manager × List Text)
    → AllAttended done.0
    → AllAttended (recover_dirs now dirs done).0
unfolding recover_dirs recover_dir
recover-AllAttended now [] done h = h
recover-AllAttended now (dir ∷ dirs) (m, recovered) h =
    recover-AllAttended now dirs (recover_dir now dir (m, recovered)) one
  where
    one : AllAttended (recover_dir now dir (m, recovered)).0
    one =
        elim (Bool-cases
          (not (is_active dir.session.status) || any (has_id dir.session.id) m.agents)) [
            | inl t ↦ rw t h
            | inr t ↦ elim (Bool-cases (is_expired now dir.session)) [
              | inl e ↦ rw (t, e) h
              | inr e ↦ rw (t, e) (resume-AllAttended dir.session dir.messages now (m, recovered) h)
            ]
          ]

pinged-Keeps : (now : ℕ) → Keeps (pinged now)
pinged-Keeps now = record { id = λ a. ground arith; active = λ a. ground arith }

tool_result-Keeps : Keeps with_tool_result
tool_result-Keeps = record { id = λ a. ground arith; active = λ a. ground arith }

perform-AllAttended : (m : Manager) (e : Event) → AllAttended m → AllAttended (perform m e)
unfolding perform cancel timeout ping prune on_chunk on_tool_call on_tool_result on_error
    persist_all_running recover_from_disk
perform-AllAttended m (spawning id conversation_id task opts now) h =
    spawn-AllAttended id conversation_id task opts now m h
perform-AllAttended m (cancelling id) h =
    stop-AllAttended cancelled m (find? (has_id id) m.agents) refl h
perform-AllAttended m (timing_out id) h =
    stop-AllAttended timed_out m (find? (has_id id) m.agents) refl h
perform-AllAttended m (retrying id conversation_id now) h =
    retry-AllAttended id conversation_id now m h
perform-AllAttended m (pinging id now) h =
    update_agent-IsAttended m.runs id (pinged now) m.agents (pinged-Keeps now) h
perform-AllAttended m (pruning max_age now) h =
    filter-IsAttended (is_kept now max_age) m.runs m.agents h
perform-AllAttended m (chunk controller now) h =
    change-AllAttended (with_activity now) m (find? (of_controller controller) m.runs)
      (record { id = λ a. refl; active = λ a. refl }) h
perform-AllAttended m (tool_call controller now) h =
    change-AllAttended (with_tool_call now) m (find? (of_controller controller) m.runs)
      (record { id = λ a. refl; active = λ a. refl }) h
perform-AllAttended m (tool_result controller) h =
    change-AllAttended with_tool_result m (find? (of_controller controller) m.runs)
      tool_result-Keeps h
perform-AllAttended m (finished controller content) h = finish-AllAttended controller content m h
perform-AllAttended m (failing controller message) h =
    promises-AllAttended controller (reject_open message) m h
perform-AllAttended m (settling controller) h = settle-AllAttended controller m h
perform-AllAttended m (progress id note percent now) h =
    progress-AllAttended note percent now id m h
perform-AllAttended m persisting h = persist-AllAttended m.agents m h
perform-AllAttended m (recovering now dirs) h = recover-AllAttended now dirs (m, []) h

-- No agent is forgotten: if, at the start, the keys of the map are distinct and each agent that is
-- pending or running has a run whose end is still to come, then so it is after any calls of the
-- manager and any events in the runs, in any order.
pub perform_all-AllAttended :
    (m : Manager) (es : List Event) → AllAttended m → AllAttended (perform_all m es)
unfolding perform_all
perform_all-AllAttended m [] h = h
perform_all-AllAttended m (e ∷ es) h =
    perform_all-AllAttended (perform m e) es (perform-AllAttended m e h)
