-- ===== src/Core/Proactive/Resume.antt =====
-- packages/core/src/proactive.ts: the plans that are resumed at a start.
use mathlib.Core.List.{append_assoc, map-append}
use cere_worker.Prelude.{
  codes, ℕ, zero, suc, ◌-◌, Text, text_eq, truthy, leb, if◌then◌else◌, true, false, Option, none,
  some, List, [], ◌∷◌, ◌++◌, append-nil, map, take, any, ◌≡◌, refl, sym, ◌∙◌, arith, Bool-cases,
  inl, inr,
}
use cere_worker.Core.PlanStore.{Plan, get_in_progress}
use cere_worker.Core.TaskRunner.{TaskRun, is_task_running, run_task}
use cere_worker.Core.Proactive.{
  send_to_user, progress_text, resume, Controller, Owner, resumed, Conversations, ResumeOnBoot,
  auto, notify_only, launch, resume_task, is_full, resume_plans, resume_found, is_off,
  resume_unfinished,
}

-- The plans that have a task which is not running and which no earlier one of them has.
abbrev pub startable : List Text → List Plan → List Plan
startable running [] = []
startable running (plan ∷ rest) = elim (truthy plan.task_id) [
  | none ↦ startable running rest
  | some id ↦
      if any (text_eq id) running
      then startable running rest
      else plan ∷ startable (running ++ id ∷ []) rest
]

-- Its second clause, for the task id that is found.
abbrev startable_from : List Text → Plan → List Plan → Option Text → List Plan
startable_from running plan rest o = elim o [
  | none ↦ startable running rest
  | some id ↦
      if any (text_eq id) running
      then startable running rest
      else plan ∷ startable (running ++ id ∷ []) rest
]

take-nil : {A : Type 0} (n : ℕ) → take {A = A} n [] ≡ []
take-nil zero = refl
take-nil (suc n) = refl

abbrev pub owners : List (TaskRun Owner) → List Owner
owners runs = map (λ run. run.owner) runs

abbrev pub room : Controller → ℕ
room c = c.config.max_concurrent_proactive - c.active_proactive

-- The runs that wait after a run of the loop.
abbrev pub Resumes : Controller → List Plan → Controller → Type 0
Resumes c plans d =
    owners d.waiting.pending
    ≡ owners c.waiting.pending
      ++ map resumed (take (room c) (startable c.waiting.runner.task_running plans))

-- One run more waits, the last.
abbrev Launched : Owner → Text → Controller → Controller → Type 0
Launched owner id c d =
    (owners d.waiting.pending ≡ owners c.waiting.pending ++ owner ∷ [])
    × (d.waiting.runner.task_running ≡ c.waiting.runner.task_running ++ id ∷ [])
    × (room d ≡ room c - 1)
    × (d.stopped ≡ c.stopped)

launch-Launched :
    (now : ℕ) (convs : Conversations) (owner : Owner) (id : Text) (c : Controller)
    → any (text_eq id) c.waiting.runner.task_running ≡ false
    → Launched owner id c (launch now convs owner id c)
unfolding launch run_task is_task_running
launch-Launched now convs owner id c b =
    rw b (map-append (λ run. run.owner) c.waiting.pending _, refl, omega arith, refl)

after-Launched :
    (plan : Plan) (id : Text) (rest : List Plan) (c d e : Controller) (k : ℕ)
    → room c ≡ suc k
    → Launched (resumed plan) id c d
    → Resumes d rest e
    → owners e.waiting.pending
      ≡ owners c.waiting.pending
        ++ map resumed
            (take (room c) (plan ∷ startable (c.waiting.runner.task_running ++ id ∷ []) rest))
after-Launched plan id rest c d e k r (own, running, less, same) later =
    let left : room d ≡ k = omega (arith, less, r) in
    let from_c : owners d.waiting.pending
          ++ map resumed (take (room d) (startable d.waiting.runner.task_running rest))
        ≡ (owners c.waiting.pending ++ resumed plan ∷ [])
          ++ map resumed (take k (startable (c.waiting.runner.task_running ++ id ∷ []) rest)) =
      rw (own, running, left) refl in
    rw r (later ∙ from_c ∙ append_assoc (owners c.waiting.pending) (resumed plan ∷ []) _)

task-Resumes :
    (now : ℕ) (convs : Conversations) (plan : Plan) (rest : List Plan) (c : Controller)
    (o : Option Text)
    → ((d : Controller) → d.stopped ≡ false → Resumes d rest (resume_plans now convs rest d))
    → c.stopped ≡ false
    → (k : ℕ) → room c ≡ suc k
    → owners (resume_plans now convs rest (resume_task now convs plan c o)).waiting.pending
      ≡ owners c.waiting.pending
        ++ map resumed (take (room c) (startable_from c.waiting.runner.task_running plan rest o))
unfolding is_task_running
task-Resumes now convs plan rest c none ih h k r = ih c h
task-Resumes now convs plan rest c (some id) ih h k r =
    elim (Bool-cases (any (text_eq id) c.waiting.runner.task_running)) [
      | inl b ↦ rw b (ih c h)
      | inr b ↦
          let said =
            send_to_user (codes "Resuming task: " ++ progress_text " steps done)" plan) resume c in
          let d = launch now convs (resumed plan) id said in
          let starts = launch-Launched now convs (resumed plan) id said b in
          let later = ih d (starts.3 ∙ h) in
          rw b (after-Launched plan id rest said d (resume_plans now convs rest d) k r starts later)
    ]

resume_plans-Resumes :
    (now : ℕ) (convs : Conversations) (plans : List Plan) (c : Controller)
    → c.stopped ≡ false
    → Resumes c plans (resume_plans now convs plans c)
unfolding resume_plans
resume_plans-Resumes now convs [] c h = rw (take-nil (room c)) (sym (append-nil _))
resume_plans-Resumes now convs (plan ∷ rest) c h =
    elim (Bool-cases (leb c.config.max_concurrent_proactive c.active_proactive)) [
      | inl e ↦
          let none_more : room c ≡ 0 = ground (arith, e) in
          let full : is_full c ≡ true = ground (arith, h, e) in
          rw (full, none_more) (sym (append-nil _))
      | inr e ↦
          let full : is_full c ≡ false = ground (arith, h, e) in
          let more : room c ≡ suc (room c - 1) = ground (arith, e) in
          rw full (
            task-Resumes now convs plan rest c (truthy plan.task_id)
              (resume_plans-Resumes now convs rest) h _ more)
    ]

-- `resumeUnfinished` of an enabled controller that has not stopped, in its `auto` mode: of the plans in
-- progress, the oldest first, those are started that have a task which neither runs nor belongs to an
-- earlier one of them, as many as the limit leaves room for; the runs that waited before still wait.
pub resume_unfinished-Resumes :
    (now : ℕ) (convs : Conversations) (c : Controller)
    → is_off c ≡ false
    → c.config.resume_on_boot ≡ auto
    → Resumes c (get_in_progress c.plans) (resume_unfinished now convs c)
unfolding resume_unfinished
resume_unfinished-Resumes now convs c on mode =
    let goes_on : c.stopped ≡ false = ground (arith, on) in
    rw on (found-Resumes now convs c.config.resume_on_boot (get_in_progress c.plans) c mode goes_on)
  where
    found-Resumes :
        (now : ℕ) (convs : Conversations) (mode : ResumeOnBoot) (plans : List Plan) (c : Controller)
        → mode ≡ auto
        → c.stopped ≡ false
        → Resumes c plans (resume_found now convs mode plans c)
    found-Resumes now convs mode [] c e h = rw (take-nil (room c)) (sym (append-nil _))
    found-Resumes now convs auto (plan ∷ rest) c e h =
        resume_plans-Resumes now convs (plan ∷ rest) c h
    found-Resumes now convs notify_only (plan ∷ rest) c e h = cc
