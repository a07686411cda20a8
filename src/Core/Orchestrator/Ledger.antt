-- ===== src/Core/Orchestrator/Ledger.antt =====
-- packages/core/src/orchestrator.ts: how much a turn keeps of its progress, and what it drops.
use cere_worker.Prelude.{
  text_eq_sym, append-nil, ℕ, zero, suc, ◌≤◌, Text, text_eq, text_eq_iff, ltb, Bool, true, false,
  not, ◌&&◌, Option, none, some, List, [], ◌∷◌, ◌++◌, ◌≡◌, refl, sym, any, filter, length,
  length-append, filter-append, arith, Bool-cases, inl, inr,
}
use cere_worker.Core.ToolRuntime.Results.{ToolResult}
use cere_worker.Core.Orchestrator.{
  ProgressEntry, TaskCheckpoint, TaskCheckpointStatus, TurnContinuityState,
  create_turn_continuity_state,
}
use cere_worker.Core.Orchestrator.Continuity.{
  is_removable, repeats_last, last, behind, without_first, or_tail, shift_to, splice_entry,
  shrink_ledger, push_entry, BoundaryInput, boundary_of, record_boundary, put_checkpoint,
  checkpoint_of, checkpoint_entry, checkpoint_input, record_checkpoint,
}
use cere_worker.Core.Orchestrator.ToolProgress.{
  BrowserResumeMetadata, create_progress_entry, record_entry, record_attempt_tool_progress,
}

module _ {A : Type 0} where
  shift_to-length-le : (n : ℕ) (xs : List A) → length (shift_to n xs) ≤ n
  unfolding shift_to
  shift_to-length-le n [] = omega arith
  shift_to-length-le n (x ∷ xs) = ground (arith, shift_to-length-le n xs)

  -- What `without_first` gives: no entry passes, or one is gone and the others that fail are there.
  abbrev Spliced : (A → Bool) → List A → Option (List A) → Type 0
  Spliced p xs none = any p xs ≡ false
  Spliced p xs (some ys) =
      (suc (length ys) ≡ length xs) × (filter (λ x. not (p x)) ys ≡ filter (λ x. not (p x)) xs)

  behind-Spliced :
      (p : A → Bool) (x : A) (xs : List A)
      → p x ≡ false
      → (o : Option (List A)) → Spliced p xs o
      → Spliced p (x ∷ xs) (behind x o)
  unfolding any filter
  behind-Spliced p x xs h none none_passes = rw h none_passes
  behind-Spliced p x xs h (some ys) (shorter, same) = (omega (arith, shorter), rw (h, same) refl)

  without_first-Spliced : (p : A → Bool) (xs : List A) → Spliced p xs (without_first p xs)
  unfolding without_first any filter
  without_first-Spliced p [] = refl
  without_first-Spliced p (x ∷ xs) = elim (Bool-cases (p x)) [
    | inl t ↦ rw t (refl, rw t refl)
    | inr t ↦ rw t (behind-Spliced p x xs t (without_first p xs) (without_first-Spliced p xs))
  ]

  or_tail-length :
      (p : A → Bool) (x : A) (xs : List A) (o : Option (List A))
      → Spliced p (x ∷ xs) o
      → length (or_tail (x ∷ xs) o) ≡ length xs
  or_tail-length p x xs none h = refl
  or_tail-length p x xs (some ys) (shorter, _) = omega (arith, shorter)

  or_tail-kept :
      (p : A → Bool) (xs : List A) (o : Option (List A))
      → Spliced p xs o
      → any p xs ≡ true
      → filter (λ x. not (p x)) (or_tail xs o) ≡ filter (λ x. not (p x)) xs
  or_tail-kept p xs none h h' = cc
  or_tail-kept p xs (some ys) (_, same) h' = same

abbrev pub is_kept : ProgressEntry → Bool
is_kept entry = not (is_removable entry)

splice_entry-length :
    (x : ProgressEntry) (xs : List ProgressEntry) → length (splice_entry (x ∷ xs)) ≡ length xs
unfolding splice_entry
splice_entry-length x xs =
    or_tail-length is_removable x xs (without_first is_removable (x ∷ xs))
      (without_first-Spliced is_removable (x ∷ xs))

splice_entry-kept :
    (ledger : List ProgressEntry)
    → any is_removable ledger ≡ true
    → filter is_kept (splice_entry ledger) ≡ filter is_kept ledger
unfolding splice_entry
splice_entry-kept ledger h =
    or_tail-kept is_removable ledger (without_first is_removable ledger)
      (without_first-Spliced is_removable ledger) h

-- The fuel is the length of the ledger, and each round takes one entry.
shrink_ledger-le :
    (fuel : ℕ) (ledger : List ProgressEntry)
    → length ledger ≤ fuel
    → length (shrink_ledger fuel ledger) ≤ 50
unfolding shrink_ledger
shrink_ledger-le zero ledger h = omega (arith, h)
shrink_ledger-le (suc fuel) [] h = omega arith
shrink_ledger-le (suc fuel) (x ∷ xs) h =
    let later =
      shrink_ledger-le fuel (splice_entry (x ∷ xs)) (omega (arith, h, splice_entry-length x xs)) in
    ground (arith, later)

push_entry-le :
    (ledger : List ProgressEntry) (entry : ProgressEntry)
    → length ledger ≤ 50
    → length (push_entry ledger entry) ≤ 50
unfolding push_entry
push_entry-le ledger entry h = elim (Bool-cases (repeats_last (last ledger) entry)) [
  | inl t ↦ rw t h
  | inr t ↦ rw t (shrink_ledger-le _ (ledger ++ entry ∷ []) (omega arith))
]

-- One round is enough where there is one entry too many.
shrink_ledger-once :
    (fuel : ℕ) (ledger : List ProgressEntry)
    → length ledger ≤ 50
    → shrink_ledger fuel ledger ≡ ledger
unfolding shrink_ledger
shrink_ledger-once zero ledger h = refl
shrink_ledger-once (suc fuel) ledger h = ground arith

shrink_ledger-kept :
    (fuel : ℕ) (ledger : List ProgressEntry)
    → length ledger ≤ 51
    → any is_removable ledger ≡ true
    → filter is_kept (shrink_ledger fuel ledger) ≡ filter is_kept ledger
unfolding shrink_ledger any
shrink_ledger-kept zero ledger h some_removable = refl
shrink_ledger-kept (suc fuel) [] h some_removable = cc
shrink_ledger-kept (suc fuel) (x ∷ xs) h some_removable =
    elim (Bool-cases (ltb 50 (length (x ∷ xs)))) [
      | inl t ↦
          let short : length (splice_entry (x ∷ xs)) ≤ 50 =
            omega (arith, splice_entry-length x xs) in
          rw (t, shrink_ledger-once fuel (splice_entry (x ∷ xs)) short)
            (splice_entry-kept (x ∷ xs) some_removable)
      | inr t ↦ rw t refl
    ]

push_entry-repeat :
    (ledger : List ProgressEntry) (entry : ProgressEntry)
    → repeats_last (last ledger) entry ≡ true
    → is_removable entry ≡ true
push_entry-repeat ledger entry h = of_last (last ledger) h
  where
    of_last : (o : Option ProgressEntry) → repeats_last o entry ≡ true → is_removable entry ≡ true
    of_last none h' = cc
    of_last (some l) h' = ground (arith, h')

no_entry : (entry : ProgressEntry) → is_removable entry ≡ true → filter is_kept (entry ∷ []) ≡ []
unfolding filter
no_entry entry h = rw h refl

-- A ledger of at most 50 entries takes one more. If it then holds an entry of a tool that changed
-- nothing, then all the others are kept, in their order, and the new one with them.
pub push_entry-kept :
    (ledger : List ProgressEntry) (entry : ProgressEntry)
    → length ledger ≤ 50
    → any is_removable (ledger ++ entry ∷ []) ≡ true
    → filter is_kept (push_entry ledger entry) ≡ filter is_kept (ledger ++ entry ∷ [])
unfolding push_entry
push_entry-kept ledger entry h some_removable =
    elim (Bool-cases (repeats_last (last ledger) entry)) [
      | inl t ↦
          let nothing : filter is_kept (entry ∷ []) ≡ [] =
            no_entry entry (push_entry-repeat ledger entry t) in
          rw (t, filter-append is_kept ledger (entry ∷ []), nothing) (sym (append-nil _))
      | inr t ↦
          let short : length (ledger ++ entry ∷ []) ≤ 51 =
            omega (arith, length-append ledger (entry ∷ [])) in
          rw t (shrink_ledger-kept _ (ledger ++ entry ∷ []) short some_removable)
    ]

abbrev has_step : Text → TaskCheckpoint → Bool
has_step step checkpoint = text_eq checkpoint.step step

-- No two checkpoints of a turn are of the same step.
unfoldable pub distinct_steps : List TaskCheckpoint → Bool
unfolding any text_eq
distinct_steps [] = true
distinct_steps (x ∷ xs) = not (any (has_step x.step) xs) && distinct_steps xs

any-put_checkpoint :
    (step : Text) (checkpoint : TaskCheckpoint) (xs : List TaskCheckpoint)
    → any (has_step step) xs ≡ false
    → has_step step checkpoint ≡ false
    → any (has_step step) (put_checkpoint checkpoint xs) ≡ false
unfolding any put_checkpoint
any-put_checkpoint step checkpoint [] h h' = rw h' refl
any-put_checkpoint step checkpoint (x ∷ xs) h h' =
    ground (arith, h, h', any-put_checkpoint step checkpoint xs)

put_checkpoint-distinct_steps :
    (checkpoint : TaskCheckpoint) (xs : List TaskCheckpoint)
    → distinct_steps xs ≡ true
    → distinct_steps (put_checkpoint checkpoint xs) ≡ true
unfolding put_checkpoint distinct_steps any
put_checkpoint-distinct_steps checkpoint [] h = refl
put_checkpoint-distinct_steps checkpoint (x ∷ xs) h =
    elim (Bool-cases (text_eq x.step checkpoint.step)) [
      | inl t ↦ let same = (text_eq_iff x.step checkpoint.step).0 t in rw (t, ← same) h
      | inr t ↦
          let other : has_step x.step checkpoint ≡ false =
            rw (text_eq_sym checkpoint.step x.step) t in
          let fresh : any (has_step x.step) xs ≡ false = ground (arith, h) in
          rw (t, any-put_checkpoint x.step checkpoint xs fresh other)
            (put_checkpoint-distinct_steps checkpoint xs (ground (arith, h)))
    ]

-- The limits of what a turn keeps.
pub record IsWithin (continuity : TurnContinuityState) : Type 0 where
  pub ledger : length continuity.progress_ledger ≤ 50
  pub boundaries : length continuity.boundaries ≤ 20
  pub steps : distinct_steps continuity.task_checkpoints ≡ true

record_boundary-IsWithin :
    (id : Text) (now : ℕ) (continuity : TurnContinuityState) (input : BoundaryInput)
    → IsWithin continuity
    → IsWithin (record_boundary id now continuity input)
unfolding record_boundary
record_boundary-IsWithin id now continuity input h = record {
  ledger = h.ledger;
  boundaries =
      shift_to-length-le 20
        (continuity.boundaries ++ boundary_of id now continuity.browser_state input ∷ []);
  steps = h.steps;
}

record_checkpoint-IsWithin :
    (id : Text) (now : ℕ) (continuity : TurnContinuityState) (checkpoint : TaskCheckpoint)
    → IsWithin continuity
    → IsWithin (record_checkpoint id now continuity checkpoint)
unfolding record_checkpoint
record_checkpoint-IsWithin id now continuity checkpoint h =
    record_boundary-IsWithin id now _ (checkpoint_input checkpoint) (record {
      ledger = push_entry-le continuity.progress_ledger (checkpoint_entry checkpoint) h.ledger;
      boundaries = h.boundaries;
      steps = put_checkpoint-distinct_steps checkpoint continuity.task_checkpoints h.steps;
    })

record_entry-IsWithin :
    (id : Text) (now : ℕ) (resume : Option BrowserResumeMetadata) (continuity : TurnContinuityState)
    (entry : Option ProgressEntry)
    → IsWithin continuity
    → IsWithin (record_entry id now resume continuity entry)
record_entry-IsWithin id now resume continuity none h = h
record_entry-IsWithin id now resume continuity (some entry) h =
    let noted : IsWithin _ = record {
      ledger = push_entry-le continuity.progress_ledger entry h.ledger;
      boundaries = h.boundaries;
      steps = h.steps;
    } in
    elim (Bool-cases (entry.state_changing && not entry.is_error)) [
      | inl t ↦ rw t (record_boundary-IsWithin id now _ _ noted)
      | inr t ↦ rw t noted
    ]

-- What happens to the progress of a turn.
pub data Progress : Type 0 where
  tool_done : Text → ToolResult → Option BrowserResumeMetadata → Progress
  step_noted : Text → TaskCheckpointStatus → Text → Progress
  boundary_set : BoundaryInput → Progress

-- With the id and the time of the boundary that is recorded.
abbrev pub after_progress : TurnContinuityState → Text × ℕ × Progress → TurnContinuityState
after_progress continuity (id, now, tool_done tool_name result resume) =
    record_attempt_tool_progress id now tool_name result resume continuity
after_progress continuity (id, now, step_noted step status evidence) =
    record_checkpoint id now continuity (checkpoint_of step status evidence)
after_progress continuity (id, now, boundary_set input) = record_boundary id now continuity input

unfoldable pub continuity_after :
    TurnContinuityState → List (Text × ℕ × Progress) → TurnContinuityState
continuity_after continuity [] = continuity
continuity_after continuity (p ∷ ps) = continuity_after (after_progress continuity p) ps

after_progress-IsWithin :
    (continuity : TurnContinuityState) (p : Text × ℕ × Progress)
    → IsWithin continuity
    → IsWithin (after_progress continuity p)
unfolding record_attempt_tool_progress
after_progress-IsWithin continuity (id, now, tool_done tool_name result resume) h =
    record_entry-IsWithin id now resume continuity (create_progress_entry tool_name result resume) h
after_progress-IsWithin continuity (id, now, step_noted step status evidence) h =
    record_checkpoint-IsWithin id now continuity (checkpoint_of step status evidence) h
after_progress-IsWithin continuity (id, now, boundary_set input) h =
    record_boundary-IsWithin id now continuity input h

continuity_after-from :
    (continuity : TurnContinuityState) (ps : List (Text × ℕ × Progress))
    → IsWithin continuity
    → IsWithin (continuity_after continuity ps)
unfolding continuity_after
continuity_after-from continuity [] h = h
continuity_after-from continuity (p ∷ ps) h =
    continuity_after-from (after_progress continuity p) ps (after_progress-IsWithin continuity p h)

-- Whatever the tools, the checkpoints and the other boundaries of a turn are, its ledger never has
-- more than 50 entries, it never keeps more than 20 boundaries, and no step has two checkpoints.
pub continuity_after-IsWithin :
    (ps : List (Text × ℕ × Progress)) → IsWithin (continuity_after create_turn_continuity_state ps)
unfolding distinct_steps
continuity_after-IsWithin ps =
    continuity_after-from create_turn_continuity_state ps
      (record { ledger = omega arith; boundaries = omega arith; steps = refl })
