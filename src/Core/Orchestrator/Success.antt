-- ===== src/Core/Orchestrator/Success.antt =====
-- packages/core/src/orchestrator.ts: an entry of the ledger that says that a tool has succeeded comes
-- from one that has.
use cere_worker.Prelude.{
  ℕ, zero, suc, Text, ltb, Bool, true, false, not, ◌&&◌, Option, none, some, List, [], ◌∷◌, ◌++◌,
  ◌≡◌, refl, any, any-mem, any-witness, All-mem, All, All-append, length, Memᴰ, arith, Bool-cases,
  ◌⊎◌, inl, inr,
}
use cere_worker.Core.ToolRuntime.Results.{ToolResult}
use cere_worker.Core.Orchestrator.{ProgressEntry, TurnContinuityState, create_turn_continuity_state}
use cere_worker.Core.Orchestrator.Continuity.{
  is_from_tool, is_removable, repeats_last, last, behind, without_first, or_tail, splice_entry,
  shrink_ledger, push_entry, record_boundary, checkpoint_of, checkpoint_entry, record_checkpoint,
}
use cere_worker.Core.Orchestrator.ToolProgress.{
  BrowserResumeMetadata, create_progress_entry, summary_of, plain_entry, resumed_entry,
  record_entry, record_attempt_tool_progress,
}
use cere_worker.Core.Orchestrator.Texts.{format_tool_output_preview}
use cere_worker.Core.Orchestrator.Ledger.{
  Progress, tool_done, step_noted, boundary_set, after_progress, continuity_after,
}

-- A tool of the turn came back without an error.
abbrev pub has_succeeded : Text × ℕ × Progress → Bool
has_succeeded (id, now, tool_done tool_name result resume) = not result.is_error
has_succeeded (id, now, _) = false

abbrev pub says_success : ProgressEntry → Bool
says_success entry = is_from_tool entry.source && not entry.is_error

module _ (P : ProgressEntry → Type 0) where
  AllOf : Option (List ProgressEntry) → Type 0
  AllOf none = Unit
  AllOf (some xs) = All P xs

  behind-AllOf :
      (x : ProgressEntry) (o : Option (List ProgressEntry)) → P x → AllOf o → AllOf (behind x o)
  unfolding AllOf
  behind-AllOf x none p h = tt
  behind-AllOf x (some xs) p h = (p, h)

  without_first-AllOf :
      (q : ProgressEntry → Bool) (xs : List ProgressEntry) → All P xs → AllOf (without_first q xs)
  unfolding without_first AllOf
  without_first-AllOf q [] h = tt
  without_first-AllOf q (x ∷ xs) (p, h) = elim (Bool-cases (q x)) [
    | inl t ↦ rw t h
    | inr t ↦ rw t (behind-AllOf x (without_first q xs) p (without_first-AllOf q xs h))
  ]

  or_tail-All :
      (xs : List ProgressEntry) (o : Option (List ProgressEntry))
      → All P xs
      → AllOf o
      → All P (or_tail xs o)
  unfolding AllOf
  or_tail-All xs (some ys) h k = k
  or_tail-All [] none h k = tt
  or_tail-All (x ∷ xs) none (p, h) k = h

  shrink_ledger-All :
      (fuel : ℕ) (ledger : List ProgressEntry) → All P ledger → All P (shrink_ledger fuel ledger)
  unfolding shrink_ledger splice_entry
  shrink_ledger-All zero ledger h = h
  shrink_ledger-All (suc fuel) ledger h = elim (Bool-cases (ltb 50 (length ledger))) [
    | inl t ↦ rw t (
        shrink_ledger-All fuel (splice_entry ledger) (
          or_tail-All ledger (without_first is_removable ledger) h
            (without_first-AllOf is_removable ledger h)))
    | inr t ↦ rw t h
  ]

  push_entry-All :
      (ledger : List ProgressEntry) (entry : ProgressEntry)
      → All P ledger
      → P entry
      → All P (push_entry ledger entry)
  unfolding push_entry
  push_entry-All ledger entry h p = elim (Bool-cases (repeats_last (last ledger) entry)) [
    | inl t ↦ rw t h
    | inr t ↦
        rw t
          (shrink_ledger-All _ (ledger ++ entry ∷ []) (All-append P ledger (entry ∷ []) h (p, tt)))
  ]

  record_entry-All :
      (id : Text) (now : ℕ) (resume : Option BrowserResumeMetadata)
      (continuity : TurnContinuityState) (o : Option ProgressEntry)
      → All P continuity.progress_ledger
      → ((entry : ProgressEntry) → o ≡ some entry → P entry)
      → All P (record_entry id now resume continuity o).progress_ledger
  unfolding record_boundary
  record_entry-All id now resume continuity none h p = h
  record_entry-All id now resume continuity (some entry) h p =
      let pushed = push_entry-All continuity.progress_ledger entry h (p entry refl) in
      elim (Bool-cases (entry.state_changing && not entry.is_error)) [
        | inl t ↦ rw t pushed
        | inr t ↦ rw t pushed
      ]

abbrev is_error_of : Option ProgressEntry → Bool → Bool
is_error_of none b = b
is_error_of (some entry) b = entry.is_error

plain_entry-error :
    (tool_name : Text) (result : ToolResult) (preview : Text)
    → is_error_of (plain_entry tool_name result preview) result.is_error ≡ result.is_error
plain_entry-error tool_name result [] = refl
plain_entry-error tool_name result (c ∷ preview) = refl

create_progress_entry-error :
    (tool_name : Text) (result : ToolResult) (resume : Option BrowserResumeMetadata)
    → is_error_of (create_progress_entry tool_name result resume) result.is_error ≡ result.is_error
unfolding create_progress_entry
create_progress_entry-error tool_name result resume = of_summary (summary_of resume)
  where
    of_summary :
        (o : Option (BrowserResumeMetadata × Text))
        → is_error_of
            (elim o [
              | some (resume', summary) ↦ some (resumed_entry tool_name result resume' summary)
              | none ↦ plain_entry tool_name result (format_tool_output_preview result.output)
            ])
            result.is_error
          ≡ result.is_error
    of_summary none = plain_entry-error tool_name result (format_tool_output_preview result.output)
    of_summary (some (resume', summary)) = refl

-- What is asked of the entry that an event makes.
abbrev EntryAll : (ProgressEntry → Type 0) → Text × ℕ × Progress → Type 0
EntryAll P (id, now, tool_done tool_name result resume) =
    (entry : ProgressEntry) → create_progress_entry tool_name result resume ≡ some entry → P entry
EntryAll P (id, now, step_noted step status evidence) =
    P (checkpoint_entry (checkpoint_of step status evidence))
EntryAll P (id, now, boundary_set input) = Unit

after_progress-All :
    (P : ProgressEntry → Type 0) (continuity : TurnContinuityState) (p : Text × ℕ × Progress)
    → All P continuity.progress_ledger
    → EntryAll P p
    → All P (after_progress continuity p).progress_ledger
unfolding record_attempt_tool_progress record_checkpoint record_boundary
after_progress-All P continuity (id, now, tool_done tool_name result resume) h e =
    record_entry-All P id now resume continuity (create_progress_entry tool_name result resume) h e
after_progress-All P continuity (id, now, step_noted step status evidence) h e =
    push_entry-All P continuity.progress_ledger _ h e
after_progress-All P continuity (id, now, boundary_set input) h e = h

continuity_after-All :
    (P : ProgressEntry → Type 0) (continuity : TurnContinuityState)
    (ps : List (Text × ℕ × Progress))
    → All P continuity.progress_ledger
    → ((p : Text × ℕ × Progress) → Memᴰ p ps → EntryAll P p)
    → All P (continuity_after continuity ps).progress_ledger
unfolding continuity_after
continuity_after-All P continuity [] h e = h
continuity_after-All P continuity (p ∷ ps) h e =
    continuity_after-All P (after_progress continuity p) ps
      (after_progress-All P continuity p h (e p (Memᴰ.head refl))) (λ q m. e q (Memᴰ.tail m))

-- If an entry says that a tool has succeeded, then one of the events does.
abbrev IsBacked : List (Text × ℕ × Progress) → ProgressEntry → Type 0
IsBacked ps entry = (says_success entry ≡ false) ⊎ (any has_succeeded ps ≡ true)

event-IsBacked :
    (ps : List (Text × ℕ × Progress)) (p : Text × ℕ × Progress)
    → Memᴰ p ps
    → EntryAll (IsBacked ps) p
event-IsBacked ps (id, now, tool_done tool_name result resume) m = λ entry e.
    elim (Bool-cases result.is_error) [
      | inl bad ↦
          let same : entry.is_error ≡ result.is_error =
            rw e at (create_progress_entry-error tool_name result resume) in
          inl (ground (arith, same, bad))
      | inr good ↦ inr (any-mem has_succeeded ps _ m (rw good refl))
    ]
event-IsBacked ps (id, now, step_noted step status evidence) m = inl refl
event-IsBacked ps (id, now, boundary_set input) m = tt

backed-any :
    (ps : List (Text × ℕ × Progress)) (entries : List ProgressEntry)
    → All (IsBacked ps) entries
    → any says_success entries ≡ true
    → any has_succeeded ps ≡ true
backed-any ps entries h said =
    let (entry, m, says) = any-witness says_success entries said in
    elim (All-mem (IsBacked ps) entries entry h m) [ inl not_said ↦ cc | inr backed ↦ backed ]

-- The ledger of a turn says that a tool has succeeded only if one of its tools has.
pub continuity_after-backed :
    (ps : List (Text × ℕ × Progress))
    → any says_success (continuity_after create_turn_continuity_state ps).progress_ledger ≡ true
    → any has_succeeded ps ≡ true
continuity_after-backed ps said =
    backed-any ps (continuity_after create_turn_continuity_state ps).progress_ledger
      (continuity_after-All (IsBacked ps) create_turn_continuity_state ps tt (event-IsBacked ps))
      said
