-- ===== src/Core/Proactive/Report.antt =====
-- packages/core/src/proactive.ts: the status report. The date, and the text of a loss with three
-- decimals, are given; the text generator is a parameter, an answer of it is awaited.
use cere_worker.Prelude.{
  ℕ, Text, codes, show, join, ◌==◌, if◌then◌else◌, not, ◌||◌, Option, none, some, List, [], ◌∷◌,
  ◌++◌, map, length, take, get_elem?,
}
use cere_worker.Core.PlanStore.{Plan, get_in_progress}
use cere_worker.Core.Proactive.{Controller, status_report, notify, progress_text}

pub record FineTuneRecord : Type 0 where
  pub completed_at : Text
  pub loss_text : Text

-- The fields of the instance that the report reads.
pub record Instance : Type 0 where
  pub name : Text
  pub id : Text
  pub conversation_count : ℕ
  pub finetune_lineage : List FineTuneRecord

-- `text.split('T')[0]`
abbrev before_t : Text → Text
before_t [] = []
before_t (c ∷ s) = let rest = before_t s in if c == b'T' then [] else c ∷ rest

abbrev last_text : Option FineTuneRecord → Text
last_text none = []
last_text (some ft) =
    codes " (last: " ++ before_t ft.completed_at ++ codes ", loss: " ++ ft.loss_text ++ codes ")"

-- The record at the index before the last; there is none at -1.
abbrev last_record : List FineTuneRecord → Option FineTuneRecord
last_record [] = none
last_record (ft ∷ rest) = get_elem? (ft ∷ rest) (length rest)

unfoldable pub plan_lines : List Plan → List Text
unfolding progress_text
plan_lines [] = []
plan_lines (p ∷ ps) =
    [] ∷ map (λ plan. codes "- " ++ progress_text " steps)" plan) (take 5 (p ∷ ps))

unfoldable pub report_text : Text → Instance → List Plan → Text
unfolding plan_lines show join
report_text date instance in_progress = join (codes "\n") (
    ((codes "**Status Report** — " ++ date)
      ∷ (codes "Instance: " ++ instance.name ++ codes " (" ++ take 8 instance.id ++ codes ")")
      ∷ (codes "Conversations: " ++ show instance.conversation_count)
      ∷ (codes "Fine-tune cycles: "
          ++ show (length instance.finetune_lineage)
          ++ last_text (last_record instance.finetune_lineage))
      ∷ (codes "In-progress plans: " ++ show (length in_progress))
      ∷ [])
    ++ plan_lines in_progress)

-- `sendStatusReport` up to the generator: the report, or none where it returns before.
unfoldable pub raw_report : Text → Option Instance → Controller → Option Text
unfolding report_text get_in_progress
raw_report date none c = none
raw_report date (some instance) c =
    if not c.config.enabled || not c.config.status_reports || c.stopped
    then none
    else some (report_text date instance (get_in_progress c.plans))

-- The generated text, or the report itself where there is no generator or it throws.
abbrev final_report : Text → Option Text → Text
final_report report none = report
final_report report (some text) = text

abbrev sent_report : Option Text → Option Text → Controller → Controller
sent_report none generated c = c
sent_report (some report) generated c = notify (final_report report generated) status_report c

-- Both parts, with no event between them.
unfoldable pub send_status_report :
    Text → Option Instance → (Text → Option Text) → Controller → Controller
unfolding raw_report
send_status_report date instance generate c =
    let report = raw_report date instance c in
    sent_report report (elim report [ none ↦ none | some text ↦ generate (prompt text) ]) c
  where
    prompt : Text → Text
    prompt report =
        codes
          "Rewrite this status report as a brief, natural message (2-3 sentences). Keep all numbers accurate:\n\n"
        ++ report
