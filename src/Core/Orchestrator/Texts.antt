-- ===== src/Core/Orchestrator/Texts.antt =====
-- packages/core/src/orchestrator.ts: how texts are cut for the journal and for a recovery request.
use cere_worker.Prelude.{
  ℕ, ◌-◌, ◌≤◌, ◌<◌, Text, trim, trim_start, is_space, leb, ◌==◌, if◌then◌else◌, Bool, true, false,
  [], ◌∷◌, ◌++◌, length, take, arith, length-append, length-take, length-reverse, Bool-cases, inl,
  inr,
}
use mathlib.Core.List.{reverse}

-- `replace(/\r\n/g, '\n')`
unfoldable pub unify_newlines : Text → Text
unify_newlines [] = []
unify_newlines (c ∷ []) = c ∷ []
unify_newlines (c ∷ d ∷ s) =
    let rest = unify_newlines s in
    let later = unify_newlines (d ∷ s) in
    elim (c == 13) [ true ↦ if d == 10 then 10 ∷ rest else c ∷ later | false ↦ c ∷ later ]

-- `trimEnd`
unfoldable pub trim_end : Text → Text
unfolding trim_start
trim_end s = reverse (trim_start (reverse s))

-- The sign at the end is an ellipsis.
unfoldable pub truncate_resume_text : Text → ℕ → Text
unfolding unify_newlines trim trim_end
truncate_resume_text text max_chars =
    let normalized = trim (unify_newlines text) in
    if leb (length normalized) max_chars
    then normalized
    else trim_end (take (max_chars - 1) normalized) ++ 8230 ∷ []

-- `replace(/\s+/g, ' ')`; `inside` says that a space is already written for this run.
unfoldable pub squeeze_spaces : Bool → Text → Text
squeeze_spaces inside [] = []
squeeze_spaces inside (c ∷ s) =
    let within = squeeze_spaces true s in
    let after = squeeze_spaces false s in
    if is_space c then (if inside then within else 32 ∷ within) else c ∷ after

unfoldable pub format_tool_output_preview : Text → Text
unfolding truncate_resume_text squeeze_spaces trim
format_tool_output_preview output = trim (squeeze_spaces false (truncate_resume_text output 180))

trim_start-length-le : (s : Text) → length (trim_start s) ≤ length s
unfolding trim_start
trim_start-length-le [] = omega arith
trim_start-length-le (c ∷ s) = ground (arith, trim_start-length-le s)

trim_end-length-le : (s : Text) → length (trim_end s) ≤ length s
unfolding trim_end
trim_end-length-le s = omega (
  arith,
  length-reverse (trim_start (reverse s)),
  trim_start-length-le (reverse s),
  length-reverse s,
)

-- What is cut for the journal or for a request is no longer than the limit, its sign included.
pub truncate_resume_text-le :
    (text : Text) (max_chars : ℕ)
    → 0 < max_chars
    → length (truncate_resume_text text max_chars) ≤ max_chars
unfolding truncate_resume_text
truncate_resume_text-le text n pos =
    elim (Bool-cases (leb (length (trim (unify_newlines text))) n)) [
      | inl t ↦ rw t (ground (arith, t))
      | inr t ↦
          let kept = take (n - 1) (trim (unify_newlines text)) in
          rw t (
            omega (
              arith,
              length-append (trim_end kept) (8230 ∷ []),
              trim_end-length-le kept,
              length-take (n - 1) (trim (unify_newlines text)),
            ))
    ]
