-- ===== src/Channels/Chunking.antt =====
-- packages/channels/src/chunking.ts: a message is cut into chunks that a channel accepts.
pub mod Hard
pub mod Limit
mod Tests
use cere_worker.Prelude.{
  ℕ, zero, suc, ◌≤◌, ◌<◌, Text, codes, leb, ◌==◌, if◌then◌else◌, Bool, true, false, not, List, [],
  ◌∷◌, ◌++◌, length, take, drop, filter, starts_with, trim_start,
}

-- An empty string is falsy.
abbrev pub is_empty : Text → Bool
is_empty [] = true
is_empty (c ∷ s) = false

abbrev pub cons_head : ℕ → List Text → List Text
cons_head c [] = (c ∷ []) ∷ []
cons_head c (s ∷ rest) = (c ∷ s) ∷ rest

-- `text.split('\n')`
unfoldable pub split_lines : Text → List Text
split_lines [] = [] ∷ []
split_lines (c ∷ s) = let rest = split_lines s in if c == 10 then [] ∷ rest else cons_head c rest

-- What `n` newlines in a row make of the paragraphs that follow.
abbrev pub after_newlines : ℕ → List Text → List Text
after_newlines zero rest = rest
after_newlines (suc zero) rest = cons_head 10 rest
after_newlines (suc (suc n)) rest = [] ∷ rest

unfoldable pub paragraphs_from : ℕ → Text → List Text
paragraphs_from n [] = after_newlines n ([] ∷ [])
paragraphs_from n (c ∷ s) =
    let more = paragraphs_from (suc n) s in
    let rest = paragraphs_from 0 s in if c == 10 then more else after_newlines n (cons_head c rest)

-- `text.split(/\n{2,}/)`
unfoldable pub split_paragraphs : Text → List Text
unfolding paragraphs_from
split_paragraphs text = paragraphs_from 0 text

-- A line that starts with three backquotes closes the fence, or opens one.
unfoldable pub track_line : Text → Text → Text
unfolding trim_start starts_with
track_line line fence =
    let trimmed = trim_start line in
    if starts_with (codes "```") trimmed then if is_empty fence then trimmed else [] else fence

unfoldable pub track_lines : List Text → Text → Text
unfolding track_line
track_lines [] fence = fence
track_lines (line ∷ lines) fence = track_lines lines (track_line line fence)

unfoldable pub track_fences : Text → Text → Text
unfolding track_lines split_lines
track_fences text fence = track_lines (split_lines text) fence

-- The turns of the loop of `hardSplit`, at most `fuel` of them.
unfoldable pub hard_split_from : ℕ → Text → ℕ → List Text
hard_split_from zero text limit = []
hard_split_from (suc fuel) [] limit = []
hard_split_from (suc fuel) (c ∷ s) limit =
    take limit (c ∷ s) ∷ hard_split_from fuel (drop limit (c ∷ s)) limit

unfoldable pub hard_split : Text → ℕ → List Text
unfolding hard_split_from
hard_split text limit = hard_split_from (length text) text limit

-- All but the last entry, and the last one.
abbrev pub init : List Text → List Text
init [] = []
init (s ∷ []) = []
init (s ∷ t ∷ rest) = s ∷ init (t ∷ rest)

abbrev pub last_of : List Text → Text
last_of [] = []
last_of (s ∷ []) = s
last_of (s ∷ t ∷ rest) = last_of (t ∷ rest)

-- The variables of a loop that gathers pieces: those done, the one at hand, the fence that is open.
pub record Gathered : Type 0 where
  pub done : List Text
  pub current : Text
  pub fence : Text

abbrev pub separated : Text → Text → Text → Text
separated separator current piece = (if is_empty current then [] else current ++ separator) ++ piece

-- The piece at hand is put away, with the fence closed in it and opened in the next one.
abbrev pub flush : Text → Gathered → Gathered
flush piece g = record {
  done = g.done ++ (if is_empty g.fence then g.current else g.current ++ codes "\n```") ∷ [];
  current = if is_empty g.fence then piece else g.fence ++ codes "\n" ++ piece;
  fence = g.fence;
}

-- The pieces of one that is too long: the last of them is the one at hand.
abbrev pub gather_pieces : List Text → Gathered → Gathered
gather_pieces pieces g = record g { done = g.done ++ init pieces; current = last_of pieces }

unfoldable pub add_line : ℕ → Text → Gathered → Gathered
unfolding hard_split
add_line limit line g =
    let candidate = separated (codes "\n") g.current line in
    if leb (length candidate) limit
    then record g { current = candidate }
    else if is_empty g.current
    then gather_pieces (hard_split line limit) g
    else flush line g

unfoldable pub add_lines : ℕ → List Text → Gathered → Gathered
unfolding add_line track_line
add_lines limit [] g = g
add_lines limit (line ∷ lines) g =
    let added = add_line limit line g in
    add_lines limit lines (record added { fence = track_line line g.fence })

abbrev pub finish : Gathered → List Text
finish g = g.done ++ (if is_empty g.current then [] else g.current ∷ [])

unfoldable pub split_by_lines : Text → ℕ → Text → List Text
unfolding add_lines split_lines
split_by_lines text limit open_fence =
    finish
      (add_lines limit (split_lines text) (record { done = []; current = []; fence = open_fence }))

unfoldable pub add_paragraph : ℕ → Text → Gathered → Gathered
unfolding split_by_lines track_fences
add_paragraph limit para g =
    let candidate = separated (codes "\n\n") g.current para in
    let added =
      if leb (length candidate) limit
      then record g { current = candidate }
      else if is_empty g.current
      then gather_pieces (split_by_lines para limit g.fence) g
      else flush para g in
    record added { fence = track_fences para g.fence }

unfoldable pub add_paragraphs : ℕ → List Text → Gathered → Gathered
unfolding add_paragraph
add_paragraphs limit [] g = g
add_paragraphs limit (para ∷ paras) g = add_paragraphs limit paras (add_paragraph limit para g)

unfoldable pub chunk_markdown : Text → ℕ → List Text
unfolding add_paragraphs split_paragraphs filter
chunk_markdown text limit =
    if leb (length text) limit
    then text ∷ []
    else filter (λ c. not (is_empty c))
        (finish (
          add_paragraphs limit (split_paragraphs text)
            (record { done = []; current = []; fence = [] })))
