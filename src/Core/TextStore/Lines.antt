-- ===== src/Core/TextStore/Lines.antt =====
-- packages/core/src/text-store.ts: files with a JSON value on each line. JSON is a parameter, `none`
-- is what `parse` throws on; a file is the text that it has, if it exists.
use cere_worker.Prelude.{
  ℕ, Text, trim, ◌==◌, if◌then◌else◌, Bool, Option, none, some, List, [], ◌∷◌, ◌++◌, map, join,
}

pub record Json (V : Type 0) : Type 0 where
  pub parse : Text → Option V
  pub stringify : V → Text
  pub is_null : V → Bool

abbrev pub newline : ℕ
newline = 10

abbrev pub extend : ℕ → List Text → List Text
extend c [] = []
extend c (line ∷ lines) = (c ∷ line) ∷ lines

-- `content.split('\n')`
unfoldable pub split_lines : Text → List Text
split_lines [] = [] ∷ []
split_lines (c ∷ s) = let rest = split_lines s in if c == newline then [] ∷ rest else extend c rest

module _ {V : Type 0} (json : Json V) where
  open json use {parse, stringify, is_null}

  abbrev pub keep : Option V → List V → List V
  keep none rest = rest
  keep (some v) rest = if is_null v then rest else v ∷ rest

  -- The values of the lines that parse, without `null`.
  abbrev pub parse_lines : List Text → List V
  parse_lines [] = []
  parse_lines (line ∷ lines) = keep (parse line) (parse_lines lines)

  abbrev pub parse_content : Text → List V
  parse_content [] = []
  parse_content (c ∷ s) = parse_lines (split_lines (c ∷ s))

  unfoldable pub read_json_lines : Option Text → List V
  unfolding trim split_lines
  read_json_lines none = []
  read_json_lines (some content) = parse_content (trim content)

  abbrev pub write_json_lines : List V → Text
  write_json_lines [] = []
  write_json_lines (v ∷ rows) = join (newline ∷ []) (map stringify (v ∷ rows)) ++ newline ∷ []

  abbrev or_empty : Option Text → Text
  or_empty none = []
  or_empty (some content) = content

  -- `appendFileSync` makes the file where there is none.
  abbrev pub append_json_line : Option Text → V → Text
  append_json_line file v = or_empty file ++ (stringify v ++ newline ∷ [])
