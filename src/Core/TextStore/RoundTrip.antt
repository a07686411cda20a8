-- ===== src/Core/TextStore/RoundTrip.antt =====
-- packages/core/src/text-store.ts: what is read of lines that were written or appended.
use mathlib.Core.List.{reverse, reverse-append, reverse-reverse, append_assoc, map-append}
use cere_worker.Prelude.{
  Text, trim, trim_start, is_space, ◌==◌, Bool, true, false, not, none, some, List, [], ◌∷◌, ◌++◌,
  map, ◌≡◌, refl, sym, ap, ◌∙◌, any, join, All, arith, Bool-cases, inl, inr,
}
use cere_worker.Core.TextStore.Lines.{
  Json, newline, split_lines, parse_lines, parse_content, read_json_lines, write_json_lines,
  append_json_line,
}

-- It starts with something other than whitespace.
abbrev pub solid : Text → Bool
solid [] = false
solid (c ∷ s) = not (is_space c)

abbrev pub has_newline : Text → Bool
has_newline s = any (λ c. c == newline) s

abbrev pub IsLine : Text → Type 0
IsLine s = (solid s ≡ true) × (solid (reverse s) ≡ true) × (has_newline s ≡ false)

-- What the code relies on: JSON without spacing is one line, not blank at its ends, and is parsed to
-- what it was made of.
pub record IsLineJson {V : Type 0} (json : Json V) : Type 0 where
  pub round : (v : V) → json.parse (json.stringify v) ≡ some v
  pub not_null : (v : V) → json.is_null v ≡ false
  pub is_line : (v : V) → IsLine (json.stringify v)

abbrev join_lines : List Text → Text
join_lines lines = join (newline ∷ []) lines

join_lines-cons :
    (s t : Text) (rest : List Text)
    → join_lines (s ∷ t ∷ rest) ≡ s ++ (newline ∷ join_lines (t ∷ rest))
unfolding join
join_lines-cons s t rest = append_assoc s (newline ∷ []) (join_lines (t ∷ rest))

join_lines-append :
    (s : Text) (lines : List Text) (t : Text)
    → join_lines (s ∷ (lines ++ t ∷ [])) ≡ join_lines (s ∷ lines) ++ (newline ∷ t)
unfolding join
join_lines-append s [] t = append_assoc s (newline ∷ []) t
join_lines-append s (l ∷ lines) t =
    join_lines-cons s l (lines ++ t ∷ [])
    ∙ ap (λ r. s ++ (newline ∷ r)) (join_lines-append l lines t)
    ∙ sym (append_assoc s (newline ∷ join_lines (l ∷ lines)) (newline ∷ t))
    ∙ ap (λ r. r ++ (newline ∷ t)) (sym (join_lines-cons s l lines))

split_lines-one : (s : Text) → has_newline s ≡ false → split_lines s ≡ s ∷ []
unfolding split_lines any
split_lines-one [] h = refl
split_lines-one (c ∷ s) h = elim (Bool-cases (c == newline)) [
  | inl e ↦ absurd (ground (arith, h, e))
  | inr e ↦
      let later : has_newline s ≡ false = ground (arith, h) in rw (e, split_lines-one s later) refl
]

split_lines-append :
    (s t : Text) → has_newline s ≡ false → split_lines (s ++ newline ∷ t) ≡ s ∷ split_lines t
unfolding split_lines any
split_lines-append [] t h = refl
split_lines-append (c ∷ s) t h = elim (Bool-cases (c == newline)) [
  | inl e ↦ absurd (ground (arith, h, e))
  | inr e ↦
      let later : has_newline s ≡ false = ground (arith, h) in
      rw (e, split_lines-append s t later) refl
]

split_lines-join_lines :
    (s : Text) (rest : List Text)
    → All IsLine (s ∷ rest)
    → split_lines (join_lines (s ∷ rest)) ≡ s ∷ rest
unfolding join
split_lines-join_lines s [] ((_, _, one), _) = split_lines-one s one
split_lines-join_lines s (t ∷ rest) ((_, _, one), h) = rw (join_lines-cons s t rest) (
    split_lines-append s (join_lines (t ∷ rest)) one
    ∙ ap (λ l. s ∷ l) (split_lines-join_lines t rest h))

solid-append : (s t : Text) → solid s ≡ true → solid (s ++ t) ≡ true
solid-append [] t h = cc
solid-append (c ∷ s) t h = h

solid-join_lines :
    (s : Text) (rest : List Text)
    → All IsLine (s ∷ rest)
    → (solid (join_lines (s ∷ rest)) ≡ true) × (solid (reverse (join_lines (s ∷ rest))) ≡ true)
unfolding join
solid-join_lines s [] ((start, end, _), _) = (start, end)
solid-join_lines s (t ∷ rest) ((start, end, _), h) =
    let j = join_lines (t ∷ rest) in
    let (_, last) = solid-join_lines t rest h in
    let turned : reverse (s ++ (newline ∷ j)) ≡ (reverse j ++ newline ∷ []) ++ reverse s =
      reverse-append s (newline ∷ j) ∙ ap (λ r. r ++ reverse s) (reverse-append (newline ∷ []) j) in
    rw (join_lines-cons s t rest, turned)
      (
        solid-append s (newline ∷ j) start,
        solid-append (reverse j ++ newline ∷ []) (reverse s)
            (solid-append (reverse j) (newline ∷ []) last),
      )

trim_start-solid : (s : Text) → solid s ≡ true → trim_start s ≡ s
unfolding trim_start
trim_start-solid [] h = cc
trim_start-solid (c ∷ s) h = let dark : is_space c ≡ false = ground (arith, h) in rw dark refl

-- A text that is not blank at its ends is all that `trim` leaves of it with a newline.
trim-newline : (s : Text) → solid s ≡ true → solid (reverse s) ≡ true → trim (s ++ newline ∷ []) ≡ s
unfolding trim trim_start
trim-newline s start end =
    rw
      (
        trim_start-solid (s ++ newline ∷ []) (solid-append s (newline ∷ []) start),
        reverse-append s (newline ∷ []),
        trim_start-solid (reverse s) end,
      )
      (reverse-reverse s)

module _ {V : Type 0} (json : Json V) where
  parse_content-solid :
      (s : Text) → solid s ≡ true → parse_content json s ≡ parse_lines json (split_lines s)
  parse_content-solid [] h = cc
  parse_content-solid (c ∷ s) h = refl

  -- Whatever the lines are, those that parse are read.
  read_json_lines-join_lines :
      (s : Text) (rest : List Text)
      → All IsLine (s ∷ rest)
      → read_json_lines json (some (join_lines (s ∷ rest) ++ newline ∷ []))
        ≡ parse_lines json (s ∷ rest)
  unfolding read_json_lines
  read_json_lines-join_lines s rest h =
      let j = join_lines (s ∷ rest) in
      let (start, end) = solid-join_lines s rest h in
      ap (parse_content json) (trim-newline j start end)
      ∙ parse_content-solid j start
      ∙ ap (parse_lines json) (split_lines-join_lines s rest h)

  module _ (laws : IsLineJson json) where
    parse_lines-stringify : (rows : List V) → parse_lines json (map json.stringify rows) ≡ rows
    parse_lines-stringify [] = refl
    parse_lines-stringify (v ∷ rows) =
        rw (laws.round v, laws.not_null v, parse_lines-stringify rows) refl

    AreLines : (rows : List V) → All IsLine (map json.stringify rows)
    AreLines [] = tt
    AreLines (v ∷ rows) = (laws.is_line v, AreLines rows)

    read_json_lines-write :
        (rows : List V) → read_json_lines json (some (write_json_lines json rows)) ≡ rows
    unfolding read_json_lines
    read_json_lines-write [] = refl
    read_json_lines-write (v ∷ rows) =
        read_json_lines-join_lines (json.stringify v) (map json.stringify rows)
          (AreLines (v ∷ rows))
        ∙ parse_lines-stringify (v ∷ rows)

    append-write :
        (rows : List V) (v : V)
        → append_json_line json (some (write_json_lines json rows)) v
          ≡ write_json_lines json (rows ++ v ∷ [])
    unfolding join
    append-write [] v = refl
    append-write (r ∷ rows) v =
        let s = json.stringify v in
        let j = join_lines (map json.stringify (r ∷ rows)) in
        let longer : join_lines (map json.stringify (r ∷ (rows ++ v ∷ []))) ≡ j ++ (newline ∷ s) =
          ap (λ l. join_lines (json.stringify r ∷ l)) (map-append json.stringify rows (v ∷ []))
          ∙ join_lines-append (json.stringify r) (map json.stringify rows) s in
        append_assoc j (newline ∷ []) (s ++ newline ∷ [])
        ∙ sym (append_assoc j (newline ∷ s) (newline ∷ []))
        ∙ ap (λ l. l ++ newline ∷ []) (sym longer)

-- `readJsonLines` after `writeJsonLines` and `appendJsonLine`, where JSON prints a value in one line that
-- is not blank at its ends and parses it back, and no value is `null`: the rows that were written are
-- read, after an append one more behind them, and an append to a file that is not there makes one that
-- has the one row.
pub read_json_lines-append :
    {V : Type 0} (json : Json V) (laws : IsLineJson json) (rows : List V) (v : V)
    → let file = write_json_lines json rows in
      (read_json_lines json (some file) ≡ rows)
      × (read_json_lines json (some (append_json_line json (some file) v)) ≡ rows ++ v ∷ [])
      × (read_json_lines json (some (append_json_line json none v)) ≡ v ∷ [])
read_json_lines-append json laws rows v =
    let read = read_json_lines-write json laws in
    (
      read rows,
      ap (λ file. read_json_lines json (some file)) (append-write json laws rows v)
          ∙ read (rows ++ v ∷ []),
      ap (λ file. read_json_lines json (some file)) (append-write json laws [] v) ∙ read (v ∷ []),
    )
