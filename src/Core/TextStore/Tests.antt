-- ===== src/Core/TextStore/Tests.antt =====
-- packages/core/src/text-store.ts: the lock and the lines of a file on concrete input. Processes 10, 20 and 30 are of host 1.
use cere_worker.Prelude.{
  Text, codes, text_eq, any, Option, none, some, ℕ, ◌+◌, ◌≤◌, ◌<◌, ◌==◌, if◌then◌else◌, Bool, true,
  false, ◌&&◌, List, [], ◌∷◌, ◌++◌, ◌≡◌, refl, arith,
}
use cere_worker.Core.TextStore.Lock.{
  System, gone, inside, out, none_yet, threw, returned, store_busy, trying, made, sleeping,
  default_options, Event, advancing, beginning, spawning, crashing, passing, steps, nothing_runs,
}
use cere_worker.Core.TextStore.Stale.{is_still_stale}
use cere_worker.Core.TextStore.Exclusion.{IsTimely, AreTimely, steps-exclusive}
use cere_worker.Core.TextStore.Lines.{Json, read_json_lines, write_json_lines, append_json_line}
use cere_worker.Core.TextStore.RoundTrip.{IsLine, IsLineJson, read_json_lines-append}
use cere_worker.Core.TextStore.Progress.{repeat, steps-gets_lock}

abbrev call_of : ℕ → List Event
call_of pid = spawning 1 pid ∷ beginning 1 pid ∷ []

-- Process 30 gets the lock and dies with it; it is stale after the time.
abbrev crashed : List Event
crashed = call_of 30 ++ repeat 2 (advancing 1 30) ++ crashing 1 30 ∷ []

abbrev left_behind : List Event
left_behind = crashed ++ passing 30000 ∷ []

abbrev after : List Event → System
after events = steps default_options events (nothing_runs 0)

-- Process 10 takes it over.
abbrev taken_over : List Event
taken_over =
    left_behind
    ++ call_of 10
    ++ repeat 6 (advancing 1 10)
    ++ call_of 20
    ++ repeat 4 (advancing 1 20)

abbrev taken : System
taken = after taken_over

taken_at : taken.procs 1 10 ≡ inside
unfolding steps
taken_at = refl

waits_for_it : taken.procs 1 20 ≡ sleeping 30000 30100
unfolding steps
waits_for_it = refl

not_made :
    (b : Bool) (t n : ℕ)
    → (if b
        then gone
        else if b
        then inside
        else if b
        then made 0
        else if b
        then trying 0
        else if b
        then out none_yet
        else gone)
      ≡ made t
    → 0 + 30000 < n + 30000
not_made true t n e = cc
not_made false t n e = cc

taken_over-AreTimely : AreTimely default_options taken_over (nothing_runs 0)
unfolding steps
taken_over-AreTimely =
    let no_wait : AreTimely default_options [] taken = tt in
    let passes : IsTimely default_options (passing 30000) (after crashed) =
      λ host pid t d at l. not_made (host == 1 && pid == 30) t d.mtime_ms at in
    (
      tt,
      (
        tt,
        (
          tt,
          (
            tt,
            (
              tt,
              (
                passes,
                (
                  tt,
                  (
                    tt,
                    (
                      tt,
                      (tt, (tt, (refl, (tt, (tt, (tt, (tt, (tt, (tt, (tt, (tt, no_wait))))))))))),
                    ),
                  ),
                ),
              ),
            ),
          ),
        ),
      ),
    )

steps-exclusive_example : ◌≡◌ {A = ℕ} 1 1 × ◌≡◌ {A = ℕ} 10 10
steps-exclusive_example =
    steps-exclusive default_options taken_over 0 1 10 1 10 (omega arith) taken_over-AreTimely
      taken_at taken_at

abbrev called : System
called = after (left_behind ++ call_of 10)

called_at : called.procs 1 10 ≡ trying 30000
unfolding steps
called_at = refl

called_stale : is_still_stale default_options 1 called called.lock ≡ true
unfolding steps
called_stale = refl

steps-gets_lock_example :
    (n : ℕ) × (n ≤ 7)
    × ((steps default_options (repeat n (advancing 1 10)) called).procs 1 10 ≡ inside)
steps-gets_lock_example = steps-gets_lock default_options 1 10 30000 called called_at called_stale

-- Both 10 and 20 find the lock stale; 20 removes the one that 10 has made since.
abbrev raced : List Event
raced =
    left_behind
    ++ call_of 10
    ++ call_of 20
    ++ repeat 3 (advancing 1 10)
    ++ repeat 3 (advancing 1 20)
    ++ repeat 3 (advancing 1 10)
    ++ repeat 3 (advancing 1 20)

both_inside : ((after raced).procs 1 10 ≡ inside) × ((after raced).procs 1 20 ≡ inside)
unfolding steps
both_inside = (refl, refl)

-- 20 finds the directory of 10 without an owner, and it is gone when 20 asks for its age.
abbrev vanished : List Event
vanished =
    call_of 10
    ++ advancing 1 10 ∷ call_of 20
    ++ repeat 3 (advancing 1 20)
    ++ repeat 2 (advancing 1 10)
    ++ advancing 1 20 ∷ []

throws : ((after vanished).procs 1 10 ≡ out returned) × ((after vanished).procs 1 20 ≡ out threw)
unfolding steps
throws = (refl, refl)

-- The wait is over after two seconds.
abbrev waited : List Event
waited = taken_over ++ passing 2000 ∷ repeat 5 (advancing 1 20)

busy : (after waited).procs 1 20 ≡ out store_busy
unfolding steps
busy = refl

-- Values that are Booleans, printed as JSON does.
abbrev boolean_text : Bool → Text
boolean_text true = codes "true"
boolean_text false = codes "false"

abbrev parse_boolean : Text → Option Bool
parse_boolean s =
    if text_eq s (codes "true")
    then some true
    else if text_eq s (codes "false")
    then some false
    else none

abbrev booleans : Json Bool
booleans = record { parse = parse_boolean; stringify = boolean_text; is_null = λ b. false }

parse-boolean_text : (b : Bool) → parse_boolean (boolean_text b) ≡ some b
unfolding text_eq
parse-boolean_text true = refl
parse-boolean_text false = refl

boolean_text-IsLine : (b : Bool) → IsLine (boolean_text b)
unfolding any
boolean_text-IsLine true = (refl, refl, refl)
boolean_text-IsLine false = (refl, refl, refl)

booleans-IsLineJson : IsLineJson booleans
booleans-IsLineJson = record {
  round = parse-boolean_text;
  not_null = λ b. refl;
  is_line = boolean_text-IsLine;
}

read_json_lines-append_example :
    let file = write_json_lines booleans (true ∷ false ∷ []) in
    (read_json_lines booleans (some file) ≡ true ∷ false ∷ [])
    × (read_json_lines booleans (some (append_json_line booleans (some file) true))
        ≡ (true ∷ false ∷ []) ++ true ∷ [])
    × (read_json_lines booleans (some (append_json_line booleans none true)) ≡ true ∷ [])
read_json_lines-append_example =
    read_json_lines-append booleans booleans-IsLineJson (true ∷ false ∷ []) true

-- A line that was cut off is left out, blank ends are too.
torn_line : read_json_lines booleans (some (codes "true\nfal\nfalse\n\n")) ≡ true ∷ false ∷ []
unfolding read_json_lines text_eq
torn_line = refl

no_file : read_json_lines booleans none ≡ []
unfolding read_json_lines
no_file = refl
