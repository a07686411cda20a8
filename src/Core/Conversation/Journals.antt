-- ===== src/Core/Conversation/Journals.antt =====
-- packages/core/src/conversation.ts: `pruneTurnJournals`, which journal files of a conversation are
-- kept. `goes_behind` is `localeCompare`: whether the first text is sorted behind the second.
use cere_worker.Prelude.{
  ℕ, ◌-◌, ◌*◌, Text, text_eq, leb, ltb, ◌==◌, if◌then◌else◌, Bool, not, ◌&&◌, ◌||◌, Option, none,
  some, List, [], ◌∷◌, map, filter, any, length, take, map_get, map_set,
}
use cere_worker.Core.Conversation.{Outcome, done, busy}
use cere_worker.Core.Conversation.Files.{Dir, Disk, JournalFile}

pub record TurnJournalRetentionPolicy : Type 0 where
  pub max_days : ℕ
  pub max_files_per_conversation : ℕ

pub record PruneReport : Type 0 where
  pub pruned_by_age : ℕ
  pub pruned_by_count : ℕ
  pub remaining : ℕ

abbrev pub nothing_pruned : PruneReport
nothing_pruned = record { pruned_by_age = 0; pruned_by_count = 0; remaining = 0 }

abbrev pub cutoff_of : ℕ → ℕ → ℕ
cutoff_of now days = now - days * 24 * 60 * 60 * 1000

module _ {J : Type 0} where
  abbrev pub is_named : List Text → Text × JournalFile J → Bool
  is_named names (i, f) = any (λ k. text_eq k i) names

  -- The part for `maxDays`.
  unfoldable pub prune_by_age : ℕ → ℕ → List (Text × JournalFile J) → List (Text × JournalFile J)
  unfolding filter
  prune_by_age now days files =
      if ltb 0 days then filter (λ f. leb (cutoff_of now days) f.1.mtime_ms) files else files

  -- `expired`
  unfoldable pub expired_files : ℕ → ℕ → List (Text × JournalFile J) → List (Text × JournalFile J)
  unfolding filter
  expired_files now days files =
      if ltb 0 days then filter (λ f. ltb f.1.mtime_ms (cutoff_of now days)) files else []

  abbrev pub is_same_file : Text × JournalFile J → Text × JournalFile J → Bool
  is_same_file f g = text_eq f.0 g.0

  -- `rmSync` of each file of the first list.
  unfoldable pub remove_files :
      List (Text × JournalFile J) → List (Text × JournalFile J) → List (Text × JournalFile J)
  unfolding filter any text_eq
  remove_files removed files = filter (λ f. not (any (λ r. is_same_file r f) removed)) files

module _ {J : Type 0} (goes_behind : Text → Text → Bool) where
  -- Whether `b.mtimeMs - a.mtimeMs || a.turnId.localeCompare(b.turnId)` is negative.
  abbrev pub comes_first : Text × JournalFile J → Text × JournalFile J → Bool
  comes_first (i, a) (j, b) =
      ltb b.mtime_ms a.mtime_ms || (a.mtime_ms == b.mtime_ms && goes_behind j i)

  -- A stable sort.
  unfoldable pub insert_file :
      Text × JournalFile J → List (Text × JournalFile J) → List (Text × JournalFile J)
  insert_file f [] = f ∷ []
  insert_file f (x ∷ xs) = if comes_first f x then f ∷ x ∷ xs else x ∷ insert_file f xs

  unfoldable pub sort_files :
      List (Text × JournalFile J) → List (Text × JournalFile J) → List (Text × JournalFile J)
  unfolding insert_file
  sort_files sorted [] = sorted
  sort_files sorted (f ∷ rest) = sort_files (insert_file f sorted) rest

  -- The names of the files that are kept when there are too many.
  unfoldable pub names_to_keep : ℕ → List (Text × JournalFile J) → List Text
  unfolding sort_files
  names_to_keep n files = map (λ f. f.0) (take n (sort_files [] files))

  -- The part of the function for `maxFilesPerConversation`.
  unfoldable pub prune_by_count : ℕ → List (Text × JournalFile J) → List (Text × JournalFile J)
  unfolding names_to_keep filter any text_eq
  prune_by_count n files =
      if ltb 0 n && ltb n (length files)
      then filter (is_named (names_to_keep n files)) files
      else files

  -- `overflow`
  unfoldable pub overflow_files : ℕ → List (Text × JournalFile J) → List (Text × JournalFile J)
  unfolding names_to_keep filter any text_eq
  overflow_files n files =
      if ltb 0 n && ltb n (length files)
      then filter (λ f. not (is_named (names_to_keep n files) f)) files
      else []

  -- What `retained` is in the end.
  abbrev pub pruned_files :
      ℕ → TurnJournalRetentionPolicy → List (Text × JournalFile J) → List (Text × JournalFile J)
  pruned_files now policy files =
      prune_by_count policy.max_files_per_conversation (prune_by_age now policy.max_days files)

  -- The files that are there after both loops of `rmSync`.
  abbrev pub files_left :
      ℕ → TurnJournalRetentionPolicy → List (Text × JournalFile J) → List (Text × JournalFile J)
  files_left now policy files =
      let young = prune_by_age now policy.max_days files in
      remove_files (overflow_files policy.max_files_per_conversation young)
        (remove_files (expired_files now policy.max_days files) files)

  abbrev pub report_of : ℕ → TurnJournalRetentionPolicy → List (Text × JournalFile J) → PruneReport
  report_of now policy files =
      let young = prune_by_age now policy.max_days files in
      record {
        pruned_by_age = length (expired_files now policy.max_days files);
        pruned_by_count = length (overflow_files policy.max_files_per_conversation young);
        remaining = length (pruned_files now policy files);
      }

module _ {S J E : Type 0} (goes_behind : Text → Text → Bool) where
  abbrev pub prune_found :
      Text
      → ℕ
      → TurnJournalRetentionPolicy
      → Disk S J E
      → Option (Dir S J E)
      → Disk S J E × PruneReport
  prune_found id now policy disk none = (disk, nothing_pruned)
  prune_found id now policy disk (some dir) = elim dir.meta [
    | none ↦ (disk, nothing_pruned)
    | some meta ↦ (
      map_set id (record dir { turns = files_left goes_behind now policy dir.turns }) disk,
      report_of goes_behind now policy dir.turns,
    )
  ]

  unfoldable pub prune_turn_journals :
      Bool → Text → ℕ → TurnJournalRetentionPolicy → Disk S J E → Disk S J E × Outcome PruneReport
  unfolding map_get map_set prune_by_count prune_by_age expired_files overflow_files remove_files
  prune_turn_journals acquired id now policy disk =
      if acquired
      then (let (disk', report) = prune_found id now policy disk (map_get id disk) in
          (disk', done report))
      else (disk, busy)
