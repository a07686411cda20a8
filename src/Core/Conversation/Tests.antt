-- ===== src/Core/Conversation/Tests.antt =====
-- Runs of the two stores and of the pruning of journals.
use cere_worker.Prelude.{
  codes, Bool, true, false, some, List, [], ◌∷◌, ◌≡◌, ◌≤◌, ◌⊎◌, refl, ltb, text_eq, Text, map_get,
  Memᴰ, All, length, ℕ, ◌+◌, Option, none, map,
}
use cere_worker.Core.ToolRuntime.Values.{Fields, end, field, undefined}
use cere_worker.Core.Conversation.{
  Message, user, cerebrum, no_extra, new_message, MemoryStore, done,
}
use cere_worker.Core.Conversation.Files.{Dir, Disk, JournalFile, ConversationMeta}
use cere_worker.Core.Conversation.Agreement.{
  Answer, messages, Call, creating, appending, removing, deleting, getting, reading, previewing,
  answers_memory, answers_files, answers_memory-answers_files,
}
use cere_worker.Core.Conversation.Journals.{
  TurnJournalRetentionPolicy, PruneReport, prune_by_age, cutoff_of, prune_turn_journals,
}
use cere_worker.Core.Conversation.Retention.{distinct_names}
use cere_worker.Core.Conversation.Pruned.{prune_turn_journals-within, prune_turn_journals-newest}

abbrev calls : List Call
calls =
    creating (codes "c1") 5
    ∷ appending (codes "c1") 6 (new_message (codes "m1") 6 user (codes "hello") no_extra)
    ∷ appending (codes "c1") 7 (new_message (codes "m2") 7 cerebrum (codes "hi") no_extra)
    ∷ appending (codes "c2") 8 (new_message (codes "m3") 8 user (codes "lost") no_extra)
    ∷ removing (codes "c1") (codes "m2" ∷ codes "m9" ∷ [])
    ∷ reading (codes "c1")
    ∷ previewing (codes "c1")
    ∷ deleting (codes "c1")
    ∷ getting (codes "c1")
    ∷ []

abbrev empty_store : MemoryStore ℕ
empty_store = record { conversations = []; sessions = [] }

abbrev empty_disk : Disk ℕ ℕ ℕ
empty_disk = []

-- What JSON makes of the metadata here: fields that are undefined are left out.
abbrev without_undefined : Fields → Fields
without_undefined end = end
without_undefined (field key undefined rest) = without_undefined rest
without_undefined (field key value rest) = field key value (without_undefined rest)

abbrev metadata_through_json : Option Fields → Option Fields
metadata_through_json none = none
metadata_through_json (some fields) = some (without_undefined fields)

abbrev through_json : Message → Message
through_json m = record m {
  extra = record m.extra { metadata = metadata_through_json m.extra.metadata };
}

answers_memory-answers_files_example :
    answers_memory calls empty_store ≡ answers_files through_json calls empty_disk
unfolding map_get
answers_memory-answers_files_example =
    answers_memory-answers_files through_json calls empty_store empty_disk
      (tt, (refl, (refl, (refl, (tt, (tt, (tt, (tt, (tt, tt))))))))) (λ id. tt)

-- A field that is undefined is kept in memory and is not in the file.
abbrev with_undefined : List Call
with_undefined =
    creating (codes "c1") 5
    ∷ appending (codes "c1") 6 (
        new_message (codes "m1") 6 user (codes "hello")
          (record no_extra { metadata = some (field (codes "k") undefined end) }))
    ∷ reading (codes "c1")
    ∷ []

abbrev metadata_read : List Answer → List (Option Fields)
metadata_read [] = []
metadata_read (messages ms ∷ rest) = map (λ m. m.extra.metadata) ms
metadata_read (_ ∷ rest) = metadata_read rest

in_memory :
    metadata_read (answers_memory with_undefined empty_store)
    ≡ some (field (codes "k") undefined end) ∷ []
unfolding answers_memory
in_memory = refl

in_files : metadata_read (answers_files through_json with_undefined empty_disk) ≡ some end ∷ []
unfolding answers_files
in_files = refl

-- Names here are single letters, so their codes are compared.
abbrev behind : Text → Text → Bool
behind (c ∷ _) (d ∷ _) = ltb d c
behind _ _ = false

abbrev journal : ℕ → JournalFile ℕ
journal at = record { mtime_ms = at; entries = at ∷ [] }

abbrev conversation_meta : ConversationMeta
conversation_meta = record { id = codes "c1"; created_at = 1; updated_at = 2 }

abbrev dir : Dir ℕ ℕ ℕ
dir = record {
  meta = some conversation_meta;
  messages = [];
  turns =
      (codes "a", journal 100000000)
      ∷ (codes "b", journal 5)
      ∷ (codes "c", journal 100000002)
      ∷ (codes "d", journal 100000001)
      ∷ [];
  snapshots = [];
  ledgers = [];
}

abbrev dir_after : Dir ℕ ℕ ℕ
dir_after = record dir {
  turns = (codes "c", journal 100000002) ∷ (codes "d", journal 100000001) ∷ [];
}

abbrev disk : Disk ℕ ℕ ℕ
disk = (codes "c1", dir) ∷ []

abbrev policy : TurnJournalRetentionPolicy
policy = record { max_days = 1; max_files_per_conversation = 2 }

left_over :
    map_get (codes "c1") (prune_turn_journals behind true (codes "c1") 100000010 policy disk).0
    ≡ some dir_after
unfolding prune_turn_journals map_get
left_over = refl

prune_turn_journals-within_example :
    let called = prune_turn_journals behind true (codes "c1") 100000010 policy disk in
    (report : PruneReport) × (left : List (Text × JournalFile ℕ)) × (called.1 ≡ done report)
    × (map_get (codes "c1") called.0 ≡ some (record dir { turns = left }))
    × ((policy.max_files_per_conversation ≡ 0) ⊎ (length left ≤ 2))
    × ((policy.max_days ≡ 0) ⊎ All (λ f. cutoff_of 100000010 1 ≤ f.1.mtime_ms) left)
    × (report.remaining ≡ length left)
    × (report.pruned_by_age + report.pruned_by_count + report.remaining ≡ 4)
unfolding map_get text_eq distinct_names
prune_turn_journals-within_example =
    prune_turn_journals-within behind (codes "c1") 100000010 policy disk dir conversation_meta refl
      refl refl

prune_turn_journals-newest_example :
    Memᴰ (codes "a", journal 100000000) dir_after.turns ⊎ (100000000 ≤ 100000001)
unfolding map_get text_eq distinct_names prune_by_age
prune_turn_journals-newest_example =
    prune_turn_journals-newest behind (codes "c1") 100000010 policy disk dir dir_after
      conversation_meta (codes "d", journal 100000001) (codes "a", journal 100000000) refl refl refl
      left_over (Memᴰ.tail (Memᴰ.head refl)) (Memᴰ.head refl)
