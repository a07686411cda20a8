-- ===== src/Core/Conversation/Files.antt =====
-- packages/core/src/conversation.ts: the store in files, a directory for each conversation. `acquired`
-- says whether the lock of the directory is got. A file that cannot be parsed is one that is not
-- there. What is inside a session, a journal entry and a session event is a parameter; each stands for
-- what is read of it. `stored` is what is read of a message that was written, that is
-- `JSON.parse(JSON.stringify(message))`: a field that is undefined is not in it, for one.
use cere_worker.Prelude.{
  ℕ, ◌-◌, Text, ltb, if◌then◌else◌, Bool, Option, none, some, List, [], ◌∷◌, ◌++◌, map, length,
  map_get, map_set, map_delete,
}
use cere_worker.Core.Conversation.{
  Message, Conversation, Outcome, done, conversation_not_found, busy, new_conversation,
  without_messages, without_content, sort_by_updated, preview_of, is_some, is_empty_list,
}

pub record ConversationMeta : Type 0 where
  pub id : Text
  pub created_at : ℕ
  pub updated_at : ℕ

-- A journal file: when it was last written, and its lines.
pub record JournalFile (J : Type 0) : Type 0 where
  pub mtime_ms : ℕ
  pub entries : List J

pub record Dir (S J E : Type 0) : Type 0 where
  pub meta : Option ConversationMeta
  pub messages : List Message
  pub turns : List (Text × JournalFile J)
  pub snapshots : List (Text × S)
  pub ledgers : List (Text × List E)

abbrev pub meta_of : Conversation → ConversationMeta
meta_of c = record { id = c.id; created_at = c.created_at; updated_at = c.updated_at }

abbrev pub conversation_of : ConversationMeta → List Message → Conversation
conversation_of meta messages = record {
  id = meta.id;
  messages = messages;
  created_at = meta.created_at;
  updated_at = meta.updated_at;
}

abbrev pub join_meta : Option ConversationMeta → List Message → Option Conversation
join_meta none messages = none
join_meta (some meta) messages = some (conversation_of meta messages)

abbrev pub entries_of : {J : Type 0} → Option (JournalFile J) → List J
entries_of none = []
entries_of (some file) = file.entries

abbrev pub Disk : Type 0 → Type 0 → Type 0 → Type 0
Disk S J E = List (Text × Dir S J E)

abbrev pub append_entry : {J : Type 0} → ℕ → J → Option (JournalFile J) → JournalFile J
append_entry now entry none = record { mtime_ms = now; entries = entry ∷ [] }
append_entry now entry (some file) = record { mtime_ms = now; entries = file.entries ++ entry ∷ [] }

abbrev pub append_event : {E : Type 0} → E → Option (List E) → List E
append_event event none = event ∷ []
append_event event (some events) = events ++ event ∷ []

abbrev pub events_of : {E : Type 0} → Option (List E) → List E
events_of none = []
events_of (some events) = events

module _ {S J E : Type 0} where
  abbrev pub empty_dir : Dir S J E
  empty_dir = record { meta = none; messages = []; turns = []; snapshots = []; ledgers = [] }

  abbrev pub dir_or_empty : Option (Dir S J E) → Dir S J E
  dir_or_empty none = empty_dir
  dir_or_empty (some dir) = dir

  abbrev pub read_conversation : Option (Dir S J E) → Option Conversation
  read_conversation none = none
  read_conversation (some dir) = join_meta dir.meta dir.messages

  abbrev pub messages_in : Option (Dir S J E) → List Message
  messages_in none = []
  messages_in (some dir) = dir.messages

  -- The meta file and the file of messages are written; other files of the directory stay.
  unfoldable pub create : Bool → Text → ℕ → Disk S J E → Disk S J E × Outcome Conversation
  unfolding map_get map_set
  create acquired id now disk =
      let c = new_conversation id now in
      let dir = record (dir_or_empty (map_get id disk)) {
        meta = some (meta_of c);
        messages = [];
      } in
      if acquired then (map_set id dir disk, done c) else (disk, busy)

  unfoldable pub get : Text → Disk S J E → Option Conversation
  unfolding map_get
  get id disk = read_conversation (map_get id disk)

  -- The conversations whose meta file is there.
  unfoldable pub read_metas : Disk S J E → List Conversation
  read_metas [] = []
  read_metas ((id, dir) ∷ rest) = elim dir.meta [
    | none ↦ read_metas rest
    | some meta ↦ conversation_of meta [] ∷ read_metas rest
  ]

  unfoldable pub list : Disk S J E → List Conversation
  unfolding read_metas sort_by_updated
  list disk = map without_content (sort_by_updated [] (read_metas disk))

  -- A change of a directory whose meta file is there, under its lock.
  abbrev pub change_dir :
      Text
      → (ConversationMeta → Dir S J E → Dir S J E)
      → Disk S J E
      → Option (Dir S J E)
      → Option (Disk S J E)
  change_dir id change disk none = none
  change_dir id change disk (some dir) = elim dir.meta [
    | none ↦ none
    | some meta ↦ some (map_set id (change meta dir) disk)
  ]

  abbrev pub changed : {A : Type 0} → A → Disk S J E → Option (Disk S J E) → Disk S J E × Outcome A
  changed a disk none = (disk, conversation_not_found)
  changed a disk (some disk') = (disk', done a)

  unfoldable pub with_dir :
      {A : Type 0}
      → Bool
      → Text
      → A
      → (ConversationMeta → Dir S J E → Dir S J E)
      → Disk S J E
      → Disk S J E × Outcome A
  unfolding map_get map_set
  with_dir acquired id a change disk =
      if acquired
      then changed a disk (change_dir id change disk (map_get id disk))
      else (disk, busy)

  -- The message is given back as it is, not as it is read later.
  unfoldable pub append_message :
      (Message → Message) → Bool → Text → ℕ → Message → Disk S J E → Disk S J E × Outcome Message
  unfolding with_dir
  append_message stored acquired id now message disk =
      with_dir acquired id message
        (λ meta dir. record dir {
          messages = dir.messages ++ stored message ∷ [];
          meta = some (record meta { updated_at = now });
        })
        disk

  unfoldable pub get_messages : Text → Disk S J E → List Message
  unfolding map_get
  get_messages id disk = messages_in (map_get id disk)

  -- The messages that are kept were read, and are written again.
  abbrev pub delete_in :
      (Message → Message) → Text → List Text → Disk S J E → Option (Dir S J E) → Disk S J E × ℕ
  delete_in stored id ids disk none = (disk, 0)
  delete_in stored id ids disk (some dir) =
      let kept = without_messages ids dir.messages in
      let deleted = length dir.messages - length kept in
      (
        if ltb 0 deleted then map_set id (record dir { messages = map stored kept }) disk else disk,
        deleted,
      )

  unfoldable pub delete_messages :
      (Message → Message) → Bool → Text → List Text → Disk S J E → Disk S J E × Outcome ℕ
  unfolding map_get map_set without_messages
  delete_messages stored acquired id ids disk =
      if is_empty_list ids
      then (disk, done 0)
      else if acquired
      then (let (disk', n) = delete_in stored id ids disk (map_get id disk) in (disk', done n))
      else (disk, busy)

  unfoldable pub delete : Bool → Text → Disk S J E → Disk S J E × Outcome Bool
  unfolding map_get map_delete
  delete acquired id disk =
      if acquired then (map_delete id disk, done (is_some (map_get id disk))) else (disk, busy)

  unfoldable pub get_preview : Text → Disk S J E → Option Text
  unfolding get_messages preview_of
  get_preview id disk = preview_of (get_messages id disk)

  unfoldable pub append_turn_journal_entry :
      Bool → Text → Text → ℕ → J → Disk S J E → Disk S J E × Outcome (Unit {0})
  unfolding with_dir map_get map_set
  append_turn_journal_entry acquired id turn_id now entry disk =
      with_dir acquired id tt
        (λ _ dir. record dir {
          turns = map_set turn_id (append_entry now entry (map_get turn_id dir.turns)) dir.turns;
        })
        disk

  unfoldable pub get_turn_journal : Text → Text → Disk S J E → List J
  unfolding map_get
  get_turn_journal id turn_id disk =
      entries_of (map_get turn_id (dir_or_empty (map_get id disk)).turns)

  unfoldable pub append_session_event :
      Bool → Text → Text → E → Disk S J E → Disk S J E × Outcome (Unit {0})
  unfolding with_dir map_get map_set
  append_session_event acquired id session_id event disk =
      with_dir acquired id tt
        (λ _ dir. record dir {
          ledgers =
              map_set session_id (append_event event (map_get session_id dir.ledgers)) dir.ledgers;
        })
        disk

  unfoldable pub get_session_events : Text → Text → Disk S J E → List E
  unfolding map_get
  get_session_events id session_id disk =
      events_of (map_get session_id (dir_or_empty (map_get id disk)).ledgers)

  unfoldable pub save_query_session :
      Bool → Text → Text → S → Disk S J E → Disk S J E × Outcome (Unit {0})
  unfolding with_dir map_set
  save_query_session acquired id session_id session disk =
      with_dir acquired id tt
        (λ _ dir. record dir { snapshots = map_set session_id session dir.snapshots }) disk

  unfoldable pub get_query_session : Text → Text → Disk S J E → Option S
  unfolding map_get
  get_query_session id session_id disk =
      map_get session_id (dir_or_empty (map_get id disk)).snapshots
