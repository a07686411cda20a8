-- ===== src/Core/Conversation/Agreement.antt =====
-- packages/core/src/conversation.ts: the two stores answer alike where messages are such as JSON gives
-- back as they are, and callers leave the objects that they are given alone. The lists of all conversations are
-- left out, as the order of a directory is not that of the map, and so are sessions and journals,
-- which the store in memory keeps for any id, or not at all.
use cere_worker.Prelude.{
  ℕ, ◌-◌, Text, text_eq, text_eq_iff, ltb, Bool, true, Option, none, some, List, [], ◌∷◌, ◌++◌, ◌≡◌,
  refl, sym, ap, map_get, map_set, map_delete, map_get-map_set, map_get-map_delete, length, arith,
  Bool-cases, inl, inr, filter, length-filter-le, map, not, All, All-append, All-filter,
}
use cere_worker.Core.Conversation.{
  Message, Conversation, Outcome, done, MemoryStore, is_among, append_found, delete_found,
  without_messages, is_empty_list, messages_of, is_some, preview_of, new_conversation,
}
use cere_worker.Core.Conversation
use cere_worker.Core.Conversation.Files
use cere_worker.Core.Conversation.Files.{
  Dir, Disk, empty_dir, dir_or_empty, meta_of, read_conversation, join_meta, messages_in,
  change_dir, changed, with_dir, delete_in,
}

pub data Call : Type 0 where
  creating : Text → ℕ → Call
  appending : Text → ℕ → Message → Call
  removing : Text → List Text → Call
  deleting getting reading previewing : Text → Call

pub data Answer : Type 0 where
  created : Outcome Conversation → Answer
  appended : Outcome Message → Answer
  removed : Outcome ℕ → Answer
  deleted : Outcome Bool → Answer
  found : Option Conversation → Answer
  messages : List Message → Answer
  preview : Option Text → Answer

filter_all :
    (p : Message → Bool) (xs : List Message)
    → length xs - length (filter p xs) ≡ 0
    → filter p xs ≡ xs
unfolding filter
filter_all p [] h = refl
filter_all p (x ∷ xs) h = ground (arith, length-filter-le p xs, filter_all p xs)

module _ {S : Type 0} where
  unfoldable pub perform_memory : Call → MemoryStore S → MemoryStore S × Answer
  unfolding Conversation.create Conversation.append_message Conversation.delete_messages
      Conversation.delete Conversation.get Conversation.get_messages Conversation.get_preview
  perform_memory (creating id now) store =
      let (store', c) = Conversation.create id now store in (store', created (done c))
  perform_memory (appending id now message) store =
      let (store', o) = Conversation.append_message id now message store in (store', appended o)
  perform_memory (removing id ids) store =
      let (store', n) = Conversation.delete_messages id ids store in (store', removed (done n))
  perform_memory (deleting id) store =
      let (store', b) = Conversation.delete id store in (store', deleted (done b))
  perform_memory (getting id) store = (store, found (Conversation.get id store))
  perform_memory (reading id) store = (store, messages (Conversation.get_messages id store))
  perform_memory (previewing id) store = (store, preview (Conversation.get_preview id store))

  unfoldable pub answers_memory : List Call → MemoryStore S → List Answer
  unfolding perform_memory
  answers_memory [] store = []
  answers_memory (c ∷ cs) store =
      let (store', a) = perform_memory c store in a ∷ answers_memory cs store'

module _ {S J E : Type 0} where
  -- Each lock is got.
  unfoldable pub perform_files : (Message → Message) → Call → Disk S J E → Disk S J E × Answer
  unfolding Files.create Files.append_message Files.delete_messages Files.delete Files.get
      Files.get_messages Files.get_preview
  perform_files stored (creating id now) disk =
      let (disk', o) = Files.create true id now disk in (disk', created o)
  perform_files stored (appending id now message) disk =
      let (disk', o) = Files.append_message stored true id now message disk in (disk', appended o)
  perform_files stored (removing id ids) disk =
      let (disk', o) = Files.delete_messages stored true id ids disk in (disk', removed o)
  perform_files stored (deleting id) disk =
      let (disk', o) = Files.delete true id disk in (disk', deleted o)
  perform_files stored (getting id) disk = (disk, found (Files.get id disk))
  perform_files stored (reading id) disk = (disk, messages (Files.get_messages id disk))
  perform_files stored (previewing id) disk = (disk, preview (Files.get_preview id disk))

  unfoldable pub answers_files : (Message → Message) → List Call → Disk S J E → List Answer
  unfolding perform_files
  answers_files stored [] disk = []
  answers_files stored (c ∷ cs) disk =
      let (disk', a) = perform_files stored c disk in a ∷ answers_files stored cs disk'

-- JSON gives the message back as it is.
abbrev pub IsPlain : (Message → Message) → Message → Type 0
IsPlain stored m = stored m ≡ m

abbrev pub IsPlainCall : (Message → Message) → Call → Type 0
IsPlainCall stored call = elim call [ appending id now m ↦ IsPlain stored m | _ ↦ Unit ]

map-plain :
    (stored : Message → Message) (xs : List Message) → All (IsPlain stored) xs → map stored xs ≡ xs
map-plain stored [] h = refl
map-plain stored (x ∷ xs) (p, h) = rw (p, map-plain stored xs h) refl

module _ {S J E : Type 0} (stored : Message → Message) where
  -- A conversation and the directory that holds it.
  abbrev pub Twins : Option Conversation → Option (Dir S J E) → Type 0
  Twins none none = Unit
  Twins (some c) (some dir) =
      (dir.meta ≡ some (meta_of c)) × (dir.messages ≡ c.messages) × All (IsPlain stored) c.messages
  Twins _ _ = ⊥

  -- Each conversation in memory has its directory, and each directory its conversation.
  abbrev pub Agree : MemoryStore S → Disk S J E → Type 0
  Agree store disk = (id : Text) → Twins (map_get id store.conversations) (map_get id disk)

  -- The call gives the same answer, and the stores agree after it.
  abbrev Alike : MemoryStore S × Answer → Disk S J E × Answer → Type 0
  Alike (store, a) (disk, b) = Agree store disk × (a ≡ b)

  set-Agree :
      (store : MemoryStore S) (disk : Disk S J E) (id : Text) (c : Conversation) (dir : Dir S J E)
      → dir.meta ≡ some (meta_of c)
      → dir.messages ≡ c.messages
      → All (IsPlain stored) c.messages
      → Agree store disk
      → Agree
          (record store { conversations = map_set id c store.conversations })
          (map_set id dir disk)
  set-Agree store disk id c dir meta same plain agree other =
      rw (map_get-map_set id other c store.conversations, map_get-map_set id other dir disk)
        (elim (Bool-cases (text_eq id other)) [
          | inl t ↦ rw t (meta, same, plain)
          | inr t ↦ rw t (agree other)
        ])

  appending-Alike :
      (store : MemoryStore S) (disk : Disk S J E) (id : Text) (now : ℕ) (message : Message)
      → IsPlain stored message
      → Agree store disk
      → Alike
          (perform_memory (appending id now message) store)
          (perform_files stored (appending id now message) disk)
  unfolding perform_memory perform_files
  appending-Alike store disk id now message is_plain agree =
      cases (map_get id store.conversations) (map_get id disk) (agree id)
    where
      cases :
          (o : Option Conversation) (p : Option (Dir S J E))
          → Twins o p
          → let (store', a) = append_found id now message store o in
            let (disk', b) = changed message disk (
              change_dir id
                (λ meta dir. record dir {
                  messages = dir.messages ++ stored message ∷ [];
                  meta = some (record meta { updated_at = now });
                })
                disk
                p) in
            Agree store' disk' × (appended a ≡ appended b)
      cases none none twins = (agree, refl)
      cases none (some dir) twins = absurd twins
      cases (some c) none twins = absurd twins
      cases (some c) (some dir) (meta, same, plain) =
          let added = All-append (IsPlain stored) c.messages (message ∷ []) plain (is_plain, tt) in
          rw meta (set-Agree store disk id _ _ refl (rw (same, is_plain) refl) added agree, refl)

  -- Nothing is removed: the directory stays as it is.
  same-Agree :
      (store : MemoryStore S) (disk : Disk S J E) (id : Text) (c : Conversation)
      → map_get id store.conversations ≡ some c
      → Agree store disk
      → Agree (record store { conversations = map_set id c store.conversations }) disk
  same-Agree store disk id c there agree other =
      rw (map_get-map_set id other c store.conversations) (elim (Bool-cases (text_eq id other)) [
        | inl t ↦
            let same : id ≡ other = (text_eq_iff id other).0 t in
            let there' : map_get other store.conversations ≡ some c = rw (← same) there in
            rw (t, ← there') (agree other)
        | inr t ↦ rw t (agree other)
      ])

  deleting-Alike :
      (store : MemoryStore S) (disk : Disk S J E) (id : Text)
      → Agree store disk
      → Alike (perform_memory (deleting id) store) (perform_files stored (deleting id) disk)
  unfolding perform_memory perform_files
  deleting-Alike store disk id agree = (gone, ap (λ b. deleted (done b)) (flags _ _ (agree id)))
    where
      gone :
          Agree
            (record store {
              conversations = map_delete id store.conversations;
              sessions = map_delete id store.sessions;
            })
            (map_delete id disk)
      gone other =
          rw (map_get-map_delete id other store.conversations, map_get-map_delete id other disk)
            (elim (Bool-cases (text_eq id other)) [ inl t ↦ rw t tt | inr t ↦ rw t (agree other) ])

      flags : (o : Option Conversation) (p : Option (Dir S J E)) → Twins o p → is_some o ≡ is_some p
      flags none none twins = refl
      flags none (some dir) twins = absurd twins
      flags (some c) none twins = absurd twins
      flags (some c) (some dir) twins = refl

  removing-Alike :
      (store : MemoryStore S) (disk : Disk S J E) (id : Text) (ids : List Text)
      → Agree store disk
      → Alike (perform_memory (removing id ids) store) (perform_files stored (removing id ids) disk)
  unfolding perform_memory perform_files
  removing-Alike store disk id [] agree = (agree, refl)
  removing-Alike store disk id (i ∷ ids) agree =
      cases (map_get id store.conversations) (map_get id disk) refl refl (agree id)
    where
      cases :
          (o : Option Conversation) (p : Option (Dir S J E))
          → map_get id store.conversations ≡ o
          → map_get id disk ≡ p
          → Twins o p
          → let (store', n) = delete_found id (i ∷ ids) store o in
            let (disk', k) = delete_in stored id (i ∷ ids) disk p in
            Agree store' disk' × (removed (done n) ≡ removed (done k))
      cases none none at_o at_p twins = (agree, refl)
      cases none (some dir) at_o at_p twins = absurd twins
      cases (some c) none at_o at_p twins = absurd twins
      cases (some c) (some dir) at_o at_p (meta, same, plain) =
          let kept = without_messages (i ∷ ids) c.messages in
          let kept_plain : All (IsPlain stored) kept =
            All-filter (IsPlain stored) (λ m. not (is_among (i ∷ ids) m)) c.messages plain in
          rw same (elim (Bool-cases (ltb 0 (length c.messages - length kept))) [
            | inl t ↦ rw t (
              set-Agree store disk id _ _ meta (map-plain stored kept kept_plain) kept_plain agree,
              refl,
            )
            | inr t ↦
                let all : kept ≡ c.messages = filter_all _ c.messages (ground (arith, t)) in
                rw t (rw all (same-Agree store disk id c at_o agree), refl)
          ])

  listed :
      (o : Option Conversation) (p : Option (Dir S J E)) → Twins o p → messages_of o ≡ messages_in p
  listed none none twins = refl
  listed none (some dir) twins = absurd twins
  listed (some c) none twins = absurd twins
  listed (some c) (some dir) (meta, same, plain) = sym same

  perform-Alike :
      (call : Call) (store : MemoryStore S) (disk : Disk S J E)
      → IsPlainCall stored call
      → Agree store disk
      → Alike (perform_memory call store) (perform_files stored call disk)
  unfolding perform_memory perform_files
  perform-Alike (creating id now) store disk plain agree =
      (set-Agree store disk id (new_conversation id now) _ refl refl tt agree, refl)
  perform-Alike (appending id now message) store disk plain agree =
      appending-Alike store disk id now message plain agree
  perform-Alike (removing id ids) store disk plain agree = removing-Alike store disk id ids agree
  perform-Alike (deleting id) store disk plain agree = deleting-Alike store disk id agree
  perform-Alike (getting id) store disk plain agree = (agree, ap found (same _ _ (agree id)))
    where
      same :
          (o : Option Conversation) (p : Option (Dir S J E)) → Twins o p → o ≡ read_conversation p
      same none none twins = refl
      same none (some dir) twins = absurd twins
      same (some c) none twins = absurd twins
      same (some c) (some dir) (meta, texts, plain) = rw (meta, texts) refl
  perform-Alike (reading id) store disk plain agree = (agree, ap messages (listed _ _ (agree id)))
  perform-Alike (previewing id) store disk plain agree =
      (agree, ap (λ ms. preview (preview_of ms)) (listed _ _ (agree id)))

  -- The store in memory and the one in files answer alike: where they agree and each message that is
  -- appended is one that JSON gives back as it is, any sequence of calls that create, append, remove
  -- messages, delete, get, read and preview gives the same answers, errors included, if each lock is
  -- got. An answer is what it is at the time of the call.
  pub answers_memory-answers_files :
      (calls : List Call) (store : MemoryStore S) (disk : Disk S J E)
      → All (IsPlainCall stored) calls
      → Agree store disk
      → answers_memory calls store ≡ answers_files stored calls disk
  unfolding answers_memory answers_files
  answers_memory-answers_files [] store disk plain agree = refl
  answers_memory-answers_files (c ∷ cs) store disk (p, plain) agree =
      let (agree', same) = perform-Alike c store disk p agree in
      let rest =
        answers_memory-answers_files cs (perform_memory c store).0 (perform_files stored c disk).0
          plain agree' in
      rw (same, rest) refl
