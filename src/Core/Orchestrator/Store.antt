-- ===== src/Core/Orchestrator/Store.antt =====
-- packages/core/src/orchestrator.ts: what a turn uses of the conversation store, with what it relies on,
-- and the store in memory as one that has it.
use cere_worker.Prelude.{
  ℕ, Text, text_eq_refl, Bool, true, Option, none, some, List, [], ◌∷◌, ◌++◌, ◌≡◌, sym, refl,
  map_get, map_get-map_set, filter-id, any, All,
}
use cere_worker.Core.Conversation.{
  Message, Conversation, Outcome, MemoryStore, without_messages, is_some, is_empty_list, is_among,
  append_found, delete_found, messages_of,
}
use cere_worker.Core.Conversation

-- `exists` says whether a conversation is there; the other laws are about one that is.
pub record ConversationStore (St : Type 0) : Type 0 where
  pub append_message : Text → ℕ → Message → St → St × Outcome Message
  pub get_messages : Text → St → List Message
  pub delete_messages : Text → List Text → St → St × ℕ
  pub exists : Text → St → Bool
  pub append-there :
      (id : Text) (now : ℕ) (m : Message) (s : St)
      → exists id s ≡ true
      → exists id (append_message id now m s).0 ≡ true
  pub append-messages :
      (id : Text) (now : ℕ) (m : Message) (s : St)
      → exists id s ≡ true
      → get_messages id (append_message id now m s).0 ≡ get_messages id s ++ m ∷ []
  pub delete-there :
      (id : Text) (ids : List Text) (s : St)
      → exists id s ≡ true
      → exists id (delete_messages id ids s).0 ≡ true
  pub delete-messages :
      (id : Text) (ids : List Text) (s : St)
      → exists id s ≡ true
      → get_messages id (delete_messages id ids s).0 ≡ without_messages ids (get_messages id s)

no_ids : (ms : List Message) → without_messages [] ms ≡ ms
unfolding without_messages any
no_ids ms = filter-id (λ m. true) ms (all_true ms)
  where
    all_true : (xs : List Message) → All (λ m. true ≡ true) xs
    all_true [] = tt
    all_true (x ∷ xs) = (refl, all_true xs)

module _ {S : Type 0} where
  abbrev pub in_memory : Text → MemoryStore S → Bool
  in_memory id store = is_some (map_get id store.conversations)

  pub append-memory :
      (id : Text) (now : ℕ) (m : Message) (s : MemoryStore S)
      → in_memory id s ≡ true
      → let s' = (Conversation.append_message id now m s).0 in
        (in_memory id s' ≡ true)
        × (Conversation.get_messages id s' ≡ Conversation.get_messages id s ++ m ∷ [])
  unfolding Conversation.append_message Conversation.get_messages
  append-memory id now m s h = of_found (map_get id s.conversations) refl (h)
    where
      of_found :
          (o : Option Conversation)
          → map_get id s.conversations ≡ o
          → is_some o ≡ true
          → let s' = (append_found id now m s o).0 in
            (in_memory id s' ≡ true)
            × (messages_of (map_get id s'.conversations) ≡ messages_of o ++ m ∷ [])
      of_found none e h' = cc
      of_found (some c) e h' =
          rw
            (
              map_get-map_set id id (record c { messages = c.messages ++ m ∷ []; updated_at = now })
                  s.conversations,
              text_eq_refl id,
            )
            (refl, refl)

  pub delete-memory :
      (id : Text) (ids : List Text) (s : MemoryStore S)
      → in_memory id s ≡ true
      → let s' = (Conversation.delete_messages id ids s).0 in
        (in_memory id s' ≡ true)
        × (Conversation.get_messages id s' ≡ without_messages ids (Conversation.get_messages id s))
  unfolding Conversation.delete_messages Conversation.get_messages
  delete-memory id [] s h = (h, sym (no_ids (messages_of (map_get id s.conversations))))
  delete-memory id (i ∷ ids) s h = of_found (map_get id s.conversations) refl h
    where
      of_found :
          (o : Option Conversation)
          → map_get id s.conversations ≡ o
          → is_some o ≡ true
          → let s' = (delete_found id (i ∷ ids) s o).0 in
            (in_memory id s' ≡ true)
            × (messages_of (map_get id s'.conversations)
                ≡ without_messages (i ∷ ids) (messages_of o))
      of_found none e h' = cc
      of_found (some c) e h' =
          rw
            (
              map_get-map_set id id (record c { messages = without_messages (i ∷ ids) c.messages })
                  s.conversations,
              text_eq_refl id,
            )
            (refl, refl)

  abbrev pub memory_store : ConversationStore (MemoryStore S)
  memory_store = record {
    append_message = Conversation.append_message;
    get_messages = Conversation.get_messages;
    delete_messages = Conversation.delete_messages;
    exists = in_memory;
    append-there = λ id now m s h. (append-memory id now m s h).0;
    append-messages = λ id now m s h. (append-memory id now m s h).1;
    delete-there = λ id ids s h. (delete-memory id ids s h).0;
    delete-messages = λ id ids s h. (delete-memory id ids s h).1;
  }
