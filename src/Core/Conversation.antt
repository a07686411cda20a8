-- ===== src/Core/Conversation.antt =====
-- packages/core/src/conversation.ts: the messages of conversations, in memory or in files. Here are
-- the data and the store in memory; Files has the other one. An `extra` of a message is what the
-- callers give: tool calls, the result of a tool, metadata. What is inside a session is a parameter. A
-- call gives a value as it is then: that `create` in memory gives the object that is in the map, which
-- later messages change, is left out.
pub mod Files
pub mod Agreement
pub mod Journals
pub mod Retention
pub mod Distinct
pub mod Removal
pub mod Pruned
mod Tests
use cere_worker.Prelude.{
  ℕ, ◌-◌, Text, codes, text_eq, ltb, ◌==◌, if◌then◌else◌, Bool, true, false, not, Option, none,
  some, List, [], ◌∷◌, ◌++◌, map, any, filter, find?, length, map_get, map_set, map_delete,
}
use cere_worker.Core.ToolRuntime.Values.{Fields}
use cere_worker.Core.ToolRuntime.Results.{ToolResult}
use cere_worker.Core.ToolRuntime.Execute.{ToolCall}

pub data MessageRole : Type 0 where
  user cerebrum cerebellum tool system : MessageRole

pub record MessageExtra : Type 0 where
  pub tool_calls : Option (List ToolCall)
  pub tool_result : Option ToolResult
  pub metadata : Option Fields

pub record Message : Type 0 where
  pub id : Text
  pub role : MessageRole
  pub content : Text
  pub timestamp : ℕ
  pub extra : MessageExtra

pub record Conversation : Type 0 where
  pub id : Text
  pub messages : List Message
  pub created_at : ℕ
  pub updated_at : ℕ

abbrev pub no_extra : MessageExtra
no_extra = record { tool_calls = none; tool_result = none; metadata = none }

-- `id` is what `nanoid` gives.
abbrev pub new_message : Text → ℕ → MessageRole → Text → MessageExtra → Message
new_message id now role content extra = record {
  id = id;
  role = role;
  content = content;
  timestamp = now;
  extra = extra;
}

abbrev pub new_conversation : Text → ℕ → Conversation
new_conversation id now = record { id = id; messages = []; created_at = now; updated_at = now }

-- `messageIds.includes(message.id)`
abbrev pub is_among : List Text → Message → Bool
is_among ids message = any (λ id. text_eq id message.id) ids

unfoldable pub without_messages : List Text → List Message → List Message
unfolding filter any text_eq
without_messages ids messages = filter (λ m. not (is_among ids m)) messages

-- `sort((a, b) => b.updatedAt - a.updatedAt)`, which is stable.
unfoldable pub insert_by_updated : Conversation → List Conversation → List Conversation
insert_by_updated c [] = c ∷ []
insert_by_updated c (x ∷ xs) =
    if ltb x.updated_at c.updated_at then c ∷ x ∷ xs else x ∷ insert_by_updated c xs

unfoldable pub sort_by_updated : List Conversation → List Conversation → List Conversation
unfolding insert_by_updated
sort_by_updated sorted [] = sorted
sort_by_updated sorted (c ∷ rest) = sort_by_updated (insert_by_updated c sorted) rest

abbrev pub without_content : Conversation → Conversation
without_content c = record c { messages = [] }

abbrev pub is_user : MessageRole → Bool
is_user user = true
is_user _ = false

abbrev pub content_of : Option Message → Option Text
content_of none = none
content_of (some message) = some message.content

unfoldable pub preview_of : List Message → Option Text
unfolding find?
preview_of messages = content_of (find? (λ m. is_user m.role) messages)

-- What a call gives, or the error that it throws.
pub data Outcome (A : Type 0) : Type 0 where
  done : A → Outcome A
  conversation_not_found busy : Outcome A

-- The two maps of a store in memory; `S` is a session.
pub record MemoryStore (S : Type 0) : Type 0 where
  pub conversations : List (Text × Conversation)
  pub sessions : List (Text × List (Text × S))

abbrev pub messages_of : Option Conversation → List Message
messages_of none = []
messages_of (some c) = c.messages

abbrev pub or_empty_map : {S : Type 0} → Option (List (Text × S)) → List (Text × S)
or_empty_map none = []
or_empty_map (some m) = m

abbrev pub is_some : {A : Type 0} → Option A → Bool
is_some none = false
is_some (some a) = true

abbrev pub is_empty_list : {A : Type 0} → List A → Bool
is_empty_list [] = true
is_empty_list (x ∷ xs) = false

module _ {S : Type 0} where
  unfoldable pub create : Text → ℕ → MemoryStore S → MemoryStore S × Conversation
  unfolding map_set
  create id now store =
      let c = new_conversation id now in
      (record store { conversations = map_set id c store.conversations }, c)

  unfoldable pub get : Text → MemoryStore S → Option Conversation
  unfolding map_get
  get id store = map_get id store.conversations

  unfoldable pub list : MemoryStore S → List Conversation
  unfolding sort_by_updated
  list store = map without_content (sort_by_updated [] (map (λ e. e.1) store.conversations))

  abbrev pub append_found :
      Text → ℕ → Message → MemoryStore S → Option Conversation → MemoryStore S × Outcome Message
  append_found id now message store none = (store, conversation_not_found)
  append_found id now message store (some c) = (
    record store {
      conversations =
          map_set id (record c { messages = c.messages ++ message ∷ []; updated_at = now })
            store.conversations;
    },
    done message,
  )

  unfoldable pub append_message :
      Text → ℕ → Message → MemoryStore S → MemoryStore S × Outcome Message
  unfolding map_get map_set
  append_message id now message store =
      append_found id now message store (map_get id store.conversations)

  unfoldable pub get_messages : Text → MemoryStore S → List Message
  unfolding map_get
  get_messages id store = messages_of (map_get id store.conversations)

  abbrev pub delete_found :
      Text → List Text → MemoryStore S → Option Conversation → MemoryStore S × ℕ
  delete_found id ids store none = (store, 0)
  delete_found id ids store (some c) =
      let kept = without_messages ids c.messages in
      (
        record store {
          conversations = map_set id (record c { messages = kept }) store.conversations;
        },
        length c.messages - length kept,
      )

  unfoldable pub delete_messages : Text → List Text → MemoryStore S → MemoryStore S × ℕ
  unfolding map_get map_set without_messages
  delete_messages id ids store =
      if is_empty_list ids
      then (store, 0)
      else delete_found id ids store (map_get id store.conversations)

  unfoldable pub delete : Text → MemoryStore S → MemoryStore S × Bool
  unfolding map_get map_delete
  delete id store = (
    record store {
      conversations = map_delete id store.conversations;
      sessions = map_delete id store.sessions;
    },
    is_some (map_get id store.conversations),
  )

  unfoldable pub get_preview : Text → MemoryStore S → Option Text
  unfolding get_messages preview_of
  get_preview id store = preview_of (get_messages id store)

  unfoldable pub save_query_session : Text → Text → S → MemoryStore S → MemoryStore S
  unfolding map_get map_set
  save_query_session id session_id session store =
      let sessions = or_empty_map (map_get id store.sessions) in
      record store { sessions = map_set id (map_set session_id session sessions) store.sessions }

  unfoldable pub get_query_session : Text → Text → MemoryStore S → Option S
  unfolding map_get
  get_query_session id session_id store =
      map_get session_id (or_empty_map (map_get id store.sessions))
