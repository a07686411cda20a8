-- ===== src/Core/Orchestrator/Turn/Kept.antt =====
-- packages/core/src/orchestrator.ts: what the messages of a conversation are while a turn runs.
use cere_worker.Prelude.{
  ℕ, Text, text_eq, Bool, true, false, not, ◌||◌, List, [], ◌∷◌, ◌++◌, ◌≡◌, refl, ap, ◌∙◌, any,
  any-append, filter, filter-append, filter-id, All, All-append, All-imp, All-filter, arith,
  Bool-cases, inl, inr,
}
use mathlib.Core.List.{append_assoc}
use cere_worker.Core.Conversation.{Message, MessageRole, tool, is_among, without_messages}
use cere_worker.Core.Orchestrator.Store.{ConversationStore}

abbrev pub is_tool : MessageRole → Bool
is_tool tool = true
is_tool _ = false

-- No message has this id.
abbrev pub Fresh : List Message → Text → Type 0
Fresh messages id = any (λ m. text_eq id m.id) messages ≡ false

-- A message that is a tool's has one of these ids.
abbrev pub Owned : List Text → Message → Type 0
Owned ids m = (not (is_tool m.role) || is_among ids m) ≡ true

abbrev pub NoTool : Message → Type 0
NoTool m = is_tool m.role ≡ false

apart :
    (ids : List Text) (messages : List Message)
    → All (Fresh messages) ids
    → All (λ m. not (is_among ids m) ≡ true) messages
unfolding any
apart ids [] h = tt
apart ids (m ∷ ms) h = (
  not_among ids (All-imp (λ i. λ fresh. first i m ms fresh) ids h),
  apart ids ms (All-imp (λ i. λ fresh. later i m ms fresh) ids h),
)
  where
    first :
        (i : Text) (m' : Message) (rest : List Message)
        → Fresh (m' ∷ rest) i
        → text_eq i m'.id ≡ false
    first i m' rest fresh = ground (arith, fresh)

    later : (i : Text) (m' : Message) (rest : List Message) → Fresh (m' ∷ rest) i → Fresh rest i
    later i m' rest fresh = ground (arith, fresh)

    not_among : (is : List Text) → All (λ i. text_eq i m.id ≡ false) is → not (is_among is m) ≡ true
    not_among [] k = refl
    not_among (i ∷ is) (k, ks) = ground (arith, k, not_among is ks)

-- Messages without fresh ids stay.
without_messages-fresh :
    (ids : List Text) (init rest : List Message)
    → All (Fresh init) ids
    → without_messages ids (init ++ rest) ≡ init ++ without_messages ids rest
unfolding without_messages
without_messages-fresh ids init rest h =
    let same = filter-id (λ m. not (is_among ids m)) init (apart ids init h) in
    rw (filter-append (λ m. not (is_among ids m)) init rest, same) refl

Owned-more : (ids more : List Text) (m : Message) → Owned ids m → Owned (ids ++ more) m
Owned-more ids more m h = ground (arith, h, any-append (λ id. text_eq id m.id) ids more)

All-without_messages :
    (P : Message → Type 0) (ids : List Text) (ms : List Message)
    → All P ms
    → All P (without_messages ids ms)
unfolding without_messages
All-without_messages P ids ms h = All-filter P (λ m. not (is_among ids m)) ms h

pub without_messages-NoTool :
    (ids : List Text) (ms : List Message)
    → All (Owned ids) ms
    → All NoTool (without_messages ids ms)
unfolding without_messages filter
without_messages-NoTool ids [] h = tt
without_messages-NoTool ids (m ∷ ms) (own, h) = elim (Bool-cases (is_among ids m)) [
  | inl t ↦ rw t (without_messages-NoTool ids ms h)
  | inr t ↦ rw t (ground (arith, own, t), without_messages-NoTool ids ms h)
]

All-left : (P : Text → Type 0) (xs ys : List Text) → All P (xs ++ ys) → All P xs
All-left P [] ys h = tt
All-left P (x ∷ xs) ys (p, h) = (p, All-left P xs ys h)

module _ {St : Type 0} (conversations : ConversationStore St) where
  -- The messages are the first ones, then others of which the tools' have one of the ids.
  pub record Holds (init : List Message) (ids : List Text) (conversation_id : Text) (store : St)
      : Type 0 where
    pub there : conversations.exists conversation_id store ≡ true
    pub rest : List Message
    pub same : conversations.get_messages conversation_id store ≡ init ++ rest
    pub owned : All (Owned ids) rest
    pub fresh : All (Fresh init) ids

  -- A message is added, and perhaps ids.
  pub append-Holds :
      (init : List Message) (ids more : List Text) (conversation_id : Text) (now : ℕ) (m : Message)
      (store : St)
      → Holds init ids conversation_id store
      → Owned (ids ++ more) m
      → All (Fresh init) more
      → Holds init
          (ids ++ more)
          conversation_id
          (conversations.append_message conversation_id now m store).0
  append-Holds init ids more cid now m store h own news = record {
    there = conversations.append-there cid now m store h.there;
    rest = h.rest ++ m ∷ [];
    same =
        conversations.append-messages cid now m store h.there
        ∙ ap (λ ms. ms ++ m ∷ []) h.same
        ∙ append_assoc init h.rest (m ∷ []);
    owned =
        All-append (Owned (ids ++ more)) h.rest (m ∷ [])
          (All-imp (λ x. λ own'. Owned-more ids more x own') h.rest h.owned) (own, tt);
    fresh = All-append (Fresh init) ids more h.fresh news;
  }

  -- Some of the ids are deleted.
  pub delete-Holds :
      (init : List Message) (ids more : List Text) (conversation_id : Text) (store : St)
      → Holds init (ids ++ more) conversation_id store
      → Holds init
          (ids ++ more)
          conversation_id
          (conversations.delete_messages conversation_id ids store).0
  delete-Holds init ids more cid store h = record {
    there = conversations.delete-there cid ids store h.there;
    rest = without_messages ids h.rest;
    same =
        conversations.delete-messages cid ids store h.there
        ∙ ap (without_messages ids) h.same
        ∙ without_messages-fresh ids init h.rest (All-left (Fresh init) ids more h.fresh);
    owned = All-without_messages (Owned (ids ++ more)) ids h.rest h.owned;
    fresh = h.fresh;
  }

  -- Where all of the ids are deleted, no message of a tool is left but the first ones.
  pub delete-NoTool :
      (init : List Message) (id : Text) (ids : List Text) (conversation_id : Text) (store : St)
      → Holds init (id ∷ ids) conversation_id store
      → (rest : List Message) × (conversations.get_messages conversation_id
            (conversations.delete_messages conversation_id (id ∷ ids) store).0
          ≡ init ++ rest)
        × All NoTool rest
  delete-NoTool init id ids cid store h = (
    without_messages (id ∷ ids) h.rest,
    conversations.delete-messages cid (id ∷ ids) store h.there
        ∙ ap (without_messages (id ∷ ids)) h.same
        ∙ without_messages-fresh (id ∷ ids) init h.rest h.fresh,
    without_messages-NoTool (id ∷ ids) h.rest h.owned,
  )
