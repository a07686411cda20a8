-- ===== src/Core/Orchestrator/Turn/Outcome.antt =====
-- packages/core/src/orchestrator.ts: the messages of a conversation at the end of a turn.
use cere_worker.Prelude.{
  ℕ, zero, suc, Text, if◌then◌else◌, Bool, true, false, not, ◌&&◌, Option, none, some, List, [],
  ◌∷◌, ◌++◌, append-nil, ◌≡◌, refl, sym, All, All-append, All-imp, any, arith, inl, inr, ◌⊎◌, ◌≢◌,
  ltb,
}
use cere_worker.Core.Conversation.{Message, system, new_message, no_extra}
use cere_worker.Core.Orchestrator.Store.{ConversationStore}
use cere_worker.Core.Orchestrator.Completion.{CompletionGuardFailure}
use cere_worker.Core.Orchestrator.Turn.{
  RecoverySource, TurnRecoveryAssessment, Setup, Turn, Running, start_attempt,
}
use cere_worker.Core.Orchestrator.Turn.Events
use cere_worker.Core.Orchestrator.Turn.Loop
use cere_worker.Core.Orchestrator.Turn.Kept.{
  Fresh, Owned, NoTool, Holds, append-Holds, delete-NoTool,
}
use cere_worker.Core.Orchestrator.Turn.Rounds.{
  FreshScript, KeptTurn, KeptRun, said-Holds, recorded-Holds, steps-Kept,
}

All-right : (P : Text → Type 0) (xs ys : List Text) → All P (xs ++ ys) → All P ys
All-right P [] ys h = h
All-right P (x ∷ xs) ys (p, h) = All-right P xs ys h

module _ {St : Type 0} (conversations : ConversationStore St) where
  -- The first messages are there, and others behind them.
  abbrev pub Extends : List Message → Turn St → Type 0
  Extends init turn =
      (rest : List Message) × (conversations.get_messages turn.conversation_id turn.store
        ≡ init ++ rest)

  -- And none of the others is a tool's.
  abbrev pub ExtendsCleanly : List Message → Turn St → Type 0
  ExtendsCleanly init turn =
      (rest : List Message) × (conversations.get_messages turn.conversation_id turn.store
        ≡ init ++ rest)
      × All NoTool rest

  abbrev NextKept : List Message → Loop.Next St → Type 0
  NextKept init (Loop.again turn) = KeptTurn conversations init turn
  NextKept init (Loop.answered turn) = Extends init turn
  NextKept init (Loop.given_up turn) = ExtendsCleanly init turn

  if-Next :
      (init : List Message) (x y : Loop.Next St) (b : Bool)
      → NextKept init x
      → NextKept init y
      → NextKept init (if b then x else y)
  if-Next init x y true h k = h
  if-Next init x y false h k = k

  cleaned-NoTool :
      (init : List Message) (ids : List Text) (conversation_id : Text) (store : St)
      → Holds conversations init ids conversation_id store
      → (rest : List Message) × (conversations.get_messages conversation_id
            (Events.cleaned conversations conversation_id ids store)
          ≡ init ++ rest)
        × All NoTool rest
  unfolding any
  cleaned-NoTool init [] cid store h =
      (h.rest, h.same, All-imp (λ m. λ own. not_tool m own) h.rest h.owned)
    where
      not_tool : (m : Message) → Owned [] m → NoTool m
      not_tool m own = ground (arith, own)
  cleaned-NoTool init (id ∷ ids) cid store h = delete-NoTool conversations init id ids cid store h

  give_up-Kept :
      (init : List Message) (message : Text) (turn : Turn St)
      → KeptTurn conversations init turn
      → NextKept init (Loop.give_up conversations message turn)
  give_up-Kept init message turn h =
      cleaned-NoTool init turn.failed_attempt_message_ids turn.conversation_id turn.store h

  say-Kept :
      (init : List Message) (script : Loop.AttemptScript) (content : Text) (turn : Turn St)
      → KeptTurn conversations init turn
      → KeptTurn conversations init (Loop.say conversations script content turn)
  say-Kept init script content turn h =
      said-Holds conversations init turn.failed_attempt_message_ids turn.conversation_id
        script.ended_at (new_message script.message_id script.ended_at system content no_extra)
        turn.store h refl

  completion-Kept :
      (setup : Setup) (init : List Message) (script : Loop.AttemptScript) (source : RecoverySource)
      (a : TurnRecoveryAssessment) (r : Running St)
      → Fresh init script.message_id
      → KeptRun conversations init r
      → NextKept init (Loop.after_completion conversations setup script source a r)
  unfolding Loop.after_completion
  completion-Kept setup init script source a r fresh h =
      let turn = Loop.fail_ids r.attempt.message_ids r.turn in
      if-Next init _ _ (Loop.is_stop a.action)
        (give_up-Kept init [] (Loop.say conversations script a.operator_message turn)
          (say-Kept init script a.operator_message turn h))
        (if-Next init _ _ (ltb r.turn.completion_retry_count setup.max_completion_retries)
          (recorded-Holds conversations init r.turn.failed_attempt_message_ids r.attempt.message_ids
            script.message_id r.turn.conversation_id script.ended_at
            (new_message script.message_id script.ended_at system a.operator_message no_extra)
            r.turn.store h refl fresh)
          (give_up-Kept init [] (Loop.say conversations script (Loop.exhausted_text source) turn)
            (say-Kept init script (Loop.exhausted_text source) turn h)))

  resolved-Kept :
      (setup : Setup) (init : List Message) (script : Loop.AttemptScript) (r : Running St)
      (failure : Option CompletionGuardFailure)
      → FreshScript init script
      → KeptRun conversations init r
      → NextKept init (Loop.after_resolved conversations setup script r failure)
  resolved-Kept setup init script r none f h = (h.rest, h.same)
  resolved-Kept setup init script r (some failure) f h =
      let (source, a) = Loop.assess_completion script.answer script.fallback in
      completion-Kept setup init script source a
        (Events.steps conversations setup script.meanwhile r) f.message
        (steps-Kept conversations setup init script.meanwhile r f.meanwhile h)

  failed-Kept :
      (init : List Message) (script : Loop.AttemptScript) (message : Text) (aborted : Bool)
      (turn : Turn St)
      → KeptTurn conversations init turn
      → NextKept init (Loop.plain_failure conversations script message aborted turn)
  failed-Kept init script message aborted turn h =
      if-Next init _ _ (not script.connected && aborted) (give_up-Kept init [] turn h)
        (give_up-Kept init message turn h)

  rejected-Kept :
      (setup : Setup) (init : List Message) (script : Loop.AttemptScript) (message : Text)
      (r : Running St) (pending : Option (RecoverySource × TurnRecoveryAssessment))
      → Fresh init script.message_id
      → KeptRun conversations init r
      → NextKept init (
          Loop.recover conversations setup script message r
            (Loop.fail_ids r.attempt.message_ids (Loop.keep_continuity r))
            pending)
  rejected-Kept setup init script message r none fresh h =
      failed-Kept init script message r.attempt.aborted
        (Loop.fail_ids r.attempt.message_ids (Loop.keep_continuity r)) h
  rejected-Kept setup init script message r (some (source, a)) fresh h =
      let turn = Loop.fail_ids r.attempt.message_ids (Loop.keep_continuity r) in
      let mine =
        All-right (Fresh init) r.turn.failed_attempt_message_ids r.attempt.message_ids h.fresh in
      if-Next init _ _ (r.attempt.aborted && Loop.is_retry a.action && Loop.counted_stall setup r)
        (append-Holds conversations init turn.failed_attempt_message_ids
          (r.attempt.message_ids ++ script.message_id ∷ []) r.turn.conversation_id script.ended_at
          (new_message script.message_id script.ended_at system a.operator_message no_extra)
          r.turn.store h refl
          (All-append (Fresh init) r.attempt.message_ids (script.message_id ∷ []) mine (fresh, tt)))
        (if-Next init _ _ (r.attempt.aborted && Loop.is_stop a.action)
          (give_up-Kept init [] (Loop.say conversations script a.operator_message turn)
            (say-Kept init script a.operator_message turn h))
          (failed-Kept init script message r.attempt.aborted turn h))

  settled-Kept :
      (setup : Setup) (init : List Message) (script : Loop.AttemptScript) (r : Running St)
      (settlement : Loop.Settlement)
      → FreshScript init script
      → KeptRun conversations init r
      → NextKept init (Loop.settle conversations setup script r settlement)
  unfolding Loop.after_rejected
  settled-Kept setup init script r Loop.resolved f h =
      resolved-Kept setup init script r r.attempt.guard_failure f h
  settled-Kept setup init script r (Loop.rejected message) f h =
      rejected-Kept setup init script message r r.attempt.pending f.message h

  run_attempt-Kept :
      (setup : Setup) (init : List Message) (number : ℕ) (script : Loop.AttemptScript)
      (turn : Turn St)
      → FreshScript init script
      → KeptTurn conversations init turn
      → NextKept init (Loop.run_attempt conversations setup number script turn)
  unfolding Loop.run_attempt
  run_attempt-Kept setup init number script turn f h =
      let started = start_attempt script.started_at number turn in
      let kept : KeptRun conversations init started =
        rw (append-nil turn.failed_attempt_message_ids) h in
      settled-Kept setup init script (Events.steps conversations setup script.events started)
        script.settlement f
        (steps-Kept conversations setup init script.events started f.events kept)

  -- How the loop leaves the messages.
  abbrev EndKept : List Message → Turn St × Loop.TurnEnd → Type 0
  EndKept init (turn, ended) =
      Extends init turn × ((ended ≢ Loop.by_failure) ⊎ ExtendsCleanly init turn)

  attempts-Kept :
      (setup : Setup) (init : List Message) (script : ℕ → Loop.AttemptScript) (left index : ℕ)
      (turn : Turn St)
      → ((k : ℕ) → FreshScript init (script k))
      → KeptTurn conversations init turn
      → EndKept init (Loop.attempts conversations setup script left index turn)
  unfolding Loop.attempts
  attempts-Kept setup init script zero index turn f h = ((h.rest, h.same), inl (λ e. cc))
  attempts-Kept setup init script (suc left) index turn f h =
      of_next (Loop.run_attempt conversations setup (suc index) (script index) turn)
        (run_attempt-Kept setup init (suc index) (script index) turn (f index) h)
        (λ turn'. λ h'. attempts-Kept setup init script left (suc index) turn' f h')
    where
      of_next :
          (next : Loop.Next St)
          → NextKept init next
          → ((turn' : Turn St)
              → KeptTurn conversations init turn'
              → EndKept init (Loop.attempts conversations setup script left (suc index) turn'))
          → EndKept init
              (Loop.go_on (Loop.attempts conversations setup script left (suc index)) next)
      of_next (Loop.again turn') k later = later turn' k
      of_next (Loop.answered turn') k later = (k, inl (λ e. cc))
      of_next (Loop.given_up turn') (rest, same, clean) later =
          ((rest, same), inr (rest, same, clean))

  after_loop-EndKept :
      (setup : Setup) (init : List Message) (result : Turn St × Loop.TurnEnd)
      → EndKept init result
      → EndKept init (Loop.after_loop setup result, result.1)
  after_loop-EndKept setup init (turn, Loop.by_limit) h = h
  after_loop-EndKept setup init (turn, Loop.by_answer) h = h
  after_loop-EndKept setup init (turn, Loop.by_failure) h = h

  start-Kept :
      (now : ℕ) (user_id content conversation_id : Text) (in_flight : Bool) (store : St)
      → conversations.exists conversation_id store ≡ true
      → let started =
          Loop.add_user_message conversations now user_id content
            (Loop.new_turn conversation_id in_flight store) in
        KeptTurn conversations (conversations.get_messages conversation_id started.store) started
  start-Kept now user_id [] conversation_id in_flight store h = record {
    there = h;
    rest = [];
    same = sym (append-nil _);
    owned = tt;
    fresh = tt;
  }
  start-Kept now user_id (c ∷ content) conversation_id in_flight store h = record {
    there = conversations.append-there conversation_id now _ store h;
    rest = [];
    same = sym (append-nil _);
    owned = tt;
    fresh = tt;
  }

  -- If the conversation is there and no message of it has an id that is given to a later one, then a
  -- turn keeps the messages that were there, the user's included, in their order and before all
  -- others. If it ends by giving up, then no message of a tool is among the others; messages of
  -- other roles may be.
  pub send_message-keeps :
      (setup : Setup) (script : ℕ → Loop.AttemptScript) (now : ℕ)
      (user_id content conversation_id : Text) (in_flight : Bool) (store : St)
      → conversations.exists conversation_id store ≡ true
      → let started =
          Loop.add_user_message conversations now user_id content
            (Loop.new_turn conversation_id in_flight store) in
        let init = conversations.get_messages conversation_id started.store in
        ((k : ℕ) → FreshScript init (script k))
        → let (turn, ended) =
            Loop.send_message conversations setup script now user_id content conversation_id
              in_flight store in
          Extends init turn × ((ended ≢ Loop.by_failure) ⊎ ExtendsCleanly init turn)
  unfolding Loop.send_message
  send_message-keeps setup script now user_id content conversation_id in_flight store there fresh =
      let started =
        Loop.add_user_message conversations now user_id content
          (Loop.new_turn conversation_id in_flight store) in
      let init = conversations.get_messages conversation_id started.store in
      let kept = start-Kept now user_id content conversation_id in_flight store there in
      after_loop-EndKept setup init _
        (attempts-Kept setup init script (Loop.max_total_attempts setup) 0 started fresh kept)
