-- ===== src/Gateway/SessionBus.antt =====
-- packages/gateway/src/session-bus.ts: sequence numbers, acknowledgement and replay of one end of a
-- connection. The array of `DEFAULT_STATE` is one object that every new bus refers to until it is
-- given an array of its own: the operations pass that shared array, `Heap`, along with the bus.
pub mod Delivery
pub mod Outbound
pub mod Tidy
pub mod Restart
mod Tests
use cere_worker.Prelude.{
  ℕ, zero, suc, ◌+◌, ◌-◌, ◌≤◌, ◌<◌, max, Text, text_eq, leb, ltb, ◌==◌, if◌then◌else◌, Bool, true,
  false, not, ◌&&◌, ◌||◌, Option, none, some, List, [], ◌∷◌, ◌++◌, length, slice_last, filter, any,
}

pub data SessionBusEventType : Type 0 where
  transport_connect transport_connected transport_error transport_ack transport_ping :
      SessionBusEventType
  transport_pong transport_disconnect transport_emergency_stop : SessionBusEventType
  node_status_request node_status invoke_request invoke_result : SessionBusEventType
  tool_started tool_finished : SessionBusEventType

pub record Frame (P : Type 0) : Type 0 where
  pub envelope_id : Text
  pub protocol_version : ℕ
  pub sender_id : Text
  pub instance_id : Option Text
  pub session_id : Text
  pub conversation_id : Option Text
  pub source : Text
  pub event_type : SessionBusEventType
  pub timestamp : ℕ
  pub payload : P
  pub sequence : Option ℕ
  pub acked_through : Option ℕ
  pub resume_from_sequence : Option ℕ

abbrev pub transport_protocol_version : ℕ
transport_protocol_version = 1

abbrev pub max_outbound_envelopes : ℕ
max_outbound_envelopes = 500

unfoldable pub should_persist_outgoing : SessionBusEventType → Bool
should_persist_outgoing transport_connect = false
should_persist_outgoing transport_connected = false
should_persist_outgoing transport_ack = false
should_persist_outgoing transport_ping = false
should_persist_outgoing transport_pong = false
should_persist_outgoing _ = true

-- The content of the state file.
pub record PersistedBusState (P : Type 0) : Type 0 where
  pub next_sequence : ℕ
  pub highest_received_sequence : ℕ
  pub outbound : List (Frame P)

-- The array that a bus refers to: that of `DEFAULT_STATE`, or one of its own.
pub data ArrayRef (P : Type 0) : Type 0 where
  shared : ArrayRef P
  own : List (Frame P) → ArrayRef P

-- `has_path` says that there is a `statePath`, and `disk` what its file holds.
pub record SessionBusState (P : Type 0) : Type 0 where
  pub next_sequence : ℕ
  pub highest_received_sequence : ℕ
  pub outbound : ArrayRef P
  pub has_path : Bool
  pub disk : Option (PersistedBusState P)
  pub seen_envelope_ids : List Text

abbrev pub Heap : Type 0 → Type 0
Heap P = List (Frame P)

-- `n || 1`
abbrev pub or_one : ℕ → ℕ
or_one zero = 1
or_one (suc n) = suc n

-- What `createEnvelope` is given.
pub record EnvelopeBase (P : Type 0) : Type 0 where
  pub event_type : SessionBusEventType
  pub sender_id : Text
  pub session_id : Text
  pub conversation_id : Option Text
  pub source : Text
  pub instance_id : Option Text
  pub payload : P
  pub resume_from_sequence : Option ℕ

module _ {P : Type 0} where
  abbrev pub contents : Heap P → ArrayRef P → List (Frame P)
  contents heap shared = heap
  contents heap (own xs) = xs

  abbrev pub loaded : SessionBusState P → Option (PersistedBusState P) → SessionBusState P
  loaded bus none = bus
  loaded bus (some parsed) = record bus {
    next_sequence = or_one parsed.next_sequence;
    highest_received_sequence = parsed.highest_received_sequence;
    outbound = own parsed.outbound;
  }

  -- The constructor. A file that is missing or cannot be parsed reads as `none`.
  unfoldable pub new_bus : Bool → Option (PersistedBusState P) → SessionBusState P
  new_bus has_path disk =
      let bus : SessionBusState P = record {
        next_sequence = 1;
        highest_received_sequence = 0;
        outbound = shared;
        has_path = has_path;
        disk = disk;
        seen_envelope_ids = [];
      } in
      if has_path then loaded bus disk else bus

  unfoldable pub persist : Heap P → SessionBusState P → SessionBusState P
  persist heap bus =
      if bus.has_path
      then record bus {
        disk = some (record {
          next_sequence = bus.next_sequence;
          highest_received_sequence = bus.highest_received_sequence;
          outbound = contents heap bus.outbound;
        });
      }
      else bus

  -- `frame.sequence ?? 0`
  abbrev pub sequence_of : Frame P → ℕ
  sequence_of frame = elim frame.sequence [ none ↦ 0 | some n ↦ n ]

  abbrev pub is_after : ℕ → Frame P → Bool
  is_after sequence frame = ltb sequence (sequence_of frame)

  unfoldable pub ack_through : ℕ → Heap P → SessionBusState P → SessionBusState P
  unfolding persist filter
  ack_through sequence heap bus =
      if sequence == 0
      then bus
      else persist heap
          (record bus { outbound = own (filter (is_after sequence) (contents heap bus.outbound)) })

  abbrev pub ack_if : Option ℕ → Heap P → SessionBusState P → SessionBusState P
  ack_if none heap bus = bus
  ack_if (some n) heap bus = ack_through n heap bus

  unfoldable pub replay_after : ℕ → Heap P → SessionBusState P → List (Frame P)
  unfolding filter
  replay_after sequence heap bus = filter (is_after sequence) (contents heap bus.outbound)

  abbrev pub set_highest : Option ℕ → SessionBusState P → SessionBusState P
  set_highest none bus = bus
  set_highest (some n) bus = record bus { highest_received_sequence = n }

  unfoldable pub mark_connected : Frame P → Heap P → SessionBusState P → SessionBusState P
  unfolding ack_through persist
  mark_connected frame heap bus =
      let acked = ack_if frame.acked_through heap bus in
      persist heap (set_highest frame.sequence (record acked { seen_envelope_ids = [] }))

  unfoldable pub receive_numbered : Text → ℕ → Heap P → SessionBusState P → SessionBusState P × Bool
  unfolding persist any text_eq
  receive_numbered envelope_id sequence heap bus =
      if any (λ id. text_eq id envelope_id) bus.seen_envelope_ids
        || leb sequence bus.highest_received_sequence
      then (persist heap bus, false)
      else (
        persist heap (record bus {
          seen_envelope_ids = envelope_id ∷ bus.seen_envelope_ids;
          highest_received_sequence = max bus.highest_received_sequence sequence;
        }),
        true,
      )

  abbrev pub receive_as : Text → Option ℕ → Heap P → SessionBusState P → SessionBusState P × Bool
  receive_as envelope_id none heap bus = (persist heap bus, true)
  receive_as envelope_id (some n) heap bus = receive_numbered envelope_id n heap bus

  unfoldable pub mark_received : Frame P → Heap P → SessionBusState P → SessionBusState P × Bool
  unfolding ack_through receive_numbered
  mark_received frame heap bus =
      receive_as frame.envelope_id frame.sequence heap (ack_if frame.acked_through heap bus)

  abbrev pub envelope_of : EnvelopeBase P → Text → ℕ → SessionBusState P → Frame P
  envelope_of base uuid now bus = record {
    envelope_id = uuid;
    protocol_version = transport_protocol_version;
    sender_id = base.sender_id;
    instance_id = base.instance_id;
    session_id = base.session_id;
    conversation_id = base.conversation_id;
    source = base.source;
    event_type = base.event_type;
    timestamp = now;
    payload = base.payload;
    sequence = some bus.next_sequence;
    acked_through = some bus.highest_received_sequence;
    resume_from_sequence = base.resume_from_sequence;
  }

  -- `push`, which changes the object that the bus refers to.
  abbrev pub push : Frame P → Heap P → ArrayRef P → Heap P × ArrayRef P
  push frame heap shared = (heap ++ frame ∷ [], shared)
  push frame heap (own xs) = (heap, own (xs ++ frame ∷ []))

  abbrev pub cut : Heap P → ArrayRef P → ArrayRef P
  cut heap ref =
      if ltb max_outbound_envelopes (length (contents heap ref))
      then own (slice_last max_outbound_envelopes (contents heap ref))
      else ref

  abbrev pub enqueue : Bool → Frame P → Heap P → ArrayRef P → Heap P × ArrayRef P
  enqueue false frame heap ref = (heap, ref)
  enqueue true frame heap ref = let (heap', ref') = push frame heap ref in (heap', cut heap' ref')

  -- `uuid` and `now` are what `randomUUID` and the clock give.
  unfoldable pub create_envelope :
      EnvelopeBase P → Text → ℕ → Heap P → SessionBusState P → Heap P × SessionBusState P × Frame P
  unfolding persist should_persist_outgoing
  create_envelope base uuid now heap bus =
      let frame = envelope_of base uuid now bus in
      let (heap', ref) =
        enqueue (should_persist_outgoing base.event_type) frame heap bus.outbound in
      (
        heap',
        persist heap' (record bus { next_sequence = bus.next_sequence + 1; outbound = ref }),
        frame,
      )

  unfoldable pub get_highest_received_sequence : SessionBusState P → ℕ
  get_highest_received_sequence bus = bus.highest_received_sequence

  unfoldable pub get_resume_sequence : SessionBusState P → ℕ
  get_resume_sequence bus = bus.highest_received_sequence

-- The calls that a connection makes on its bus.
pub data BusCall (P : Type 0) : Type 0 where
  create : EnvelopeBase P → Text → ℕ → BusCall P
  receive connected : Frame P → BusCall P
  ack : ℕ → BusCall P

module _ {P : Type 0} where
  unfoldable pub perform : Heap P → SessionBusState P → BusCall P → Heap P × SessionBusState P
  unfolding create_envelope mark_received mark_connected ack_through
  perform heap bus (create base uuid now) =
      let (heap', bus', _) = create_envelope base uuid now heap bus in (heap', bus')
  perform heap bus (receive frame) = (heap, (mark_received frame heap bus).0)
  perform heap bus (connected frame) = (heap, mark_connected frame heap bus)
  perform heap bus (ack sequence) = (heap, ack_through sequence heap bus)

  unfoldable pub perform_all :
      Heap P → SessionBusState P → List (BusCall P) → Heap P × SessionBusState P
  perform_all heap bus [] = (heap, bus)
  perform_all heap bus (c ∷ cs) =
      let (heap', bus') = perform heap bus c in perform_all heap' bus' cs
