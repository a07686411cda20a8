-- ===== src/Gateway/SessionBus/Tests.antt =====
-- Runs of the bus, and its theorems at concrete buses.
use cere_worker.Prelude.{
  ℕ, ◌≡◌, ◌↔◌, ◌<◌, refl, codes, true, false, none, some, List, [], ◌∷◌, ◌++◌, arith, any, text_eq,
}
use cere_worker.Gateway.SessionBus.{
  Frame, EnvelopeBase, SessionBusState, shared, contents, invoke_request, new_bus, BusCall, create,
  receive, create_envelope, mark_received, replay_after, perform, perform_all,
  should_persist_outgoing,
}
use cere_worker.Gateway.SessionBus.Delivery.{
  Ascending, accepted, accepted-Ascending, mark_received_iff,
}
use cere_worker.Gateway.SessionBus.Outbound.{create_envelope-leaks}
use cere_worker.Gateway.SessionBus.Tidy.{IsTidy, perform_all-IsTidy}
use cere_worker.Gateway.SessionBus.Restart.{IsRestartable, perform_all-IsRestartable}

abbrev base : EnvelopeBase ℕ
base = record {
  event_type = invoke_request;
  sender_id = codes "gateway";
  session_id = codes "s";
  conversation_id = none;
  source = codes "gateway";
  instance_id = none;
  payload = 7;
  resume_from_sequence = none;
}

abbrev numbered : ℕ → Frame ℕ
numbered n = record {
  envelope_id = n ∷ [];
  protocol_version = 1;
  sender_id = codes "node";
  instance_id = none;
  session_id = codes "s";
  conversation_id = none;
  source = codes "node";
  event_type = invoke_request;
  timestamp = 0;
  payload = 7;
  sequence = some n;
  acked_through = some 1;
  resume_from_sequence = none;
}

abbrev fresh : SessionBusState ℕ
fresh = record {
  next_sequence = 1;
  highest_received_sequence = 0;
  outbound = shared;
  has_path = true;
  disk = none;
  seen_envelope_ids = [];
}

fresh_is_new : new_bus true none ≡ fresh
unfolding new_bus
fresh_is_new = refl

abbrev calls : List (BusCall ℕ)
calls = create base (codes "a") 5 ∷ create base (codes "b") 6 ∷ receive (numbered 4) ∷ []

one_waits :
    contents [] (perform_all [] fresh calls).1.outbound
    ≡ (create_envelope base (codes "b") 6 [] (record fresh { next_sequence = 2 })).2 ∷ []
unfolding perform_all perform create_envelope
one_waits = refl

twice : accepted [] fresh (numbered 2 ∷ numbered 2 ∷ numbered 1 ∷ numbered 5 ∷ []) ≡ 2 ∷ 5 ∷ []
unfolding accepted mark_received
twice = refl

accepted-Ascending_example : Ascending 0 (accepted [] fresh (numbered 2 ∷ numbered 2 ∷ []))
accepted-Ascending_example = accepted-Ascending [] fresh (numbered 2 ∷ numbered 2 ∷ [])

mark_received_iff_example :
    ((mark_received (numbered 2) [] fresh).1 ≡ true)
    ↔ ((any (λ id. text_eq id (2 ∷ [])) fresh.seen_envelope_ids ≡ false) × (0 < 2))
mark_received_iff_example = mark_received_iff [] fresh (numbered 2) 2 refl

create_envelope-leaks_example :
    let (heap', _, frame) = create_envelope base (codes "a") 5 [] fresh in
    replay_after 0 heap' fresh ≡ replay_after 0 [] fresh ++ frame ∷ []
unfolding should_persist_outgoing
create_envelope-leaks_example =
    create_envelope-leaks 0 base (codes "a") 5 [] fresh fresh refl refl refl (omega arith)
      (omega arith)

perform_all-IsTidy_example : let (heap', bus') = perform_all [] fresh calls in IsTidy heap' bus'
perform_all-IsTidy_example =
    perform_all-IsTidy [] fresh calls (record { few = omega arith; increasing = tt; below = tt })

perform_all-IsRestartable_example :
    let (heap', bus') = perform_all [] fresh calls in IsRestartable heap' bus'
unfolding new_bus
perform_all-IsRestartable_example = perform_all-IsRestartable [] fresh calls (record {
  has_path = refl;
  positive = omega arith;
  next = refl;
  highest = refl;
  outbound = refl;
})
