-- ===== src/Gateway/SessionBus/Restart.antt =====
-- The state file: what a bus that is made anew from it knows.
use cere_worker.Prelude.{
  ℕ, zero, suc, ◌<◌, ◌≡◌, refl, Text, true, Option, none, some, List, [], ◌∷◌, arith, ◌==◌,
  Bool-cases, inl, inr, any, text_eq, leb, ◌||◌,
}
use cere_worker.Gateway.SessionBus.{
  Frame, SessionBusState, Heap, contents, new_bus, persist, ack_through, ack_if, set_highest,
  mark_connected, receive_numbered, receive_as, mark_received, create_envelope, BusCall, create,
  receive, connected, ack, perform, perform_all, or_one,
}

-- A bus that is made from the file has the numbers and the waiting envelopes of this one.
pub record IsRestartable {P : Type 0} (heap : Heap P) (bus : SessionBusState P) : Type 0 where
  pub has_path : bus.has_path ≡ true
  pub positive : 0 < bus.next_sequence
  pub next : (new_bus true bus.disk).next_sequence ≡ bus.next_sequence
  pub highest : (new_bus true bus.disk).highest_received_sequence ≡ bus.highest_received_sequence
  pub outbound : contents heap (new_bus true bus.disk).outbound ≡ contents heap bus.outbound

or_one-pos : (n : ℕ) → 0 < n → or_one n ≡ n
or_one-pos zero h = elim h [ ]
or_one-pos (suc n) h = refl

module _ {P : Type 0} where
  persist-IsRestartable :
      (heap : Heap P) (bus : SessionBusState P)
      → bus.has_path ≡ true
      → 0 < bus.next_sequence
      → IsRestartable heap (persist heap bus)
  unfolding persist new_bus
  persist-IsRestartable heap bus path pos = ground (arith, or_one-pos bus.next_sequence)

  ack_through-IsRestartable :
      (n : ℕ) (heap : Heap P) (bus : SessionBusState P)
      → IsRestartable heap bus
      → IsRestartable heap (ack_through n heap bus)
  unfolding ack_through
  ack_through-IsRestartable n heap bus r = elim (Bool-cases (n == 0)) [
    | inl e ↦ rw e r
    | inr e ↦ rw e (persist-IsRestartable heap _ r.has_path r.positive)
  ]

  ack_if-IsRestartable :
      (o : Option ℕ) (heap : Heap P) (bus : SessionBusState P)
      → IsRestartable heap bus
      → IsRestartable heap (ack_if o heap bus)
  ack_if-IsRestartable none heap bus r = r
  ack_if-IsRestartable (some n) heap bus r = ack_through-IsRestartable n heap bus r

  receive_as-IsRestartable :
      (id : Text) (o : Option ℕ) (heap : Heap P) (bus : SessionBusState P)
      → IsRestartable heap bus
      → IsRestartable heap (receive_as id o heap bus).0
  unfolding receive_numbered
  receive_as-IsRestartable id none heap bus r = persist-IsRestartable heap bus r.has_path r.positive
  receive_as-IsRestartable id (some n) heap bus r =
      elim (Bool-cases
        (any (λ x. text_eq x id) bus.seen_envelope_ids || leb n bus.highest_received_sequence)) [
          | inl e ↦ rw e (persist-IsRestartable heap bus r.has_path r.positive)
          | inr e ↦ rw e (persist-IsRestartable heap _ r.has_path r.positive)
        ]

  connected-IsRestartable :
      (frame : Frame P) (heap : Heap P) (bus : SessionBusState P)
      → IsRestartable heap bus
      → IsRestartable heap (mark_connected frame heap bus)
  unfolding mark_connected
  connected-IsRestartable frame heap bus r =
      let a = ack_if-IsRestartable frame.acked_through heap bus r in by_sequence frame.sequence _ a
    where
      by_sequence :
          (o : Option ℕ) (b : SessionBusState P)
          → IsRestartable heap b
          → IsRestartable heap (persist heap (set_highest o (record b { seen_envelope_ids = [] })))
      by_sequence none b a = persist-IsRestartable heap _ a.has_path a.positive
      by_sequence (some n) b a = persist-IsRestartable heap _ a.has_path a.positive

  perform-IsRestartable :
      (heap : Heap P) (bus : SessionBusState P) (c : BusCall P)
      → IsRestartable heap bus
      → let (heap', bus') = perform heap bus c in IsRestartable heap' bus'
  unfolding perform create_envelope mark_received
  perform-IsRestartable heap bus (create base uuid now) r =
      persist-IsRestartable _ _ r.has_path (omega arith)
  perform-IsRestartable heap bus (receive frame) r =
      receive_as-IsRestartable frame.envelope_id frame.sequence heap _
        (ack_if-IsRestartable frame.acked_through heap bus r)
  perform-IsRestartable heap bus (connected frame) r = connected-IsRestartable frame heap bus r
  perform-IsRestartable heap bus (ack n) r = ack_through-IsRestartable n heap bus r

  -- A crash loses nothing but the set of ids that were seen: if a bus with a state path agrees with
  -- the bus made from its file, then so it does after any calls on it, with no other bus at work.
  pub perform_all-IsRestartable :
      (heap : Heap P) (bus : SessionBusState P) (cs : List (BusCall P))
      → IsRestartable heap bus
      → let (heap', bus') = perform_all heap bus cs in IsRestartable heap' bus'
  unfolding perform_all
  perform_all-IsRestartable heap bus [] r = r
  perform_all-IsRestartable heap bus (c ∷ cs) r =
      let (heap', bus') = perform heap bus c in
      perform_all-IsRestartable heap' bus' cs (perform-IsRestartable heap bus c r)
