-- ===== src/Gateway/SessionBus/Delivery.antt =====
-- What is received: in order, and each envelope once.
use cere_worker.Prelude.{
  ℕ, ◌<◌, ◌≡◌, ◌↔◌, ◌⊎◌, refl, Text, Bool, true, false, Option, none, some, List, [], ◌∷◌, arith,
  inl, inr, any, text_eq,
}
use cere_worker.Gateway.SessionBus.{
  Frame, SessionBusState, Heap, persist, ack_through, ack_if, receive_numbered, receive_as,
  mark_received,
}

-- Each number lies above the one before, the first above `from`.
abbrev pub Ascending : ℕ → List ℕ → Type 0
Ascending from [] = Unit
Ascending from (n ∷ ns) = (from < n) × Ascending n ns

abbrev number_if : Option ℕ → Bool → List ℕ → List ℕ
number_if none ok rest = rest
number_if (some n) false rest = rest
number_if (some n) true rest = n ∷ rest

Ascending-from : {a b : ℕ} (ns : List ℕ) → a ≡ b → Ascending a ns → Ascending b ns
Ascending-from ns e h = rw e at h

module _ {P : Type 0} where
  persist-highest :
      (heap : Heap P) (bus : SessionBusState P)
      → ((persist heap bus).highest_received_sequence ≡ bus.highest_received_sequence)
        × ((persist heap bus).seen_envelope_ids ≡ bus.seen_envelope_ids)
  unfolding persist
  persist-highest heap bus = ground arith

  ack_if-highest :
      (o : Option ℕ) (heap : Heap P) (bus : SessionBusState P)
      → ((ack_if o heap bus).highest_received_sequence ≡ bus.highest_received_sequence)
        × ((ack_if o heap bus).seen_envelope_ids ≡ bus.seen_envelope_ids)
  unfolding ack_through
  ack_if-highest none heap bus = (refl, refl)
  ack_if-highest (some n) heap bus = ground (arith, persist-highest heap _)

  receive_numbered-highest :
      (id : Text) (n : ℕ) (heap : Heap P) (bus : SessionBusState P)
      → let (bus', ok) = receive_numbered id n heap bus in
        ((ok ≡ true) × (bus.highest_received_sequence < n) × (bus'.highest_received_sequence ≡ n))
        ⊎ ((ok ≡ false) × (bus'.highest_received_sequence ≡ bus.highest_received_sequence))
  unfolding receive_numbered persist
  receive_numbered-highest id n heap bus = ground arith

  -- The sequence numbers of the frames that are accepted, of those that have one.
  unfoldable pub accepted : Heap P → SessionBusState P → List (Frame P) → List ℕ
  accepted heap bus [] = []
  accepted heap bus (frame ∷ frames) =
      let (bus', ok) = mark_received frame heap bus in
      number_if frame.sequence ok (accepted heap bus' frames)

  step-Ascending :
      (heap : Heap P) (bus : SessionBusState P) (id : Text) (o : Option ℕ) (rest : List ℕ)
      → Ascending (receive_as id o heap bus).0.highest_received_sequence rest
      → Ascending bus.highest_received_sequence (number_if o (receive_as id o heap bus).1 rest)
  step-Ascending heap bus id none rest h = rw (persist-highest heap bus).0 at h
  step-Ascending heap bus id (some n) rest h = elim (receive_numbered-highest id n heap bus) [
    | inl (ok, above, same) ↦ rw ok (above, rw same at h)
    | inr (no_, same) ↦ rw no_ (rw same at h)
  ]

  -- Of the frames that `markReceived` is called with, one after the other with no other call between
  -- them, so within one connection: the numbers of those accepted that have one strictly increase,
  -- from above the highest one received before. Frames without a number are not spoken of, nor what
  -- is accepted after `markConnected` has reset the highest number.
  pub accepted-Ascending :
      (heap : Heap P) (bus : SessionBusState P) (frames : List (Frame P))
      → Ascending bus.highest_received_sequence (accepted heap bus frames)
  unfolding accepted mark_received
  accepted-Ascending heap bus [] = tt
  accepted-Ascending heap bus (frame ∷ frames) =
      let acked = ack_if frame.acked_through heap bus in
      let rest = (receive_as frame.envelope_id frame.sequence heap acked).0 in
      Ascending-from _ (ack_if-highest frame.acked_through heap bus).0 (
        step-Ascending heap acked frame.envelope_id frame.sequence (accepted heap rest frames)
          (accepted-Ascending heap rest frames))

  -- A numbered frame is accepted exactly when its id has not been seen and its number lies above the
  -- highest one received, whatever it acknowledges.
  pub mark_received_iff :
      (heap : Heap P) (bus : SessionBusState P) (frame : Frame P) (n : ℕ)
      → frame.sequence ≡ some n
      → ((mark_received frame heap bus).1 ≡ true) ↔ (
          (any (λ id. text_eq id frame.envelope_id) bus.seen_envelope_ids ≡ false)
          × (bus.highest_received_sequence < n))
  unfolding mark_received receive_numbered
  mark_received_iff heap bus frame n e =
      rw
        (
          e,
          (ack_if-highest frame.acked_through heap bus).0,
          (ack_if-highest frame.acked_through heap bus).1,
        )
        (ground arith)
