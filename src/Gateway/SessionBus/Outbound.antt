-- ===== src/Gateway/SessionBus/Outbound.antt =====
-- The envelopes that wait for an acknowledgement, and their replay.
use cere_worker.Prelude.{
  ℕ, ◌+◌, ◌≤◌, ◌<◌, ◌≡◌, refl, ap, ◌∙◌, Text, Bool, true, false, List, [], ◌∷◌, ◌++◌, arith,
  if◌then◌else◌, ◌==◌, Bool-cases, inl, inr, ltb, max, length, length-slice_last, filter,
  filter-append, filter-filter, filter-ext, ◌&&◌, length-append, lt→ltb,
}
use cere_worker.Gateway.SessionBus.{
  Frame, SessionBusState, Heap, ArrayRef, shared, own, contents, persist, ack_through, replay_after,
  is_after, sequence_of, create_envelope, EnvelopeBase, envelope_of, enqueue, push, cut,
  should_persist_outgoing, max_outbound_envelopes,
}

not_over : (n m : ℕ) → n < 500 → m ≡ n + 1 → ltb 500 m ≡ false
not_over n m h e = ground arith

not_over_le : (n : ℕ) → ltb 500 n ≡ false → n ≤ 500
not_over_le n h = ground arith

max_test : (m n k : ℕ) → ltb (max m n) k ≡ (ltb n k && ltb m k)
max_test m n k = ground arith

max_test_zero : (m n k : ℕ) → (n == 0) ≡ true → ltb m k ≡ ltb (max m n) k
max_test_zero m n k h = ground arith

module _ {P : Type 0} where
  pub persist-outbound :
      (heap : Heap P) (bus : SessionBusState P) → (persist heap bus).outbound ≡ bus.outbound
  unfolding persist
  persist-outbound heap bus = ground arith

  -- What waits after an acknowledgement.
  pub contents-ack_through :
      (n : ℕ) (heap : Heap P) (bus : SessionBusState P)
      → contents heap (ack_through n heap bus).outbound ≡ (
          if n == 0
          then contents heap bus.outbound
          else filter (is_after n) (contents heap bus.outbound))
  unfolding ack_through
  contents-ack_through n heap bus = elim (Bool-cases (n == 0)) [
    | inl e ↦ rw e
    | inr e ↦ rw (e, persist-outbound heap _)
  ]

  -- What is replayed after an acknowledgement: the waiting envelopes whose numbers lie above both
  -- the number that is asked for and the number that is acknowledged.
  pub replay_after-ack_through :
      (m n : ℕ) (heap : Heap P) (bus : SessionBusState P)
      → replay_after m heap (ack_through n heap bus)
        ≡ filter (λ frame. ltb (max m n) (sequence_of frame)) (contents heap bus.outbound)
  unfolding replay_after
  replay_after-ack_through m n heap bus =
      ap (filter (is_after m)) (contents-ack_through n heap bus) ∙ both (n == 0) refl
    where
      both :
          (b : Bool)
          → (n == 0) ≡ b
          → filter (is_after m) (
              if b
              then contents heap bus.outbound
              else filter (is_after n) (contents heap bus.outbound))
            ≡ filter (λ frame. ltb (max m n) (sequence_of frame)) (contents heap bus.outbound)
      both true e =
          filter-ext (is_after m) _ (λ frame. max_test_zero m n (sequence_of frame) e)
            (contents heap bus.outbound)
      both false e =
          filter-filter (is_after m) (is_after n) _ (λ frame. max_test m n (sequence_of frame))
            (contents heap bus.outbound)

  -- An envelope that is kept goes to the end, if there is room.
  contents-enqueue :
      (frame : Frame P) (heap : Heap P) (ref : ArrayRef P)
      → length (contents heap ref) < max_outbound_envelopes
      → let (heap', ref') = enqueue true frame heap ref in
        contents heap' ref' ≡ contents heap ref ++ frame ∷ []
  contents-enqueue frame heap shared room =
      let fits : ltb max_outbound_envelopes (length (heap ++ frame ∷ [])) ≡ false =
        not_over (length heap) (length (heap ++ frame ∷ [])) room
          (length-append heap (frame ∷ [])) in
      rw fits
  contents-enqueue frame heap (own xs) room =
      let fits : ltb max_outbound_envelopes (length (xs ++ frame ∷ [])) ≡ false =
        not_over (length xs) (length (xs ++ frame ∷ [])) room (length-append xs (frame ∷ [])) in
      rw fits

  contents-create :
      (base : EnvelopeBase P) (uuid : Text) (now : ℕ) (heap : Heap P) (bus : SessionBusState P)
      → should_persist_outgoing base.event_type ≡ true
      → length (contents heap bus.outbound) < max_outbound_envelopes
      → let (heap', bus', frame) = create_envelope base uuid now heap bus in
        contents heap' bus'.outbound ≡ contents heap bus.outbound ++ frame ∷ []
  unfolding create_envelope
  contents-create base uuid now heap bus p room =
      rw (persist-outbound _ _, p)
        (contents-enqueue (envelope_of base uuid now bus) heap bus.outbound room)

  filter-one :
      (n : ℕ) (frame : Frame P)
      → filter (is_after n) (frame ∷ []) ≡ (if is_after n frame then frame ∷ [] else [])
  unfolding filter
  filter-one n frame = refl

  -- Nothing that is sent is lost while there is room: with fewer than 500 envelopes waiting, an
  -- envelope of a type that is kept is replayed, last of all, whenever the number asked for is
  -- below its own, and the others are replayed as before.
  pub replay_after-create_envelope :
      (n : ℕ) (base : EnvelopeBase P) (uuid : Text) (now : ℕ) (heap : Heap P)
      (bus : SessionBusState P)
      → should_persist_outgoing base.event_type ≡ true
      → length (contents heap bus.outbound) < max_outbound_envelopes
      → let (heap', bus', frame) = create_envelope base uuid now heap bus in
        replay_after n heap' bus'
        ≡ replay_after n heap bus ++ (if ltb n bus.next_sequence then frame ∷ [] else [])
  unfolding replay_after create_envelope
  replay_after-create_envelope n base uuid now heap bus p room =
      ap (filter (is_after n)) (contents-create base uuid now heap bus p room)
      ∙ filter-append (is_after n) (contents heap bus.outbound) _
      ∙ ap (λ r. filter (is_after n) (contents heap bus.outbound) ++ r)
          (filter-one n (envelope_of base uuid now bus))

  -- The bound on the waiting envelopes.
  cut-length :
      (heap : Heap P) (ref : ArrayRef P)
      → length (contents heap (cut heap ref)) ≤ max_outbound_envelopes
  cut-length heap ref =
      elim (Bool-cases (ltb max_outbound_envelopes (length (contents heap ref)))) [
        | inl e ↦ rw e (length-slice_last 500 (contents heap ref) (omega arith))
        | inr e ↦ rw e (not_over_le (length (contents heap ref)) e)
      ]

  pub enqueue-length :
      (keep : Bool) (frame : Frame P) (heap : Heap P) (ref : ArrayRef P)
      → length (contents heap ref) ≤ max_outbound_envelopes
      → let (heap', ref') = enqueue keep frame heap ref in
        length (contents heap' ref') ≤ max_outbound_envelopes
  enqueue-length false frame heap ref h = h
  enqueue-length true frame heap ref h = cut-length (push frame heap ref).0 (push frame heap ref).1

  if-true : {n m : ℕ} (fs : List (Frame P)) → n < m → (if ltb n m then fs else []) ≡ fs
  if-true {n} {m} fs h = rw (lt→ltb n m h)

  -- The array of `DEFAULT_STATE` is shared: an envelope of a kept type that one bus creates before it
  -- has an array of its own is replayed by every other bus that has none either, if the number asked
  -- for is below the envelope's and fewer than 500 envelopes wait.
  pub create_envelope-leaks :
      (n : ℕ) (base : EnvelopeBase P) (uuid : Text) (now : ℕ) (heap : Heap P)
      (sender other : SessionBusState P)
      → sender.outbound ≡ shared
      → other.outbound ≡ shared
      → should_persist_outgoing base.event_type ≡ true
      → length heap < max_outbound_envelopes
      → n < sender.next_sequence
      → let (heap', _, frame) = create_envelope base uuid now heap sender in
        replay_after n heap' other ≡ replay_after n heap other ++ frame ∷ []
  unfolding replay_after create_envelope
  create_envelope-leaks n base uuid now heap sender other s o p room h =
      let frame = envelope_of base uuid now sender in
      rw (p, s, o)
        (filter-append (is_after n) heap (frame ∷ [])
          ∙ ap (λ r. filter (is_after n) heap ++ r) (filter-one n frame ∙ if-true (frame ∷ []) h))
