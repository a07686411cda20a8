-- ===== src/Gateway/SessionBus/Tidy.antt =====
-- What holds of the waiting envelopes whatever is called: how many they are, and their numbers.
use cere_worker.Prelude.{
  ℕ, zero, suc, ◌+◌, ◌≤◌, ◌<◌, Text, Bool, true, false, Option, none, some, List, [], ◌∷◌, ◌++◌,
  arith, ◌==◌, Bool-cases, inl, inr, max, ltb, leb, any, text_eq, ◌||◌, length, drop, filter,
  length-filter-le, All, All-append, All-filter, All-drop, All-imp,
}
use cere_worker.Gateway.SessionBus.{
  Frame, SessionBusState, Heap, ArrayRef, shared, own, contents, persist, ack_through, ack_if,
  sequence_of, is_after, create_envelope, EnvelopeBase, envelope_of, enqueue, cut,
  should_persist_outgoing, max_outbound_envelopes, mark_received, mark_connected, receive_numbered,
  receive_as, set_highest, BusCall, create, receive, connected, ack, perform, perform_all,
}
use cere_worker.Gateway.SessionBus.Outbound.{enqueue-length}

below_suc : (a b : ℕ) → a < b → a < b + 1
below_suc a b h = omega arith

module _ {P : Type 0} where
  -- The numbers strictly increase, and lie below `next`.
  abbrev pub HasIncreasingNumbers : List (Frame P) → Type 0
  HasIncreasingNumbers [] = Unit
  HasIncreasingNumbers (f ∷ fs) =
      All (λ g. sequence_of f < sequence_of g) fs × HasIncreasingNumbers fs

  abbrev pub IsBelow : ℕ → List (Frame P) → Type 0
  IsBelow next fs = All (λ f. sequence_of f < next) fs

  Increasing-snoc :
      (fs : List (Frame P)) (f : Frame P)
      → HasIncreasingNumbers fs
      → IsBelow (sequence_of f) fs
      → HasIncreasingNumbers (fs ++ f ∷ [])
  Increasing-snoc [] f h b = (tt, tt)
  Increasing-snoc (g ∷ fs) f (a, h) (p, b) = (
    All-append (λ x. sequence_of g < sequence_of x) fs (f ∷ []) a (p, tt),
    Increasing-snoc fs f h b,
  )

  Increasing-filter :
      (p : Frame P → Bool) (fs : List (Frame P))
      → HasIncreasingNumbers fs
      → HasIncreasingNumbers (filter p fs)
  unfolding filter
  Increasing-filter p [] h = tt
  Increasing-filter p (f ∷ fs) (a, h) = elim (Bool-cases (p f)) [
    | inl e ↦
        rw e (All-filter (λ g. sequence_of f < sequence_of g) p fs a, Increasing-filter p fs h)
    | inr e ↦ rw e (Increasing-filter p fs h)
  ]

  Increasing-drop :
      (n : ℕ) (fs : List (Frame P)) → HasIncreasingNumbers fs → HasIncreasingNumbers (drop n fs)
  Increasing-drop zero fs h = h
  Increasing-drop (suc n) [] h = tt
  Increasing-drop (suc n) (f ∷ fs) (a, h) = Increasing-drop n fs h

  pub record IsTidy (heap : Heap P) (bus : SessionBusState P) : Type 0 where
    pub few : length (contents heap bus.outbound) ≤ max_outbound_envelopes
    pub increasing : HasIncreasingNumbers (contents heap bus.outbound)
    pub below : IsBelow bus.next_sequence (contents heap bus.outbound)

  -- The state that `persist` leaves alone.
  persist-IsTidy :
      (heap : Heap P) (bus : SessionBusState P) → IsTidy heap bus → IsTidy heap (persist heap bus)
  unfolding persist
  persist-IsTidy heap bus t = elim (Bool-cases bus.has_path) [
    | inl e ↦ simp e (record { few = t.few; increasing = t.increasing; below = t.below })
    | inr e ↦ simp e t
  ]

  filter-IsTidy :
      (p : Frame P → Bool) (heap : Heap P) (bus : SessionBusState P)
      → IsTidy heap bus
      → IsTidy heap (record bus { outbound = own (filter p (contents heap bus.outbound)) })
  filter-IsTidy p heap bus t = record {
    few = omega (arith, length-filter-le p (contents heap bus.outbound), t.few);
    increasing = Increasing-filter p (contents heap bus.outbound) t.increasing;
    below =
        All-filter (λ f. sequence_of f < bus.next_sequence) p (contents heap bus.outbound) t.below;
  }

  ack_through-IsTidy :
      (n : ℕ) (heap : Heap P) (bus : SessionBusState P)
      → IsTidy heap bus
      → IsTidy heap (ack_through n heap bus)
  unfolding ack_through
  ack_through-IsTidy n heap bus t = elim (Bool-cases (n == 0)) [
    | inl e ↦ rw e t
    | inr e ↦ rw e (persist-IsTidy heap _ (filter-IsTidy (is_after n) heap bus t))
  ]

  ack_if-IsTidy :
      (o : Option ℕ) (heap : Heap P) (bus : SessionBusState P)
      → IsTidy heap bus
      → IsTidy heap (ack_if o heap bus)
  ack_if-IsTidy none heap bus t = t
  ack_if-IsTidy (some n) heap bus t = ack_through-IsTidy n heap bus t

  receive_numbered-IsTidy :
      (id : Text) (n : ℕ) (heap : Heap P) (bus : SessionBusState P)
      → IsTidy heap bus
      → IsTidy heap (receive_numbered id n heap bus).0
  unfolding receive_numbered
  receive_numbered-IsTidy id n heap bus t =
      elim (Bool-cases
        (any (λ x. text_eq x id) bus.seen_envelope_ids || leb n bus.highest_received_sequence)) [
          | inl e ↦ rw e (persist-IsTidy heap bus t)
          | inr e ↦
              let received = record bus {
                seen_envelope_ids = id ∷ bus.seen_envelope_ids;
                highest_received_sequence = max bus.highest_received_sequence n;
              } in
              rw e (
                persist-IsTidy heap received
                  (record { few = t.few; increasing = t.increasing; below = t.below }))
        ]

  receive_as-IsTidy :
      (id : Text) (o : Option ℕ) (heap : Heap P) (bus : SessionBusState P)
      → IsTidy heap bus
      → IsTidy heap (receive_as id o heap bus).0
  receive_as-IsTidy id none heap bus t = persist-IsTidy heap bus t
  receive_as-IsTidy id (some n) heap bus t = receive_numbered-IsTidy id n heap bus t

  connected-IsTidy :
      (frame : Frame P) (heap : Heap P) (bus : SessionBusState P)
      → IsTidy heap bus
      → IsTidy heap (mark_connected frame heap bus)
  unfolding mark_connected
  connected-IsTidy frame heap bus t =
      by_sequence frame.sequence _ (ack_if-IsTidy frame.acked_through heap bus t)
    where
      by_sequence :
          (o : Option ℕ) (b : SessionBusState P)
          → IsTidy heap b
          → IsTidy heap (persist heap (set_highest o (record b { seen_envelope_ids = [] })))
      by_sequence none b a =
          persist-IsTidy heap (record b { seen_envelope_ids = [] })
            (record { few = a.few; increasing = a.increasing; below = a.below })
      by_sequence (some n) b a =
          persist-IsTidy heap (record b { seen_envelope_ids = []; highest_received_sequence = n })
            (record { few = a.few; increasing = a.increasing; below = a.below })

  cut-IsTidy :
      (heap : Heap P) (ref : ArrayRef P) (next : ℕ)
      → HasIncreasingNumbers (contents heap ref)
      → IsBelow next (contents heap ref)
      → HasIncreasingNumbers (contents heap (cut heap ref))
        × IsBelow next (contents heap (cut heap ref))
  cut-IsTidy heap ref next h b =
      elim (Bool-cases (ltb max_outbound_envelopes (length (contents heap ref)))) [
        | inl e ↦ rw e (
          Increasing-drop _ (contents heap ref) h,
          All-drop (λ f. sequence_of f < next) _ (contents heap ref) b,
        )
        | inr e ↦ rw e (h, b)
      ]

  enqueue-IsTidy :
      (keep : Bool) (frame : Frame P) (heap : Heap P) (ref : ArrayRef P)
      → HasIncreasingNumbers (contents heap ref)
      → IsBelow (sequence_of frame) (contents heap ref)
      → let (heap', ref') = enqueue keep frame heap ref in
        HasIncreasingNumbers (contents heap' ref')
        × IsBelow (sequence_of frame + 1) (contents heap' ref')
  enqueue-IsTidy false frame heap ref h b = (
    h,
    All-imp (λ f (p : sequence_of f < sequence_of frame). below_suc _ _ p) (contents heap ref) b,
  )
  enqueue-IsTidy true frame heap shared h b =
      cut-IsTidy (heap ++ frame ∷ []) shared (sequence_of frame + 1)
        (Increasing-snoc heap frame h b)
        (All-append _ heap (frame ∷ [])
          (All-imp (λ f (p : sequence_of f < sequence_of frame). below_suc _ _ p) heap b)
          (omega arith, tt))
  enqueue-IsTidy true frame heap (own xs) h b =
      cut-IsTidy heap (own (xs ++ frame ∷ [])) (sequence_of frame + 1)
        (Increasing-snoc xs frame h b)
        (All-append _ xs (frame ∷ [])
          (All-imp (λ f (p : sequence_of f < sequence_of frame). below_suc _ _ p) xs b)
          (omega arith, tt))

  create-IsTidy :
      (base : EnvelopeBase P) (uuid : Text) (now : ℕ) (heap : Heap P) (bus : SessionBusState P)
      → IsTidy heap bus
      → let (heap', bus', _) = create_envelope base uuid now heap bus in IsTidy heap' bus'
  unfolding create_envelope
  create-IsTidy base uuid now heap bus t =
      let keep = should_persist_outgoing base.event_type in
      let frame = envelope_of base uuid now bus in
      let (increasing, below) = enqueue-IsTidy keep frame heap bus.outbound t.increasing t.below in
      let (heap', ref) = enqueue keep frame heap bus.outbound in
      persist-IsTidy heap' (record bus { next_sequence = bus.next_sequence + 1; outbound = ref })
        (record {
          few = enqueue-length keep frame heap bus.outbound t.few;
          increasing = increasing;
          below = below;
        })

  perform-IsTidy :
      (heap : Heap P) (bus : SessionBusState P) (c : BusCall P)
      → IsTidy heap bus
      → let (heap', bus') = perform heap bus c in IsTidy heap' bus'
  unfolding perform mark_received
  perform-IsTidy heap bus (create base uuid now) t = create-IsTidy base uuid now heap bus t
  perform-IsTidy heap bus (receive frame) t =
      receive_as-IsTidy frame.envelope_id frame.sequence heap _
        (ack_if-IsTidy frame.acked_through heap bus t)
  perform-IsTidy heap bus (connected frame) t = connected-IsTidy frame heap bus t
  perform-IsTidy heap bus (ack n) t = ack_through-IsTidy n heap bus t

  -- After any calls on a bus, with no other bus at work: at most 500 envelopes wait, their numbers
  -- strictly increase, and all lie below the number that the next envelope gets, if this held before.
  pub perform_all-IsTidy :
      (heap : Heap P) (bus : SessionBusState P) (cs : List (BusCall P))
      → IsTidy heap bus
      → let (heap', bus') = perform_all heap bus cs in IsTidy heap' bus'
  unfolding perform_all
  perform_all-IsTidy heap bus [] t = t
  perform_all-IsTidy heap bus (c ∷ cs) t =
      let (heap', bus') = perform heap bus c in
      perform_all-IsTidy heap' bus' cs (perform-IsTidy heap bus c t)
