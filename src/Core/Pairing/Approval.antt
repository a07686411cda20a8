-- ===== src/Core/Pairing/Approval.antt =====
-- Who is let in: approval by a code, and nothing else but the configuration.
use cere_worker.Prelude.{
  ℕ, ◌+◌, ◌<◌, ◌≡◌, ◌≢◌, ◌⊎◌, refl, sym, ◌∙◌, ap, Text, text_eq_iff, text_eq_refl, lt→ltb, leb,
  Bool, true, false, ◌||◌, Option, none, some, List, [], ◌∷◌, map, any, any-append, any-one,
  find?-mem, find?, find?-sat, All-find?, arith, Bool-cases, Option-cases, inl, inr, codes,
  count_if,
}
use cere_worker.Core.Pairing.{
  PairingStore, PairingRequest, ApprovedUser, is_live, is_live_of, is_live_in, has_code,
  mark_expired, refresh_from_disk, expire_stale_in_memory, format_code, normalize_code, create_in,
  reuse_or_insert, insert_request, new_request, draw_code, approve_in, approve_first, approve_found,
  add_user, is_user, is_approved, create_pairing_code, approve_code, done, with_mutation, not_found,
  persist_requests, ApprovalResult, code_ttl_ms,
}
use cere_worker.Core.Pairing.Codes.{IsCode, normalize_code-format_code}
use cere_worker.Core.Pairing.Limit.{IsSound, HasDistinctCodes, create_in-IsSound}
use cere_worker.Core.Pairing.Synced.{IsSynced, create_in-IsSynced, approve_in-IsSynced}
use mathlib.Core.List.{Memᴰ}

is_user_self :
    (ch sd : Text) (now : ℕ) (via : Option Text)
    → is_user ch sd
        (record { channel_id = ch; sender_id = sd; approved_at = now; approved_via = via })
      ≡ true
is_user_self ch sd now via = rw (text_eq_refl ch, text_eq_refl sd)

-- After `add_user` the user is approved.
any-add_user_self :
    (now : ℕ) (ch sd via : Text) (s : PairingStore)
    → any (is_user ch sd) (add_user now ch sd via s).approved_users ≡ true
any-add_user_self now ch sd via s = elim (Bool-cases (any (is_user ch sd) s.approved_users)) [
  | inl old ↦ rw old old
  | inr new ↦
      rw
        (
          new,
          any-append (is_user ch sd) s.approved_users (
              record { channel_id = ch; sender_id = sd; approved_at = now; approved_via = some via }
              ∷ []),
          new,
        )
        (any-one (is_user ch sd) _ (is_user_self ch sd now (some via)))
]

-- A request found by one test is the one found by another, where its code decides that test.
find?-same_code :
    (p q : PairingRequest → Bool) (rs : List PairingRequest) (r : PairingRequest)
    → HasDistinctCodes rs
    → find? p rs ≡ some r
    → q r ≡ true
    → ((x : PairingRequest) → q x ≡ true → x.code ≡ r.code)
    → find? q rs ≡ some r
unfolding find?
find?-same_code p q [] r d f t u = cc
find?-same_code p q (x ∷ rs) r (fresh, d) f t u = elim (Bool-cases (p x)) [
  | inl px ↦ let same : x ≡ r = ground arith in rw (same, t)
  | inr px ↦
      let later : find? p rs ≡ some r = rw px at f in
      elim (Bool-cases (q x)) [
        | inl qx ↦ absurd (All-find? (λ y. y.code ≢ x.code) p rs fresh later (sym (u x qx)))
        | inr qx ↦ rw qx (find?-same_code p q rs r d later t u)
      ]
]

expire-requests :
    (now : ℕ) (s : PairingStore)
    → (expire_stale_in_memory now s).0.requests ≡ map (mark_expired now) s.requests
unfolding expire_stale_in_memory
expire-requests now s = ground arith

expire-approved_users :
    (now : ℕ) (s : PairingStore)
    → (expire_stale_in_memory now s).0.approved_users ≡ s.approved_users
unfolding expire_stale_in_memory
expire-approved_users now s = ground arith

-- Expiry hides no request that is live, and none becomes live.
find?-mark_expired :
    (now : ℕ) (code : Text) (rs : List PairingRequest)
    → find? (has_code now code) (map (mark_expired now) rs) ≡ find? (has_code now code) rs
unfolding find?
find?-mark_expired now code [] = refl
find?-mark_expired now code (r ∷ rs) = ground (arith, find?-mark_expired now code rs)

find?-expire :
    (now : ℕ) (code : Text) (s : PairingStore)
    → find? (has_code now code) (expire_stale_in_memory now s).0.requests
      ≡ find? (has_code now code) s.requests
find?-expire now code s = rw (expire-requests now s) (find?-mark_expired now code s.requests)

-- What `approveCode` does where the code belongs to a live request.
approve_in-found :
    (now : ℕ) (input : Text) (s : PairingStore) (r : PairingRequest)
    → find? (has_code now (normalize_code input)) s.requests ≡ some r
    → approve_in now input s
      ≡ approve_found now (normalize_code input) (expire_stale_in_memory now s).0 (some r)
unfolding approve_in
approve_in-found now input s r f = rw (find?-expire now (normalize_code input) s, f)

approve_in-missing :
    (now : ℕ) (input : Text) (s : PairingStore)
    → find? (has_code now (normalize_code input)) s.requests ≡ none
    → approve_in now input s ≡ ((expire_stale_in_memory now s).0, not_found)
unfolding approve_in
approve_in-missing now input s f = rw (find?-expire now (normalize_code input) s, f)

abbrev user_of : ℕ → Text → Text → Text → ApprovedUser
user_of now c d via = record {
  channel_id = c;
  sender_id = d;
  approved_at = now;
  approved_via = some via;
}

abbrev approving : ℕ → Text → PairingStore → PairingStore
approving now code s = persist_requests (record s { requests = approve_first now code s.requests })

has_code-parts :
    (now : ℕ) (code : Text) (r : PairingRequest)
    → has_code now code r ≡ true
    → (r.code ≡ code) × (is_live now r ≡ true)
has_code-parts now code r h = ground (arith, text_eq_iff r.code code)

any-add_user :
    (now : ℕ) (c d via ch sd : Text) (s : PairingStore)
    → any (is_user ch sd) (add_user now c d via s).approved_users ≡ true
    → (any (is_user ch sd) s.approved_users ≡ true) ⊎ ((c ≡ ch) × (d ≡ sd))
unfolding any
any-add_user now c d via ch sd s h = elim (Bool-cases (any (is_user c d) s.approved_users)) [
  | inl old ↦ inl (rw old at h)
  | inr new ↦ split _ (any-append (is_user ch sd) s.approved_users _) (rw new at h)
]
  where
    split :
        (us : List ApprovedUser)
        → any (is_user ch sd) us
          ≡ (any (is_user ch sd) s.approved_users || any (is_user ch sd) (user_of now c d via ∷ []))
        → any (is_user ch sd) us ≡ true
        → (any (is_user ch sd) s.approved_users ≡ true) ⊎ ((c ≡ ch) × (d ≡ sd))
    split us e t = ground (arith, text_eq_iff c ch, text_eq_iff d sd)

-- Whoever is approved after `approveCode`, though not before, is the sender of a stored request that
-- is pending and unexpired and whose code is the one given, read without dashes, blanks and case.
pub approve_code_sound :
    (acquired : Bool) (now : ℕ) (input ch sd : Text) (s : PairingStore)
    → (is_approved ch sd (approve_code acquired now input s).0).1 ≡ true
    → ((is_approved ch sd s).1 ≡ true)
      ⊎ ((r : PairingRequest) × Memᴰ r s.disk_requests
          × (r.code ≡ normalize_code input)
          × (is_live now r ≡ true)
          × (r.channel_id ≡ ch)
          × (r.sender_id ≡ sd))
unfolding is_approved approve_code with_mutation
approve_code_sound false now input ch sd s h = inl h
approve_code_sound true now input ch sd s h =
    let s0 = refresh_from_disk s in
    let code = normalize_code input in
    let synced = approve_in-IsSynced now input s0 (record { requests = refl; approved = refl }) in
    let h1 : any (is_user ch sd) (approve_in now input s0).0.approved_users ≡ true =
      rw (← synced.approved) h in
    elim (Option-cases (find? (has_code now code) s0.requests)) [
      | inl missing ↦
          inl (rw (approve_in-missing now input s0 missing, expire-approved_users now s0) at h1)
      | inr (r, found) ↦
          let (has, live) =
            has_code-parts now code r (find?-sat (has_code now code) s0.requests found) in
          elim (any-add_user now r.channel_id r.sender_id (codes "pairing") ch sd
            (approving now code (expire_stale_in_memory now s0).0)
            (rw (approve_in-found now input s0 r found) at h1)) [
              | inl before ↦ inl (rw (expire-approved_users now s0) at before)
              | inr (c, d) ↦
                  inr (r, find?-mem (has_code now code) s0.requests found, has, live, c, d)
            ]
    ]

find?-head : (r : PairingRequest) (rs : List PairingRequest) → find? (λ x. true) (r ∷ rs) ≡ some r
unfolding find?
find?-head r rs = refl

of_sender :
    (now : ℕ) (ch sd : Text) (r : PairingRequest)
    → is_live_of now ch sd r ≡ true
    → (r.channel_id ≡ ch) × (r.sender_id ≡ sd)
of_sender now ch sd r h = ground (arith, text_eq_iff r.channel_id ch, text_eq_iff r.sender_id sd)

has_code_of :
    (now : ℕ) (ch sd code : Text) (r : PairingRequest)
    → r.code ≡ code
    → is_live_of now ch sd r ≡ true
    → has_code now code r ≡ true
has_code_of now ch sd code r e h = ground (arith, text_eq_iff r.code code)

approved_by :
    (now : ℕ) (ch sd shown : Text) (s : PairingStore) (r : PairingRequest)
    → IsSynced s
    → find? (has_code now (normalize_code shown)) s.requests ≡ some r
    → is_live_of now ch sd r ≡ true
    → let (s2, result) = approve_in now shown s in
      (result.ok ≡ true)
      × (result.channel_id ≡ some ch)
      × (result.sender_id ≡ some sd)
      × (any (is_user ch sd) s2.disk_approved ≡ true)
approved_by now ch sd shown s r y f live =
    let (c, d) = of_sender now ch sd r live in
    rw ((approve_in-IsSynced now shown s y).approved, approve_in-found now shown s r f, c, d)
      (refl, refl, refl, any-add_user_self now ch sd (codes "pairing") _)

module _ (now : ℕ) (rand : ℕ → ℕ) (range : (k : ℕ) → rand k < 32) (ch sd : Text)
    (name : Option Text) where
  -- A code that is handed out belongs to a live request of the sender.
  create_in-live :
      (s : PairingStore) (shown : Text)
      → (create_in now rand ch sd name s).1 ≡ some shown
      → (r : PairingRequest) × (p : PairingRequest → Bool) × (find? p
            (create_in now rand ch sd name s).0.requests
          ≡ some r)
        × (shown ≡ format_code r.code)
        × (is_live_of now ch sd r ≡ true)
  unfolding create_in
  create_in-live s shown h =
      let s1 = (expire_stale_in_memory now s).0 in
      reuse s1 (find? (is_live_of now ch sd) s1.requests) refl h
    where
      insert :
          (s1 : PairingStore) (o : Option Text)
          → (insert_request now rand ch sd name s1 o).1 ≡ some shown
          → (r : PairingRequest) × (p : PairingRequest → Bool) × (find? p
                (insert_request now rand ch sd name s1 o).0.requests
              ≡ some r)
            × (shown ≡ format_code r.code)
            × (is_live_of now ch sd r ≡ true)
      insert s1 none h = cc
      insert s1 (some code) h = (
        new_request now ch sd name code,
        (λ r. true),
        find?-head (new_request now ch sd name code) s1.requests,
        ground arith,
        rw (text_eq_refl ch, text_eq_refl sd) (lt→ltb now (now + code_ttl_ms) (omega arith)),
      )

      reuse :
          (s1 : PairingStore) (o : Option PairingRequest)
          → find? (is_live_of now ch sd) s1.requests ≡ o
          → (reuse_or_insert now rand ch sd name s1 o).1 ≡ some shown
          → (r : PairingRequest) × (p : PairingRequest → Bool) × (find? p
                (reuse_or_insert now rand ch sd name s1 o).0.requests
              ≡ some r)
            × (shown ≡ format_code r.code)
            × (is_live_of now ch sd r ≡ true)
      reuse s1 (some r) f h =
          (r, is_live_of now ch sd, f, ground arith, find?-sat (is_live_of now ch sd) s1.requests f)
      reuse s1 none f h = elim (Bool-cases (leb 3 (count_if (is_live_in now ch) s1.requests))) [
        | inl e ↦ let refused : ◌≡◌ {A = Option Text} none (some shown) = rw e at h in cc refused
        | inr e ↦ rw e (insert s1 (draw_code 100 rand 0 s1.requests) (rw e at h))
      ]

  -- A code that `createPairingCode` returns lets its sender in: given back at the same reading of
  -- the clock, as it was shown, `approveCode` succeeds for that channel and sender, and `isApproved`
  -- holds of them from then on. The stored requests are sound before, and readings of
  -- `randomInt(32)` lie below 32.
  pub approve_code-create_pairing_code :
      (s : PairingStore) (shown : Text)
      → IsSound now s.disk_requests
      → (create_pairing_code now rand ch sd name true s).1 ≡ done (some shown)
      → let (s1, _) = create_pairing_code now rand ch sd name true s in
        let (s2, outcome) = approve_code true now shown s1 in
        (result : ApprovalResult) × (outcome ≡ done result)
        × (result.ok ≡ true)
        × (result.channel_id ≡ some ch)
        × (result.sender_id ≡ some sd)
        × ((is_approved ch sd s2).1 ≡ true)
  unfolding create_pairing_code approve_code is_approved with_mutation
  approve_code-create_pairing_code s shown sound h =
      let s0 = refresh_from_disk s in
      let s1 = (create_in now rand ch sd name s0).0 in
      let (r, p, found, e, live) = create_in-live s0 shown (ground arith) in
      let sound1 = create_in-IsSound now rand range ch sd name s0 sound in
      let coded : IsCode r.code = All-find? (λ x. IsCode x.code) p s1.requests sound1.coded found in
      let synced1 =
        create_in-IsSynced now rand ch sd name s0 (record { requests = refl; approved = refl }) in
      let code = normalize_code shown in
      let same : code ≡ r.code = ap normalize_code e ∙ normalize_code-format_code r.code coded in
      let again : find? (has_code now code) s1.disk_requests ≡ some r = rw (synced1.requests) (
        find?-same_code p (has_code now code) s1.requests r sound1.distinct found
          (has_code_of now ch sd code r (sym same) live)
          (λ x t. (has_code-parts now code x t).0 ∙ same)) in
      let (ok, c, d, admitted) =
        approved_by now ch sd shown (refresh_from_disk s1) r
          (record { requests = refl; approved = refl }) again live in
      ((approve_in now shown (refresh_from_disk s1)).1, refl, ok, c, d, admitted)
