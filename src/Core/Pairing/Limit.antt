-- ===== src/Core/Pairing/Limit.antt =====
-- What holds of the stored requests whatever is called: few live requests in a channel, distinct
-- codes, and codes of the right shape.
use cere_worker.Prelude.{
  ℕ, zero, suc, ◌+◌, ◌≤◌, ◌<◌, ◌≡◌, ◌≢◌, refl, sym, Text, text_eq, text_eq_iff, leb, ltb, true,
  false, Option, none, some, List, [], ◌∷◌, map, any, find?, count_if, arith, Bool-cases, inl, inr,
  All, count_if_mono, count_if-cons-le, count_if-cons_not, ltb→lt, codes,
}
use cere_worker.Core.Pairing.{
  PairingStore, PairingRequest, is_live_in, is_live_of, has_code, is_stale, mark_expired,
  refresh_from_disk, expire_stale_in_memory, create_in, reuse_or_insert, insert_request,
  new_request, draw_code, generate_code, code_length, approve_in, approve_first, approve_found,
  add_user, normalize_code, Call, create, approve, expire, add_config, query_code, query_pending,
  query_approved, time_of, perform, perform_all, InOrder, last_time, max_pending_per_channel,
}
use cere_worker.Core.Pairing.Codes.{IsCode, generate_code-IsCode}
use cere_worker.Core.Pairing.Synced.{IsSynced, perform-IsSynced}

-- No two requests have one code.
abbrev pub HasDistinctCodes : List PairingRequest → Type 0
HasDistinctCodes [] = Unit
HasDistinctCodes (r ∷ rs) = All (λ x. x.code ≢ r.code) rs × HasDistinctCodes rs

-- At no time from `t` on are more than three requests of a channel live.
abbrev pub IsLimited : ℕ → List PairingRequest → Type 0
IsLimited t rs =
    (channel_id : Text) (u : ℕ)
    → t ≤ u
    → count_if (is_live_in u channel_id) rs ≤ max_pending_per_channel

pub record IsSound (t : ℕ) (rs : List PairingRequest) : Type 0 where
  pub limited : IsLimited t rs
  pub distinct : HasDistinctCodes rs
  pub coded : All (λ r. IsCode r.code) rs

-- The same requests, some of them no longer live.
abbrev Aged : List PairingRequest → List PairingRequest → Type 0
Aged [] [] = Unit
Aged (x ∷ xs) (y ∷ ys) =
    (x.code ≡ y.code)
    × ((ch : Text) (u : ℕ) → is_live_in u ch x ≡ true → is_live_in u ch y ≡ true)
    × Aged xs ys
Aged _ _ = ⊥

Aged-refl : (rs : List PairingRequest) → Aged rs rs
Aged-refl [] = tt
Aged-refl (r ∷ rs) = (refl, (λ ch u h. h), Aged-refl rs)

Aged-map : (now : ℕ) (rs : List PairingRequest) → Aged (map (mark_expired now) rs) rs
Aged-map now [] = tt
Aged-map now (r ∷ rs) = (ground arith, (λ ch u h. ground arith), Aged-map now rs)

Aged-approve_first :
    (now : ℕ) (code : Text) (rs : List PairingRequest) → Aged (approve_first now code rs) rs
unfolding approve_first
Aged-approve_first now code [] = tt
Aged-approve_first now code (r ∷ rs) = elim (Bool-cases (has_code now code r)) [
  | inl e ↦ rw e (refl, (λ ch u h. ground arith), Aged-refl rs)
  | inr e ↦ rw e (refl, (λ ch u h. h), Aged-approve_first now code rs)
]

count_if-Aged :
    (ch : Text) (u : ℕ) (xs ys : List PairingRequest)
    → Aged xs ys
    → count_if (is_live_in u ch) xs ≤ count_if (is_live_in u ch) ys
unfolding count_if
count_if-Aged ch u [] [] h = omega arith
count_if-Aged ch u [] (y ∷ ys) h = elim h [ ]
count_if-Aged ch u (x ∷ xs) [] h = elim h [ ]
count_if-Aged ch u (x ∷ xs) (y ∷ ys) (c, h, a) = ground (arith, h ch u, count_if-Aged ch u xs ys a)

-- A property of codes is kept.
All-Aged :
    (P : Text → Type 0) (xs ys : List PairingRequest)
    → Aged xs ys
    → All (λ r. P r.code) ys
    → All (λ r. P r.code) xs
All-Aged P [] [] h a = tt
All-Aged P [] (y ∷ ys) h a = elim h [ ]
All-Aged P (x ∷ xs) [] h a = elim h [ ]
All-Aged P (x ∷ xs) (y ∷ ys) (c, _, h) (p, a) = (rw c p, All-Aged P xs ys h a)

HasDistinctCodes-Aged :
    (xs ys : List PairingRequest) → Aged xs ys → HasDistinctCodes ys → HasDistinctCodes xs
HasDistinctCodes-Aged [] [] h a = tt
HasDistinctCodes-Aged [] (y ∷ ys) h a = elim h [ ]
HasDistinctCodes-Aged (x ∷ xs) [] h a = elim h [ ]
HasDistinctCodes-Aged (x ∷ xs) (y ∷ ys) (c, _, h) (p, a) =
    (rw c (All-Aged (λ k. k ≢ y.code) xs ys h p), HasDistinctCodes-Aged xs ys h a)

IsSound-Aged : (t : ℕ) (xs ys : List PairingRequest) → Aged xs ys → IsSound t ys → IsSound t xs
IsSound-Aged t xs ys a s = record {
  limited = λ ch u h. omega (arith, count_if-Aged ch u xs ys a, s.limited ch u h);
  distinct = HasDistinctCodes-Aged xs ys a s.distinct;
  coded = All-Aged IsCode xs ys a s.coded;
}

IsSound-later : {t u : ℕ} {rs : List PairingRequest} → t ≤ u → IsSound t rs → IsSound u rs
IsSound-later {t} {u} h s = record {
  limited = λ ch v k. s.limited ch v (omega arith);
  distinct = s.distinct;
  coded = s.coded;
}

draw_code-fresh :
    (left : ℕ) (rand : ℕ → ℕ) (k : ℕ) (rs : List PairingRequest) (code : Text)
    → draw_code left rand k rs ≡ some code
    → (any (λ r. text_eq r.code code) rs ≡ false) × ((j : ℕ) × (code ≡ generate_code rand j))
unfolding draw_code
draw_code-fresh zero rand k rs code h = cc
draw_code-fresh (suc left) rand k rs code h =
    elim (Bool-cases (any (λ r. text_eq r.code (generate_code rand k)) rs)) [
      | inl taken ↦ draw_code-fresh left rand (k + code_length) rs code (rw taken at h)
      | inr fresh ↦
          let same : generate_code rand k ≡ code = ground arith in
          (rw (← same) fresh, (k, sym same))
    ]

any-All :
    (code : Text) (rs : List PairingRequest)
    → any (λ r. text_eq r.code code) rs ≡ false
    → All (λ r. r.code ≢ code) rs
unfolding any
any-All code [] h = tt
any-All code (r ∷ rs) h =
    (λ e. ground (arith, text_eq_iff r.code code), any-All code rs (ground arith))

pub expire-IsSound :
    (t now : ℕ) (s : PairingStore)
    → IsSound t s.requests
    → IsSound t (expire_stale_in_memory now s).0.requests
unfolding expire_stale_in_memory
expire-IsSound t now s h =
    let marked = IsSound-Aged t _ s.requests (Aged-map now s.requests) h in
    elim (Bool-cases (ltb 0 (count_if (is_stale now) s.requests))) [
      | inl e ↦ rw e marked
      | inr e ↦ rw e marked
    ]

add_user-requests :
    (now : ℕ) (ch sd via : Text) (s : PairingStore)
    → (add_user now ch sd via s).requests ≡ s.requests
add_user-requests now ch sd via s = ground arith

approve_in-IsSound :
    (t now : ℕ) (input : Text) (s : PairingStore)
    → IsSound t s.requests
    → IsSound t (approve_in now input s).0.requests
unfolding approve_in
approve_in-IsSound t now input s h =
    let code = normalize_code input in
    let s1 = (expire_stale_in_memory now s).0 in
    found s1 (expire-IsSound t now s h) (find? (has_code now code) s1.requests)
  where
    found :
        (s1 : PairingStore)
        → IsSound t s1.requests
        → (o : Option PairingRequest)
        → IsSound t (approve_found now (normalize_code input) s1 o).0.requests
    found s1 h1 none = h1
    found s1 h1 (some r) =
        let code = normalize_code input in
        rw (add_user-requests now r.channel_id r.sender_id (codes "pairing") _)
          (IsSound-Aged t _ s1.requests (Aged-approve_first now code s1.requests) h1)

module _ (now : ℕ) (rand : ℕ → ℕ) (range : (k : ℕ) → rand k < 32) (ch sd : Text)
    (name : Option Text) where
  IsLimited-insert :
      (s : PairingStore)
      → IsSound now s.requests
      → ltb (count_if (is_live_in now ch) s.requests) 3 ≡ true
      → (code : Text) → IsLimited now (new_request now ch sd name code ∷ s.requests)
  IsLimited-insert s h few code c u k =
      let r = new_request now ch sd name code in
      elim (Bool-cases (text_eq ch c)) [
        | inl same ↦
            let same_ch : ch ≡ c = (text_eq_iff ch c).0 same in
            let fewer : count_if (is_live_in u ch) s.requests
                ≤ count_if (is_live_in now ch) s.requests =
              count_if_mono (is_live_in u ch) (is_live_in now ch) (λ r t. ground arith)
                s.requests in
            rw (← same_ch) (
              omega (
                arith,
                fewer,
                count_if-cons-le (is_live_in u ch) r s.requests,
                ltb→lt (count_if (is_live_in now ch) s.requests) 3 few,
              ))
        | inr other ↦
            omega (
              arith,
              count_if-cons_not (is_live_in u c) r s.requests (ground arith),
              h.limited c u k,
            )
      ]

  IsSound-insert :
      (s : PairingStore)
      → IsSound now s.requests
      → ltb (count_if (is_live_in now ch) s.requests) 3 ≡ true
      → (code : Text) → draw_code 100 rand 0 s.requests ≡ some code
      → IsSound now (new_request now ch sd name code ∷ s.requests)
  IsSound-insert s h few code drawn =
      let (fresh, (j, e)) = draw_code-fresh 100 rand 0 s.requests code drawn in
      record {
        limited = IsLimited-insert s h few code;
        distinct = (any-All code s.requests fresh, h.distinct);
        coded = (rw e (generate_code-IsCode rand j range), h.coded);
      }

  pub create_in-IsSound :
      (s : PairingStore)
      → IsSound now s.requests
      → IsSound now (create_in now rand ch sd name s).0.requests
  unfolding create_in expire_stale_in_memory
  create_in-IsSound s h =
      let s1 = (expire_stale_in_memory now s).0 in
      reuse s1 (expire-IsSound now now s h) (find? (is_live_of now ch sd) s1.requests)
    where
      insert :
          (s1 : PairingStore)
          → IsSound now s1.requests
          → ltb (count_if (is_live_in now ch) s1.requests) 3 ≡ true
          → (o : Option Text) → draw_code 100 rand 0 s1.requests ≡ o
          → IsSound now (insert_request now rand ch sd name s1 o).0.requests
      insert s1 h1 few none e = h1
      insert s1 h1 few (some code) e = IsSound-insert s1 h1 few code e

      reuse :
          (s1 : PairingStore)
          → IsSound now s1.requests
          → (o : Option PairingRequest)
          → IsSound now (reuse_or_insert now rand ch sd name s1 o).0.requests
      reuse s1 h1 (some r) = h1
      reuse s1 h1 none = elim (Bool-cases (leb 3 (count_if (is_live_in now ch) s1.requests))) [
        | inl e ↦ rw e h1
        | inr e ↦ rw e (insert s1 h1 (ground arith) (draw_code 100 rand 0 s1.requests) refl)
      ]

-- Each reading of `randomInt(32)` lies below 32.
abbrev pub HasRange : Call → Type 0
HasRange (create _ _ rand _ _ _) = (k : ℕ) → rand k < 32
HasRange _ = Unit

requests-IsSound :
    (s : PairingStore) (c : Call)
    → HasRange c
    → IsSynced s
    → IsSound (time_of c) s.disk_requests
    → IsSound (time_of c) (perform s c).requests
unfolding perform
requests-IsSound s (create true now rand ch sd name) range y h =
    create_in-IsSound now rand range ch sd name (refresh_from_disk s) h
requests-IsSound s (create false now rand ch sd name) range y h = rw (← y.requests) h
requests-IsSound s (approve true now input) range y h =
    approve_in-IsSound now now input (refresh_from_disk s) h
requests-IsSound s (approve false now input) range y h = rw (← y.requests) h
requests-IsSound s (expire true now) range y h = expire-IsSound now now (refresh_from_disk s) h
requests-IsSound s (expire false now) range y h = rw (← y.requests) h
requests-IsSound s (add_config true now ch sd) range y h =
    rw (add_user-requests now ch sd (codes "config") (refresh_from_disk s)) h
requests-IsSound s (add_config false now ch sd) range y h = rw (← y.requests) h
requests-IsSound s (query_code now code) range y h = h
requests-IsSound s (query_pending now) range y h = h
requests-IsSound s (query_approved now ch sd) range y h = h

-- One call keeps the stored requests sound.
pub perform-IsSound :
    (t : ℕ) (s : PairingStore) (c : Call)
    → HasRange c
    → t ≤ time_of c
    → IsSynced s
    → IsSound t s.disk_requests
    → IsSound (time_of c) (perform s c).disk_requests
perform-IsSound t s c range later y h =
    rw ((perform-IsSynced s c y).requests) (requests-IsSound s c range y (IsSound-later later h))

-- Whatever is called, in the order of the clock: if at the start the fields and the files agree and
-- the stored requests are sound (no channel has more than three live requests now or later, no two
-- requests share a code, each code is eight digits or capitals), then they are sound at the end,
-- provided that each reading of `randomInt` lies below 32.
pub perform_all-IsSound :
    (t : ℕ) (s : PairingStore) (cs : List Call)
    → All HasRange cs
    → InOrder t cs
    → IsSynced s
    → IsSound t s.disk_requests
    → IsSound (last_time t cs) (perform_all s cs).disk_requests
unfolding perform_all
perform_all-IsSound t s [] range order y h = h
perform_all-IsSound t s (c ∷ cs) (r, range) (later, order) y h =
    perform_all-IsSound (time_of c) (perform s c) cs range order (perform-IsSynced s c y)
      (perform-IsSound t s c r later y h)

-- If the fields and the files agree at the start, then they agree after any calls.
pub perform_all-IsSynced :
    (s : PairingStore) (cs : List Call) → IsSynced s → IsSynced (perform_all s cs)
unfolding perform_all
perform_all-IsSynced s [] y = y
perform_all-IsSynced s (c ∷ cs) y = perform_all-IsSynced (perform s c) cs (perform-IsSynced s c y)
