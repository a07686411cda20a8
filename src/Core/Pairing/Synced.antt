-- ===== src/Core/Pairing/Synced.antt =====
-- Every call leaves the fields of the class equal to the files, and depends on the files alone.
use cere_worker.Prelude.{
  ℕ, ◌≡◌, refl, Text, true, false, Option, none, some, List, [], ◌∷◌, map, find?, count_if, arith,
  leb, codes, Bool-cases, inl, inr,
}
use cere_worker.Core.Pairing.{
  PairingStore, PairingRequest, is_stale, is_live_in, is_live_of, has_code, normalize_code,
  mark_expired, refresh_from_disk, expire_stale_in_memory, create_in, reuse_or_insert,
  insert_request, draw_code, approve_in, add_user, approve_found, Call, create, approve, expire,
  add_config, query_code, query_pending, query_approved, perform,
}

pub record IsSynced (s : PairingStore) : Type 0 where
  pub requests : s.disk_requests ≡ s.requests
  pub approved : s.disk_approved ≡ s.approved_users

map-mark_expired :
    (now : ℕ) (rs : List PairingRequest)
    → count_if (is_stale now) rs ≡ 0
    → map (mark_expired now) rs ≡ rs
unfolding count_if
map-mark_expired now [] h = refl
map-mark_expired now (r ∷ rs) h = ground (arith, map-mark_expired now rs)

pub expire-IsSynced :
    (now : ℕ) (s : PairingStore) → IsSynced s → IsSynced (expire_stale_in_memory now s).0
unfolding expire_stale_in_memory
expire-IsSynced now s h = ground (arith, map-mark_expired now s.requests)

add_user-IsSynced :
    (now : ℕ) (ch sd via : Text) (s : PairingStore)
    → IsSynced s
    → IsSynced (add_user now ch sd via s)
add_user-IsSynced now ch sd via s h = ground arith

pub create_in-IsSynced :
    (now : ℕ) (rand : ℕ → ℕ) (ch sd : Text) (name : Option Text) (s : PairingStore)
    → IsSynced s
    → IsSynced (create_in now rand ch sd name s).0
unfolding create_in
create_in-IsSynced now rand ch sd name s h =
    let s1 = (expire_stale_in_memory now s).0 in
    let h1 : IsSynced s1 = expire-IsSynced now s h in
    reuse s1 h1 (find? (is_live_of now ch sd) s1.requests)
  where
    insert :
        (s1 : PairingStore)
        → IsSynced s1
        → (o : Option Text) → IsSynced (insert_request now rand ch sd name s1 o).0
    insert s1 h1 none = h1
    insert s1 h1 (some code) = record { requests = refl; approved = h1.approved }

    reuse :
        (s1 : PairingStore)
        → IsSynced s1
        → (o : Option PairingRequest) → IsSynced (reuse_or_insert now rand ch sd name s1 o).0
    reuse s1 h1 (some r) = h1
    reuse s1 h1 none = elim (Bool-cases (leb 3 (count_if (is_live_in now ch) s1.requests))) [
      | inl e ↦ rw e h1
      | inr e ↦ rw e (insert s1 h1 (draw_code 100 rand 0 s1.requests))
    ]

pub approve_in-IsSynced :
    (now : ℕ) (input : Text) (s : PairingStore) → IsSynced s → IsSynced (approve_in now input s).0
unfolding approve_in
approve_in-IsSynced now input s h =
    let s1 = (expire_stale_in_memory now s).0 in
    found s1 (expire-IsSynced now s h) (find? (has_code now (normalize_code input)) s1.requests)
  where
    found :
        (s1 : PairingStore)
        → IsSynced s1
        → (o : Option PairingRequest) → IsSynced (approve_found now (normalize_code input) s1 o).0
    found s1 h1 none = h1
    found s1 h1 (some r) =
        add_user-IsSynced now r.channel_id r.sender_id (codes "pairing") _
          (record { requests = refl; approved = h1.approved })

-- Where the fields and the files agree before a call, they agree after it, whatever the call does.
pub perform-IsSynced : (s : PairingStore) (c : Call) → IsSynced s → IsSynced (perform s c)
unfolding perform
perform-IsSynced s (create true now rand ch sd name) h =
    create_in-IsSynced now rand ch sd name (refresh_from_disk s)
      (record { requests = refl; approved = refl })
perform-IsSynced s (create false now rand ch sd name) h = h
perform-IsSynced s (approve true now input) h =
    approve_in-IsSynced now input (refresh_from_disk s)
      (record { requests = refl; approved = refl })
perform-IsSynced s (approve false now input) h = h
perform-IsSynced s (expire true now) h =
    expire-IsSynced now (refresh_from_disk s) (record { requests = refl; approved = refl })
perform-IsSynced s (expire false now) h = h
perform-IsSynced s (add_config true now ch sd) h =
    add_user-IsSynced now ch sd (codes "config") (refresh_from_disk s)
      (record { requests = refl; approved = refl })
perform-IsSynced s (add_config false now ch sd) h = h
perform-IsSynced s (query_code now code) h = record { requests = refl; approved = refl }
perform-IsSynced s (query_pending now) h = record { requests = refl; approved = refl }
perform-IsSynced s (query_approved now ch sd) h = record { requests = refl; approved = refl }
