-- ===== src/Core/Pairing.antt =====
-- packages/core/src/pairing.ts: pairing codes by which a sender of a channel is let in.
-- `PairingStore` holds the two files of the store, `disk_requests` and `disk_approved`, beside the
-- fields of the class that are read from them. An operation gets one reading `now` of the clock,
-- and `acquired`, whether `withTextStoreLock` got the lock; `rand k` is reading k of `randomInt`.
pub mod Codes
pub mod Synced
pub mod Limit
pub mod Approval
mod Tests
use cere_worker.Prelude.{
  ℕ, zero, suc, ◌+◌, ◌-◌, ◌*◌, ◌≤◌, ◌<◌, Text, codes, text_eq, is_space, leb, ltb, ◌==◌,
  if◌then◌else◌, Bool, true, false, not, ◌&&◌, ◌||◌, Option, none, some, List, [], ◌∷◌, ◌++◌, map,
  length, take, drop, get_elem?, filter, any, find?, count_if,
}

abbrev pub code_alphabet : Text
code_alphabet = codes "23456789ABCDEFGHJKLMNPQRSTUVWXYZ"

abbrev pub code_length : ℕ
code_length = 8

abbrev pub code_ttl_ms : ℕ
code_ttl_ms = 60 * 60 * 1000

abbrev pub max_pending_per_channel : ℕ
max_pending_per_channel = 3

pub data RequestStatus : Type 0 where
  pending approved expired : RequestStatus

abbrev pub is_pending : RequestStatus → Bool
is_pending pending = true
is_pending _ = false

pub record PairingRequest : Type 0 where
  pub code : Text
  pub channel_id : Text
  pub sender_id : Text
  pub sender_name : Option Text
  pub created_at : ℕ
  pub expires_at : ℕ
  pub status : RequestStatus

pub record ApprovedUser : Type 0 where
  pub channel_id : Text
  pub sender_id : Text
  pub approved_at : ℕ
  pub approved_via : Option Text

pub record ApprovalResult : Type 0 where
  pub ok : Bool
  pub channel_id : Option Text
  pub sender_id : Option Text
  pub sender_name : Option (Option Text)
  pub error : Option Text

pub record PairingStore : Type 0 where
  pub disk_requests : List PairingRequest
  pub disk_approved : List ApprovedUser
  pub requests : List PairingRequest
  pub approved_users : List ApprovedUser

-- `CODE_ALPHABET[i]` as it is appended to a string.
abbrev alphabet_at : ℕ → Text
alphabet_at i = elim (get_elem? code_alphabet i) [ none ↦ codes "undefined" | some c ↦ c ∷ [] ]

-- `left` rounds of the loop of `generateCode`, from reading `k` on.
unfoldable pub generate_from : (ℕ → ℕ) → ℕ → ℕ → Text
generate_from rand zero k = []
generate_from rand (suc left) k = alphabet_at (rand k) ++ generate_from rand left (suc k)

-- The code of the call that begins at reading `k`.
unfoldable pub generate_code : (ℕ → ℕ) → ℕ → Text
unfolding generate_from
generate_code rand k = generate_from rand code_length k

unfoldable pub format_code : Text → Text
format_code code = take 4 code ++ b'-' ∷ drop 4 code

-- `toUpperCase` of one unit. Of the letters beyond ASCII it has those whose capitals are ASCII; any
-- other is kept: neither it nor its capital stands in the alphabet of the codes.
unfoldable pub upper : ℕ → Text
upper c =
    if leb b'a' c && leb c b'z'
    then (c - 32) ∷ []
    else if c == 0x131
    then codes "I"
    else if c == 0x17f || c == 0xdf || c == 0xfb05 || c == 0xfb06
    then (if c == 0x17f then codes "S" else if c == 0xdf then codes "SS" else codes "ST")
    else if leb 0xfb00 c && leb c 0xfb04
    then (if c == 0xfb00
        then codes "FF"
        else if c == 0xfb01
        then codes "FI"
        else if c == 0xfb02
        then codes "FL"
        else if c == 0xfb03
        then codes "FFI"
        else codes "FFL")
    else c ∷ []

unfoldable pub to_upper : Text → Text
unfolding upper
to_upper [] = []
to_upper (c ∷ s) = upper c ++ to_upper s

unfoldable pub normalize_code : Text → Text
unfolding filter to_upper
normalize_code input = to_upper (filter (λ c. not (c == b'-' || is_space c)) input)

abbrev pub refresh_from_disk : PairingStore → PairingStore
refresh_from_disk s = record s { requests = s.disk_requests; approved_users = s.disk_approved }

abbrev pub persist_requests : PairingStore → PairingStore
persist_requests s = record s { disk_requests = s.requests }

abbrev pub persist_approved_users : PairingStore → PairingStore
persist_approved_users s = record s { disk_approved = s.approved_users }

-- `withMutation`: where the lock is not got, `withTextStoreLock` throws before the callback.
pub data Outcome (A : Type 0) : Type 0 where
  done : A → Outcome A
  busy : Outcome A

unfoldable pub with_mutation :
    {A : Type 0}
    → Bool
    → (PairingStore → PairingStore × A)
    → PairingStore
    → PairingStore × Outcome A
with_mutation acquired fn s =
    if acquired then (let (s', a) = fn (refresh_from_disk s) in (s', done a)) else (s, busy)

abbrev pub is_stale : ℕ → PairingRequest → Bool
is_stale now r = is_pending r.status && leb r.expires_at now

abbrev pub mark_expired : ℕ → PairingRequest → PairingRequest
mark_expired now r = if is_stale now r then record r { status = expired } else r

unfoldable pub expire_stale_in_memory : ℕ → PairingStore → PairingStore × ℕ
unfolding count_if
expire_stale_in_memory now s =
    let changed = count_if (is_stale now) s.requests in
    let marked = record s { requests = map (mark_expired now) s.requests } in
    (if ltb 0 changed then persist_requests marked else marked, changed)

abbrev pub is_live : ℕ → PairingRequest → Bool
is_live now r = is_pending r.status && ltb now r.expires_at

abbrev pub is_live_in : ℕ → Text → PairingRequest → Bool
is_live_in now channel_id r = text_eq r.channel_id channel_id && is_live now r

abbrev pub is_live_of : ℕ → Text → Text → PairingRequest → Bool
is_live_of now channel_id sender_id r =
    text_eq r.channel_id channel_id && text_eq r.sender_id sender_id && is_live now r

abbrev pub has_code : ℕ → Text → PairingRequest → Bool
has_code now code r = text_eq r.code code && is_live now r

-- The `do … while` loop: `left` is 100 less the attempts made, and `k` the next reading. A code that
-- is drawn when `attempts` passes 100 is given up.
unfoldable pub draw_code : ℕ → (ℕ → ℕ) → ℕ → List PairingRequest → Option Text
unfolding generate_code any text_eq
draw_code zero rand k rs = none
draw_code (suc left) rand k rs =
    let code = generate_code rand k in
    let again = draw_code left rand (k + code_length) rs in
    if any (λ r. text_eq r.code code) rs then again else some code

abbrev pub new_request : ℕ → Text → Text → Option Text → Text → PairingRequest
new_request now channel_id sender_id sender_name code = record {
  code = code;
  channel_id = channel_id;
  sender_id = sender_id;
  sender_name = sender_name;
  created_at = now;
  expires_at = now + code_ttl_ms;
  status = pending;
}

module _ (now : ℕ) (rand : ℕ → ℕ) (channel_id sender_id : Text) (sender_name : Option Text) where
  abbrev pub insert_request : PairingStore → Option Text → PairingStore × Option Text
  insert_request s none = (s, none)
  insert_request s (some code) = (
    persist_requests (record s {
      requests = new_request now channel_id sender_id sender_name code ∷ s.requests;
    }),
    some (format_code code),
  )

  abbrev pub reuse_or_insert : PairingStore → Option PairingRequest → PairingStore × Option Text
  reuse_or_insert s (some existing) = (s, some (format_code existing.code))
  reuse_or_insert s none =
      if leb max_pending_per_channel (count_if (is_live_in now channel_id) s.requests)
      then (s, none)
      else insert_request s (draw_code 100 rand 0 s.requests)

  unfoldable pub create_in : PairingStore → PairingStore × Option Text
  unfolding expire_stale_in_memory
  create_in s =
      let s1 = (expire_stale_in_memory now s).0 in
      reuse_or_insert s1 (find? (is_live_of now channel_id sender_id) s1.requests)

  unfoldable pub create_pairing_code : Bool → PairingStore → PairingStore × Outcome (Option Text)
  unfolding with_mutation create_in
  create_pairing_code acquired s = with_mutation acquired create_in s

unfoldable pub get_pending_by_code : ℕ → Text → PairingStore → PairingStore × Option PairingRequest
unfolding find? text_eq normalize_code
get_pending_by_code now code s =
    let s1 = refresh_from_disk s in (s1, find? (has_code now (normalize_code code)) s1.requests)

-- `sort((a, b) => b.createdAt - a.createdAt)` is stable: an entry goes behind its equals.
unfoldable pub insert_by_created : PairingRequest → List PairingRequest → List PairingRequest
insert_by_created r [] = r ∷ []
insert_by_created r (x ∷ xs) =
    if ltb x.created_at r.created_at then r ∷ x ∷ xs else x ∷ insert_by_created r xs

unfoldable pub sort_from : List PairingRequest → List PairingRequest → List PairingRequest
unfolding insert_by_created
sort_from sorted [] = sorted
sort_from sorted (r ∷ rs) = sort_from (insert_by_created r sorted) rs

unfoldable pub list_pending : ℕ → PairingStore → PairingStore × List PairingRequest
unfolding filter sort_from
list_pending now s =
    let s1 = refresh_from_disk s in (s1, sort_from [] (filter (is_live now) s1.requests))

abbrev pub is_user : Text → Text → ApprovedUser → Bool
is_user channel_id sender_id u = text_eq u.channel_id channel_id && text_eq u.sender_id sender_id

-- The first request that `has_code` finds gets the status `approved`; it is shared with the array.
unfoldable pub approve_first : ℕ → Text → List PairingRequest → List PairingRequest
unfolding text_eq
approve_first now code [] = []
approve_first now code (r ∷ rs) =
    if has_code now code r
    then record r { status = approved } ∷ rs
    else r ∷ approve_first now code rs

abbrev pub add_user : ℕ → Text → Text → Text → PairingStore → PairingStore
add_user now channel_id sender_id via s =
    if any (is_user channel_id sender_id) s.approved_users
    then s
    else persist_approved_users (record s {
      approved_users =
          s.approved_users
          ++ record {
            channel_id = channel_id;
            sender_id = sender_id;
            approved_at = now;
            approved_via = some via;
          }
            ∷ [];
    })

abbrev pub not_found : ApprovalResult
not_found = record {
  ok = false;
  channel_id = none;
  sender_id = none;
  sender_name = none;
  error = some (codes "Code not found or expired");
}

abbrev pub approve_found :
    ℕ → Text → PairingStore → Option PairingRequest → PairingStore × ApprovalResult
approve_found now code s none = (s, not_found)
approve_found now code s (some r) =
    let s1 = persist_requests (record s { requests = approve_first now code s.requests }) in
    (
      add_user now r.channel_id r.sender_id (codes "pairing") s1,
      record {
        ok = true;
        channel_id = some r.channel_id;
        sender_id = some r.sender_id;
        sender_name = some r.sender_name;
        error = none;
      },
    )

unfoldable pub approve_in : ℕ → Text → PairingStore → PairingStore × ApprovalResult
unfolding expire_stale_in_memory normalize_code find? text_eq approve_first any
approve_in now input s =
    let code = normalize_code input in
    let s1 = (expire_stale_in_memory now s).0 in
    approve_found now code s1 (find? (has_code now code) s1.requests)

unfoldable pub approve_code : Bool → ℕ → Text → PairingStore → PairingStore × Outcome ApprovalResult
unfolding with_mutation approve_in
approve_code acquired now input s = with_mutation acquired (approve_in now input) s

unfoldable pub is_approved : Text → Text → PairingStore → PairingStore × Bool
unfolding any text_eq
is_approved channel_id sender_id s =
    let s1 = refresh_from_disk s in (s1, any (is_user channel_id sender_id) s1.approved_users)

unfoldable pub expire_stale : Bool → ℕ → PairingStore → PairingStore × Outcome ℕ
unfolding with_mutation expire_stale_in_memory
expire_stale acquired now s = with_mutation acquired (expire_stale_in_memory now) s

unfoldable pub add_config_user :
    Bool → ℕ → Text → Text → PairingStore → PairingStore × Outcome (Unit {0})
unfolding with_mutation any text_eq
add_config_user acquired now channel_id sender_id s =
    with_mutation acquired (λ s1. (add_user now channel_id sender_id (codes "config") s1, tt)) s

-- The calls of the store's methods, as an environment makes them.
pub data Call : Type 0 where
  create : Bool → ℕ → (ℕ → ℕ) → Text → Text → Option Text → Call
  approve : Bool → ℕ → Text → Call
  expire : Bool → ℕ → Call
  add_config : Bool → ℕ → Text → Text → Call
  query_code : ℕ → Text → Call
  query_pending : ℕ → Call
  query_approved : ℕ → Text → Text → Call

abbrev pub time_of : Call → ℕ
time_of (create _ now _ _ _ _) = now
time_of (approve _ now _) = now
time_of (expire _ now) = now
time_of (add_config _ now _ _) = now
time_of (query_code now _) = now
time_of (query_pending now) = now
time_of (query_approved now _ _) = now

unfoldable pub perform : PairingStore → Call → PairingStore
unfolding create_pairing_code approve_code expire_stale add_config_user get_pending_by_code
    list_pending is_approved
perform s (create acquired now rand ch sd name) =
    (create_pairing_code now rand ch sd name acquired s).0
perform s (approve acquired now input) = (approve_code acquired now input s).0
perform s (expire acquired now) = (expire_stale acquired now s).0
perform s (add_config acquired now ch sd) = (add_config_user acquired now ch sd s).0
perform s (query_code now code) = (get_pending_by_code now code s).0
perform s (query_pending now) = (list_pending now s).0
perform s (query_approved now ch sd) = (is_approved ch sd s).0

unfoldable pub perform_all : PairingStore → List Call → PairingStore
perform_all s [] = s
perform_all s (c ∷ cs) = perform_all (perform s c) cs

-- The clock does not go back between one call and the next.
abbrev pub InOrder : ℕ → List Call → Type 0
InOrder t [] = Unit
InOrder t (c ∷ cs) = (t ≤ time_of c) × InOrder (time_of c) cs

abbrev pub last_time : ℕ → List Call → ℕ
last_time t [] = t
last_time t (c ∷ cs) = last_time (time_of c) cs
