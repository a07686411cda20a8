-- ===== src/Core/Pairing/Tests.antt =====
-- Runs of the pairing store, and its theorems at concrete stores.
use mathlib.Core.List.{Memᴰ}
use cere_worker.Prelude.{
  ℕ, ◌<◌, ◌%◌, ◌≡◌, ◌⊎◌, refl, codes, find?, count_if, true, false, none, some, List, [], ◌∷◌,
  arith,
}
use cere_worker.Core.Pairing.{
  PairingStore, PairingRequest, pending, generate_code, format_code, normalize_code,
  create_pairing_code, approve_code, is_approved, draw_code, Call, create, approve, query_approved,
  perform, perform_all, done, ApprovalResult, is_live,
}
use cere_worker.Core.Pairing.Synced.{IsSynced}
use cere_worker.Core.Pairing.Limit.{IsSound, perform_all-IsSound, perform_all-IsSynced}
use cere_worker.Core.Pairing.Approval.{approve_code_sound, approve_code-create_pairing_code}

abbrev empty : PairingStore
empty = record { disk_requests = []; disk_approved = []; requests = []; approved_users = [] }

abbrev rand : ℕ → ℕ
rand k = k % 32

rand-range : (k : ℕ) → rand k < 32
rand-range k = omega arith

abbrev calls : List Call
calls =
    create true 5 rand (codes "irc") (codes "ann") none
    ∷ create false 6 rand (codes "irc") (codes "bob") none
    ∷ approve true 7 (codes "2345 67-89")
    ∷ query_approved 8 (codes "irc") (codes "ann")
    ∷ []

empty-IsSound : IsSound 0 empty.disk_requests
unfolding count_if
empty-IsSound = record { limited = λ ch u h. omega arith; distinct = tt; coded = tt }

first_code :
    (create_pairing_code 5 rand (codes "irc") (codes "ann") none true empty).1
    ≡ done (some (codes "2345-6789"))
unfolding create_pairing_code generate_code format_code find? draw_code
first_code = refl

let_in : (is_approved (codes "irc") (codes "ann") (perform_all empty calls)).1 ≡ true
unfolding is_approved perform_all perform draw_code
let_in = refl

lower_case : normalize_code (codes "abcd-efgh ") ≡ codes "ABCDEFGH"
unfolding normalize_code
lower_case = refl

perform_all-IsSound_example : IsSound 8 (perform_all empty calls).disk_requests
perform_all-IsSound_example =
    perform_all-IsSound 0 empty calls (rand-range, (rand-range, (tt, (tt, tt)))) (omega arith)
      (record { requests = refl; approved = refl }) empty-IsSound

perform_all-IsSynced_example : IsSynced (perform_all empty calls)
perform_all-IsSynced_example =
    perform_all-IsSynced empty calls (record { requests = refl; approved = refl })

approve_code-create_pairing_code_example :
    let (s1, _) = create_pairing_code 5 rand (codes "irc") (codes "ann") none true empty in
    let (s2, outcome) = approve_code true 5 (codes "2345-6789") s1 in
    (result : ApprovalResult) × (outcome ≡ done result)
    × (result.ok ≡ true)
    × (result.channel_id ≡ some (codes "irc"))
    × (result.sender_id ≡ some (codes "ann"))
    × ((is_approved (codes "irc") (codes "ann") s2).1 ≡ true)
approve_code-create_pairing_code_example =
    approve_code-create_pairing_code 5 rand rand-range (codes "irc") (codes "ann") none empty
      (codes "2345-6789")
      (record {
        limited = λ ch u h. empty-IsSound.limited ch u (omega arith);
        distinct = tt;
        coded = tt;
      })
      first_code

abbrev waiting : PairingRequest
waiting = record {
  code = codes "ABCDEFGH";
  channel_id = codes "irc";
  sender_id = codes "ann";
  sender_name = none;
  created_at = 1;
  expires_at = 9;
  status = pending;
}

abbrev one_waiting : PairingStore
one_waiting = record {
  disk_requests = waiting ∷ [];
  disk_approved = [];
  requests = [];
  approved_users = [];
}

ann_approved :
    (is_approved
      (codes "irc")
      (codes "ann")
      (approve_code true 4 (codes "abcd-efgh") one_waiting).0).1
    ≡ true
unfolding is_approved approve_code
ann_approved = refl

approve_code_sound_example :
    ((is_approved (codes "irc") (codes "ann") one_waiting).1 ≡ true)
    ⊎ ((r : PairingRequest) × Memᴰ r one_waiting.disk_requests
        × (r.code ≡ normalize_code (codes "abcd-efgh"))
        × (is_live 4 r ≡ true)
        × (r.channel_id ≡ codes "irc")
        × (r.sender_id ≡ codes "ann"))
approve_code_sound_example =
    approve_code_sound true 4 (codes "abcd-efgh") (codes "irc") (codes "ann") one_waiting
      ann_approved
