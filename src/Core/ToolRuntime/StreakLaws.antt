-- ===== src/Core/ToolRuntime/StreakLaws.antt =====
-- What the streaks count.
use mathlib.Core.List.{reverse, reverse-append, append_assoc}
use cere_worker.Prelude.{
  ℕ, zero, suc, ◌+◌, ◌<◌, ◌≡◌, ◌≢◌, refl, sym, ap, ◌∙◌, Text, text_eq, text_eq_iff, Option, none,
  some, List, [], ◌∷◌, ◌++◌, if◌then◌else◌, truthy, length, take, slice_last, min, All, arith,
  Bool-cases, inl, inr, length-reverse, reverse-slice_last, All-append, Option-cases,
}
use cere_worker.Core.ToolRuntime.Streaks.{
  ToolHistoryEntry, repeat_from, get_repeat_streak, is_poll, no_progress_from,
  get_no_progress_streak,
}

repeat_from-append :
    (sig : Text) (tail rest : List ToolHistoryEntry)
    → All (λ e. e.signature ≡ sig) tail
    → repeat_from sig (tail ++ rest) ≡ length tail + repeat_from sig rest
unfolding repeat_from
repeat_from-append sig [] rest h = omega arith
repeat_from-append sig (e ∷ es) rest (p, h) =
    ground (arith, text_eq_iff e.signature sig, repeat_from-append sig es rest h)

repeat_from-ne :
    (sig : Text) (e : ToolHistoryEntry) (rest : List ToolHistoryEntry)
    → e.signature ≢ sig
    → repeat_from sig (e ∷ rest) ≡ 0
unfolding repeat_from
repeat_from-ne sig e rest h = ground (arith, text_eq_iff e.signature sig)

All-reverse :
    (P : ToolHistoryEntry → Type 0) (xs : List ToolHistoryEntry) → All P xs → All P (reverse xs)
All-reverse P [] h = tt
All-reverse P (x ∷ xs) (p, h) =
    rw (reverse-append (x ∷ []) xs)
      (All-append P (reverse xs) (x ∷ []) (All-reverse P xs h) (p, tt))

-- Where an entry of another call is followed by entries of this call alone, the streak is their
-- number.
pub get_repeat_streak_exact :
    (before tail : List ToolHistoryEntry) (e : ToolHistoryEntry) (sig : Text)
    → e.signature ≢ sig
    → All (λ x. x.signature ≡ sig) tail
    → get_repeat_streak (before ++ (e ∷ tail)) sig ≡ length tail
unfolding get_repeat_streak
get_repeat_streak_exact before tail e sig other same =
    rw
      (
        reverse-append before (e ∷ tail),
        reverse-append (e ∷ []) tail,
        append_assoc (reverse tail) (e ∷ []) (reverse before),
        repeat_from-append sig (reverse tail) (e ∷ reverse before)
            (All-reverse (λ x. x.signature ≡ sig) tail same),
        repeat_from-ne sig e (reverse before) other,
      )
      (omega (arith, length-reverse tail))

-- One more call at the end.
pub get_repeat_streak-snoc :
    (history : List ToolHistoryEntry) (e : ToolHistoryEntry) (sig : Text)
    → e.signature ≡ sig
    → get_repeat_streak (history ++ e ∷ []) sig ≡ suc (get_repeat_streak history sig)
unfolding get_repeat_streak
get_repeat_streak-snoc history e sig h =
    rw (reverse-append history (e ∷ []))
      (omega (arith, repeat_from-append sig (e ∷ []) (reverse history) (h, tt)))

repeat_from-take :
    (sig : Text) (n : ℕ) (es : List ToolHistoryEntry)
    → repeat_from sig (take n es) ≡ min n (repeat_from sig es)
unfolding repeat_from
repeat_from-take sig zero es = omega arith
repeat_from-take sig (suc n) [] = omega arith
repeat_from-take sig (suc n) (e ∷ es) = ground (arith, repeat_from-take sig n es)

-- Keeping the last entries alone cuts a streak to their number.
pub get_repeat_streak-slice_last :
    (n : ℕ) (history : List ToolHistoryEntry) (sig : Text)
    → 0 < n
    → get_repeat_streak (slice_last n history) sig ≡ min n (get_repeat_streak history sig)
unfolding get_repeat_streak
get_repeat_streak-slice_last n history sig h =
    ap (repeat_from sig) (reverse-slice_last n history h) ∙ repeat_from-take sig n (reverse history)

-- The result hashes of the entries of a call, with those left out that have none.
pub hashes_of : Text → Text → List ToolHistoryEntry → List Text
hashes_of tool_name args_hash [] = []
hashes_of tool_name args_hash (e ∷ es) =
    let rest = hashes_of tool_name args_hash es in
    if is_poll tool_name args_hash e
    then elim (truthy e.result_hash) [ none ↦ rest | some h ↦ h ∷ rest ]
    else rest

pub run_of : Text → List Text → ℕ
run_of wanted [] = 0
run_of wanted (h ∷ hs) = if text_eq h wanted then suc (run_of wanted hs) else 0

-- How many of the first texts agree with the very first.
pub leading : List Text → ℕ
leading [] = 0
leading (h ∷ hs) = suc (run_of h hs)

truthy-IsFull : (o : Option Text) (h : Text) → truthy o ≡ some h → truthy (some h) ≡ some h
truthy-IsFull none h e = cc
truthy-IsFull (some []) h e = cc
truthy-IsFull (some (c ∷ s)) h e = ground arith

no_progress_from-some :
    (tool_name args_hash wanted : Text) (count : ℕ) (es : List ToolHistoryEntry)
    → truthy (some wanted) ≡ some wanted
    → no_progress_from tool_name args_hash (some wanted) count es
      ≡ count + run_of wanted (hashes_of tool_name args_hash es)
unfolding no_progress_from run_of hashes_of
no_progress_from-some tn ah wanted count [] full = omega arith
no_progress_from-some tn ah wanted count (e ∷ es) full = ground (
  arith,
  no_progress_from-some tn ah wanted count es full,
  no_progress_from-some tn ah wanted (count + 1) es full,
)

one-add : (n : ℕ) → suc n ≡ 1 + n
one-add n = omega arith

no_progress_from-none :
    (tool_name args_hash : Text) (es : List ToolHistoryEntry)
    → no_progress_from tool_name args_hash none 0 es ≡ leading (hashes_of tool_name args_hash es)
unfolding no_progress_from leading hashes_of
no_progress_from-none tn ah [] = refl
no_progress_from-none tn ah (e ∷ es) = elim (Bool-cases (is_poll tn ah e)) [
  | inl poll ↦ elim (Option-cases (truthy e.result_hash)) [
    | inl missing ↦ rw (poll, missing) (no_progress_from-none tn ah es)
    | inr (h, has) ↦
        rw (poll, has)
          (no_progress_from-some tn ah h 1 es (truthy-IsFull e.result_hash h has)
            ∙ sym (one-add (run_of h (hashes_of tn ah es))))
  ]
  | inr other ↦ rw other (no_progress_from-none tn ah es)
]

-- The polling streak: of the entries of this call that have a result hash, taken from the latest
-- back, how many agree with the latest one before the first that does not. Entries of other calls
-- in between do not break it.
pub get_no_progress_streak_exact :
    (history : List ToolHistoryEntry) (tool_name args_hash : Text)
    → get_no_progress_streak history tool_name args_hash
      ≡ leading (hashes_of tool_name args_hash (reverse history))
unfolding get_no_progress_streak
get_no_progress_streak_exact history tool_name args_hash =
    no_progress_from-none tool_name args_hash (reverse history)
