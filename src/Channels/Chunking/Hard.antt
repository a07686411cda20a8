-- ===== src/Channels/Chunking/Hard.antt =====
-- packages/channels/src/chunking.ts: `hardSplit`.
use cere_worker.Prelude.{
  ℕ, zero, suc, ◌≤◌, ◌<◌, Text, List, [], ◌∷◌, ◌++◌, ◌≡◌, refl, ap, ◌∙◌, All, length, take, drop,
  length-take, length-drop, take-append-drop, arith,
}
use cere_worker.Channels.Chunking.{hard_split, hard_split_from}

-- The pieces joined again.
unfoldable pub concat : List Text → Text
concat [] = []
concat (s ∷ rest) = s ++ concat rest

-- A piece of a hard split holds at least one code unit and no more than the limit.
abbrev pub Fits : ℕ → Text → Type 0
Fits limit s = (0 < length s) × (length s ≤ limit)

hard_split_from-concat :
    (fuel : ℕ) (text : Text) (limit : ℕ)
    → 0 < limit
    → length text ≤ fuel
    → (concat (hard_split_from fuel text limit) ≡ text)
      × All (Fits limit) (hard_split_from fuel text limit)
unfolding hard_split_from concat
hard_split_from-concat zero [] limit positive enough = (refl, tt)
hard_split_from-concat zero (c ∷ s) limit positive enough = absurd (omega arith)
hard_split_from-concat (suc fuel) [] limit positive enough = (refl, tt)
hard_split_from-concat (suc fuel) (c ∷ s) limit positive enough =
    let shorter = length-drop limit (c ∷ s) in
    let rest = hard_split_from-concat fuel (drop limit (c ∷ s)) limit positive (omega arith) in
    let cut = length-take limit (c ∷ s) in
    (
      ap (λ r. take limit (c ∷ s) ++ r) rest.0 ∙ take-append-drop limit (c ∷ s),
      ((omega arith, omega arith), rest.1),
    )

-- With a positive limit, the pieces of a hard split, joined, are the text, and each of them holds
-- at least one code unit and at most `limit`.
pub hard_split-concat :
    (text : Text) (limit : ℕ)
    → 0 < limit
    → (concat (hard_split text limit) ≡ text) × All (Fits limit) (hard_split text limit)
unfolding hard_split
hard_split-concat text limit positive =
    hard_split_from-concat (length text) text limit positive (omega arith)
