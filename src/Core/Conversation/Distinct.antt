-- ===== src/Core/Conversation/Distinct.antt =====
-- packages/core/src/conversation.ts: the names of the journals that are retained are different.
use cere_worker.Prelude.{
  ℕ, text_eq, ltb, Bool, true, false, List, [], ◌∷◌, ◌≡◌, refl, filter, any, arith, Bool-cases, inl,
  inr, any-filter,
}
use cere_worker.Core.Conversation.Journals.{prune_by_age}
use cere_worker.Core.Conversation.Retention.{distinct_names, File}

module _ {J : Type 0} where
  filter-distinct_names :
      (p : File J → Bool) (files : List (File J))
      → distinct_names files ≡ true
      → distinct_names (filter p files) ≡ true
  unfolding filter distinct_names
  filter-distinct_names p [] h = refl
  filter-distinct_names p ((i, a) ∷ rest) h = elim (Bool-cases (p (i, a))) [
    | inl t ↦
        let fresh : any (λ f. text_eq f.0 i) rest ≡ false = ground (arith, h) in
        let later : distinct_names rest ≡ true = ground (arith, h) in
        rw (t, any-filter (λ f. text_eq f.0 i) p rest fresh, filter-distinct_names p rest later)
          refl
    | inr t ↦ rw t (filter-distinct_names p rest (ground (arith, h)))
  ]

  pub young-distinct_names :
      (now days : ℕ) (files : List (File J))
      → distinct_names files ≡ true
      → distinct_names (prune_by_age now days files) ≡ true
  unfolding prune_by_age
  young-distinct_names now days files h = elim (Bool-cases (ltb 0 days)) [
    | inl t ↦ rw t (filter-distinct_names _ files h)
    | inr t ↦ rw t h
  ]
