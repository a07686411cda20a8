-- ===== src/Core/SubAgents/Attended.antt =====
-- packages/core/src/sub-agent-manager.ts: the agents of the map and the runs that are on their way.
use cere_worker.Prelude.{
  Text, text_eq, text_eq_iff, text_eq_sym, Bool, true, false, not, ◌&&◌, ◌||◌, List, [], ◌∷◌, ◌≡◌,
  refl, filter, any, All, arith, Bool-cases, inl, inr,
}
use cere_worker.Core.SubAgents.{SubAgentInstance, Run, is_active_agent, has_id, put_agent}

abbrev pub of_agent : Text → Run → Bool
of_agent id r = text_eq r.agent_id id

unfoldable pub has_run : Text → List Run → Bool
unfolding any text_eq
has_run id runs = any (of_agent id) runs

-- An agent that is pending or running has a run that is on its way.
abbrev pub is_attended : List Run → SubAgentInstance → Bool
is_attended runs agent = not (is_active_agent agent) || has_run agent.meta.id runs

abbrev pub Attended : List Run → SubAgentInstance → Type 0
Attended runs agent = is_attended runs agent ≡ true

-- The keys of the map are distinct.
unfoldable pub distinct_ids : List SubAgentInstance → Bool
unfolding any text_eq
distinct_ids [] = true
distinct_ids (a ∷ rest) = not (any (has_id a.meta.id) rest) && distinct_ids rest

pub record IsAttended (runs : List Run) (agents : List SubAgentInstance) : Type 0 where
  pub each : All (Attended runs) agents
  pub distinct : distinct_ids agents ≡ true

any-filter :
    (p q : SubAgentInstance → Bool) (xs : List SubAgentInstance)
    → any q xs ≡ false
    → any q (filter p xs) ≡ false
unfolding any filter
any-filter p q [] h = refl
any-filter p q (x ∷ xs) h = ground (arith, h, any-filter p q xs)

any-put_agent :
    (i : Text) (a : SubAgentInstance) (xs : List SubAgentInstance)
    → any (has_id i) (put_agent a xs) ≡ (has_id i a || any (has_id i) xs)
unfolding put_agent any
any-put_agent i a [] = ground arith
any-put_agent i a (x ∷ xs) = elim (Bool-cases (has_id a.meta.id x)) [
  | inl t ↦ let same = (text_eq_iff x.meta.id a.meta.id).0 t in rw (t, same) (ground arith)
  | inr t ↦ rw (t, any-put_agent i a xs) (ground arith)
]

pub distinct_ids-put_agent :
    (a : SubAgentInstance) (xs : List SubAgentInstance)
    → distinct_ids xs ≡ true
    → distinct_ids (put_agent a xs) ≡ true
unfolding put_agent distinct_ids any
distinct_ids-put_agent a [] h = refl
distinct_ids-put_agent a (x ∷ xs) h = elim (Bool-cases (has_id a.meta.id x)) [
  | inl t ↦ let same = (text_eq_iff x.meta.id a.meta.id).0 t in rw (t, ← same) h
  | inr t ↦
      let other : has_id x.meta.id a ≡ false = rw (text_eq_sym a.meta.id x.meta.id) t in
      rw (t, any-put_agent x.meta.id a xs, other) (ground (arith, h, distinct_ids-put_agent a xs))
]

pub distinct_ids-filter :
    (p : SubAgentInstance → Bool) (xs : List SubAgentInstance)
    → distinct_ids xs ≡ true
    → distinct_ids (filter p xs) ≡ true
unfolding distinct_ids filter any
distinct_ids-filter p [] h = refl
distinct_ids-filter p (x ∷ xs) h =
    ground (arith, h, any-filter p (has_id x.meta.id) xs, distinct_ids-filter p xs)

pub All-others :
    {P Q : SubAgentInstance → Type 0} (i : Text) (ys : List SubAgentInstance)
    → ((x : SubAgentInstance) → has_id i x ≡ false → P x → Q x)
    → any (has_id i) ys ≡ false
    → All P ys
    → All Q ys
unfolding any
All-others i [] f none_has ps = tt
All-others i (y ∷ ys) f none_has (p, ps) =
    (f y (ground (arith, none_has)) p, All-others i ys f (ground (arith, none_has)) ps)

-- The rest of the map, where an agent is put in under its key.
pub All-put_agent :
    {P Q : SubAgentInstance → Type 0} (a : SubAgentInstance) (xs : List SubAgentInstance)
    → distinct_ids xs ≡ true
    → ((x : SubAgentInstance) → has_id a.meta.id x ≡ false → P x → Q x)
    → Q a
    → All P xs
    → All Q (put_agent a xs)
unfolding put_agent distinct_ids any
All-put_agent a [] h f q t = (q, tt)
All-put_agent a (x ∷ xs) h f q (p, ps) = elim (Bool-cases (has_id a.meta.id x)) [
  | inl t ↦
      let same = (text_eq_iff x.meta.id a.meta.id).0 t in
      let others : any (has_id a.meta.id) xs ≡ false = rw (← same) (ground (arith, h)) in
      rw t (q, All-others a.meta.id xs f others ps)
  | inr t ↦ rw t (f x t p, All-put_agent a xs (ground (arith, h)) f q ps)
]
