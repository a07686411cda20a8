-- ===== src/Core/SubAgents/Kept.antt =====
-- packages/core/src/sub-agent-manager.ts: each change of the map and of the runs keeps the agents
-- attended.
use cere_worker.Prelude.{
  text_eq_sym, ℕ, Text, text_eq, text_eq_refl, Bool, true, false, some, List, [], ◌∷◌, ◌++◌, ◌≡◌,
  refl, map, filter, any, any-append, any-one, find?, All, All-filter, All-imp, arith, Bool-cases,
  inl, inr,
}
use cere_worker.Core.SubAgents.{
  SubAgentInstance, Run, is_active_agent, has_id, put_agent, update_agent,
}
use cere_worker.Core.SubAgents.Runs.{of_controller, remove_run}
use cere_worker.Core.SubAgents.Limits.{put_agent-put_agent}
use cere_worker.Core.SubAgents.Attended.{
  of_agent, has_run, Attended, IsAttended, distinct_ids, distinct_ids-put_agent,
  distinct_ids-filter, All-put_agent, All-others,
}

-- More runs attend no fewer agents.
grow :
    (runs : List Run) (r : Run) (x : SubAgentInstance)
    → Attended runs x
    → Attended (runs ++ r ∷ []) x
unfolding has_run
grow runs r x h = ground (arith, h, any-append (of_agent x.meta.id) runs (r ∷ []))

-- An agent is put in under its key three times, and its run is added.
pub start-IsAttended :
    (a b c : SubAgentInstance) (r : Run) (runs : List Run) (xs : List SubAgentInstance)
    → a.meta.id ≡ b.meta.id
    → b.meta.id ≡ c.meta.id
    → r.agent_id ≡ a.meta.id
    → IsAttended runs xs
    → IsAttended (runs ++ r ∷ []) (put_agent a (put_agent b (put_agent c xs)))
unfolding has_run
start-IsAttended a b c r runs xs ab bc mine h =
    let inner = put_agent-put_agent b c xs bc (text_eq_refl c.meta.id) in
    let outer = put_agent-put_agent a b xs ab (text_eq_refl b.meta.id) in
    let its : text_eq r.agent_id a.meta.id ≡ true = rw mine (text_eq_refl a.meta.id) in
    let runs_of_a : Attended (runs ++ r ∷ []) a =
      ground (
        arith,
        any-append (of_agent a.meta.id) runs (r ∷ []),
        any-one (of_agent a.meta.id) r its,
      ) in
    rw (inner, outer)
      (record {
        each = All-put_agent a xs h.distinct (λ x _ p. grow runs r x p) runs_of_a h.each;
        distinct = distinct_ids-put_agent a xs h.distinct;
      })

has_run-map :
    (f : Run → Run) (i : Text) (runs : List Run)
    → ((r : Run) → (f r).agent_id ≡ r.agent_id)
    → has_run i (map f runs) ≡ has_run i runs
unfolding has_run any
has_run-map f i [] keeps = refl
has_run-map f i (r ∷ runs) keeps = rw (keeps r, has_run-map f i runs keeps) refl

-- A change of the runs that leaves each with its agent.
pub map-IsAttended :
    (f : Run → Run) (runs : List Run) (xs : List SubAgentInstance)
    → ((r : Run) → (f r).agent_id ≡ r.agent_id)
    → IsAttended runs xs
    → IsAttended (map f runs) xs
map-IsAttended f runs xs keeps h = record {
  each = All-imp (λ x p. rw (has_run-map f x.meta.id runs keeps) p) xs h.each;
  distinct = h.distinct;
}

-- An agent that is not active is put in.
pub put_agent-IsAttended :
    (a : SubAgentInstance) (runs : List Run) (xs : List SubAgentInstance)
    → Attended runs a
    → IsAttended runs xs
    → IsAttended runs (put_agent a xs)
put_agent-IsAttended a runs xs idle h = record {
  each = All-put_agent a xs h.distinct (λ x _ p. p) idle h.each;
  distinct = distinct_ids-put_agent a xs h.distinct;
}

-- A change of an agent that keeps its key and whether it is active.
pub record Keeps (change : SubAgentInstance → SubAgentInstance) : Type 0 where
  pub id : (a : SubAgentInstance) → (change a).meta.id ≡ a.meta.id
  pub active : (a : SubAgentInstance) → is_active_agent (change a) ≡ is_active_agent a

any-update_agent :
    (i j : Text) (change : SubAgentInstance → SubAgentInstance) (xs : List SubAgentInstance)
    → Keeps change
    → any (has_id i) (update_agent j change xs) ≡ any (has_id i) xs
unfolding update_agent any
any-update_agent i j change [] keeps = refl
any-update_agent i j change (x ∷ xs) keeps = elim (Bool-cases (has_id j x)) [
  | inl t ↦ rw (t, keeps.id x) refl
  | inr t ↦ rw (t, any-update_agent i j change xs keeps) refl
]

distinct_ids-update_agent :
    (j : Text) (change : SubAgentInstance → SubAgentInstance) (xs : List SubAgentInstance)
    → Keeps change
    → distinct_ids (update_agent j change xs) ≡ distinct_ids xs
unfolding update_agent distinct_ids
distinct_ids-update_agent j change [] keeps = refl
distinct_ids-update_agent j change (x ∷ xs) keeps = elim (Bool-cases (has_id j x)) [
  | inl t ↦ rw (t, keeps.id x) refl
  | inr t ↦
      rw
        (
          t,
          any-update_agent x.meta.id j change xs keeps,
          distinct_ids-update_agent j change xs keeps,
        )
        refl
]

All-update_agent :
    (runs : List Run) (j : Text) (change : SubAgentInstance → SubAgentInstance)
    (xs : List SubAgentInstance)
    → Keeps change
    → All (Attended runs) xs
    → All (Attended runs) (update_agent j change xs)
unfolding update_agent
All-update_agent runs j change [] keeps h = tt
All-update_agent runs j change (x ∷ xs) keeps (p, h) = elim (Bool-cases (has_id j x)) [
  | inl t ↦
      let same : Attended runs (change x) = rw (keeps.id x, keeps.active x) p in rw t (same, h)
  | inr t ↦ rw t (p, All-update_agent runs j change xs keeps h)
]

pub update_agent-IsAttended :
    (runs : List Run) (j : Text) (change : SubAgentInstance → SubAgentInstance)
    (xs : List SubAgentInstance)
    → Keeps change
    → IsAttended runs xs
    → IsAttended runs (update_agent j change xs)
update_agent-IsAttended runs j change xs keeps h = record {
  each = All-update_agent runs j change xs keeps h.each;
  distinct = rw (distinct_ids-update_agent j change xs keeps) h.distinct;
}

pub filter-IsAttended :
    (p : SubAgentInstance → Bool) (runs : List Run) (xs : List SubAgentInstance)
    → IsAttended runs xs
    → IsAttended runs (filter p xs)
filter-IsAttended p runs xs h = record {
  each = All-filter (Attended runs) p xs h.each;
  distinct = distinct_ids-filter p xs h.distinct;
}

has_run-remove_run :
    (controller : ℕ) (i : Text) (runs : List Run) (r : Run)
    → find? (of_controller controller) runs ≡ some r
    → text_eq r.agent_id i ≡ false
    → has_run i (remove_run controller runs) ≡ has_run i runs
unfolding has_run any find? remove_run
has_run-remove_run controller i [] r e other = cc
has_run-remove_run controller i (x ∷ runs) r e other =
    elim (Bool-cases (of_controller controller x)) [
      | inl t ↦ let same : x ≡ r = ground arith in rw (t, same, other) refl
      | inr t ↦ rw (t, has_run-remove_run controller i runs r (rw t at e) other) refl
    ]

pub others-Attended :
    (controller : ℕ) (runs : List Run) (r : Run) (i : Text)
    → find? (of_controller controller) runs ≡ some r
    → r.agent_id ≡ i
    → (x : SubAgentInstance) → has_id i x ≡ false
    → Attended runs x
    → Attended (remove_run controller runs) x
others-Attended controller runs r i found its x other p =
    let apart : text_eq r.agent_id x.meta.id ≡ false = rw (its, text_eq_sym i x.meta.id) other in
    rw (has_run-remove_run controller x.meta.id runs r found apart) p

-- A run is over, and no agent of the map has its key.
pub remove-IsAttended :
    (controller : ℕ) (runs : List Run) (r : Run) (xs : List SubAgentInstance)
    → find? (of_controller controller) runs ≡ some r
    → any (has_id r.agent_id) xs ≡ false
    → IsAttended runs xs
    → IsAttended (remove_run controller runs) xs
remove-IsAttended controller runs r xs found no_one h = record {
  each =
      All-others r.agent_id xs (others-Attended controller runs r r.agent_id found refl) no_one
        h.each;
  distinct = h.distinct;
}

-- A run is over, and its agent is put in, no longer active.
pub end-IsAttended :
    (controller : ℕ) (runs : List Run) (r : Run) (a : SubAgentInstance) (xs : List SubAgentInstance)
    → find? (of_controller controller) runs ≡ some r
    → r.agent_id ≡ a.meta.id
    → is_active_agent a ≡ false
    → IsAttended runs xs
    → IsAttended (remove_run controller runs) (put_agent a xs)
end-IsAttended controller runs r a xs found mine idle h = record {
  each =
      All-put_agent a xs h.distinct (others-Attended controller runs r a.meta.id found mine)
        (rw idle refl) h.each;
  distinct = distinct_ids-put_agent a xs h.distinct;
}
