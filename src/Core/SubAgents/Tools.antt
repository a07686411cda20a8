-- ===== src/Core/SubAgents/Tools.antt =====
-- packages/core/src/sub-agent-manager.ts: `createAgentTools`, which tools a sub-agent is given. What
-- the shared tools do is a parameter.
use cere_worker.Prelude.{
  Text, codes, text_eq, text_eq_iff, starts_with, if◌then◌else◌, Bool, true, false, ◌||◌, Option,
  none, some, List, [], ◌∷◌, ◌≡◌, refl, ◌⊎◌, ◌++◌, All, sym, subst, arith, Bool-cases, inl, inr,
}

-- The tools of `createAgentTools` itself, which work on the agent's own directory.
pub data AgentTool {ℓ} (T : Type ℓ) : Type ℓ where
  shared : T → AgentTool T
  memory_read memory_write memory_log memory_search report_progress : AgentTool T

-- The names that the loop over the shared tools passes over.
unfoldable pub is_skipped : Text → Bool
unfolding text_eq starts_with
is_skipped name =
    text_eq name (codes "spawn_agent")
    || text_eq name (codes "query_agents")
    || text_eq name (codes "cancel_agent")
    || starts_with (codes "memory_") name

module _ {ℓ} {A : Type ℓ} where
  -- `Map.set` and `Map.get`
  unfoldable pub set_tool : Text → A → List (Text × A) → List (Text × A)
  unfolding text_eq
  set_tool name tool [] = (name, tool) ∷ []
  set_tool name tool ((key, old) ∷ rest) =
      if text_eq key name then (key, tool) ∷ rest else (key, old) ∷ set_tool name tool rest

  unfoldable pub get_tool : Text → List (Text × A) → Option A
  unfolding text_eq
  get_tool name [] = none
  get_tool name ((key, tool) ∷ rest) = if text_eq key name then some tool else get_tool name rest

module _ {ℓ} {T : Type ℓ} where
  unfoldable pub copy_shared :
      List (Text × T) → List (Text × AgentTool T) → List (Text × AgentTool T)
  unfolding is_skipped set_tool
  copy_shared [] tools = tools
  copy_shared ((name, tool) ∷ rest) tools =
      copy_shared rest (if is_skipped name then tools else set_tool name (shared tool) tools)

  unfoldable pub create_agent_tools : List (Text × T) → List (Text × AgentTool T)
  unfolding copy_shared set_tool
  create_agent_tools tools = set_tool (codes "report_progress") report_progress (
      set_tool (codes "memory_search") memory_search (
        set_tool (codes "memory_log") memory_log (
          set_tool (codes "memory_write") memory_write
            (set_tool (codes "memory_read") memory_read (copy_shared tools [])))))

-- The names that belong to the manager and to the memory of an agent.
abbrev pub IsReserved : Text → Type 0
IsReserved name =
    (name ≡ codes "spawn_agent")
    ⊎ ((name ≡ codes "query_agents")
        ⊎ ((name ≡ codes "cancel_agent") ⊎ ((rest : Text) × (name ≡ codes "memory_" ++ rest))))

starts_with-append : (p s : Text) → starts_with p (p ++ s) ≡ true
unfolding starts_with
starts_with-append [] s = refl
starts_with-append (c ∷ p) s = ground (arith, starts_with-append p s)

IsReserved-skipped : (name : Text) → IsReserved name → is_skipped name ≡ true
unfolding is_skipped
IsReserved-skipped name (inl e) = rw e (ground arith)
IsReserved-skipped name (inr (inl e)) = rw e (ground arith)
IsReserved-skipped name (inr (inr (inl e))) = rw e (ground arith)
IsReserved-skipped name (inr (inr (inr (rest, e)))) =
    let memory = starts_with-append (codes "memory_") rest in rw e (ground (arith, memory))

-- Whether a tool of the map is not a shared one that a sub-agent must not have.
abbrev pub IsProper {ℓ} : {T : Type ℓ} → Text × AgentTool T → Type 0
IsProper (name, shared _) = is_skipped name ≡ false
IsProper (name, _) = Unit

module _ {ℓ} {T : Type ℓ} where
  set_tool-All :
      (name : Text) (tool : AgentTool T) (tools : List (Text × AgentTool T))
      → IsProper (name, tool)
      → All IsProper tools
      → All IsProper (set_tool name tool tools)
  unfolding set_tool
  set_tool-All name tool [] p h = (p, tt)
  set_tool-All name tool ((key, old) ∷ rest) p (q, h) = elim (Bool-cases (text_eq key name)) [
    | inl t ↦
        let same : key ≡ name = (text_eq_iff key name).0 t in
        rw t (subst (λ k. IsProper (k, tool)) (sym same) p, h)
    | inr t ↦ rw t (q, set_tool-All name tool rest p h)
  ]

  copy_shared-All :
      (shared_tools : List (Text × T)) (tools : List (Text × AgentTool T))
      → All IsProper tools
      → All IsProper (copy_shared shared_tools tools)
  unfolding copy_shared
  copy_shared-All [] tools h = h
  copy_shared-All ((name, tool) ∷ rest) tools h = elim (Bool-cases (is_skipped name)) [
    | inl t ↦ rw t (copy_shared-All rest tools h)
    | inr t ↦ rw t (
        copy_shared-All rest (set_tool name (shared tool) tools)
          (set_tool-All name (shared tool) tools t h))
  ]

  get_tool-All :
      (name : Text) (tools : List (Text × AgentTool T)) (tool : AgentTool T)
      → All IsProper tools
      → get_tool name tools ≡ some tool
      → IsProper (name, tool)
  unfolding get_tool
  get_tool-All name [] tool h e = absurd cc
  get_tool-All name ((key, old) ∷ rest) tool (p, h) e = elim (Bool-cases (text_eq key name)) [
    | inl t ↦
        let same : key ≡ name = (text_eq_iff key name).0 t in
        let this : old ≡ tool = ground arith in
        subst (λ k. IsProper (k, tool)) same (subst (λ o. IsProper (key, o)) this p)
    | inr t ↦ get_tool-All name rest tool h (rw t at e)
  ]

  -- Under the names `spawn_agent`, `query_agents` and `cancel_agent`, and under any name that is
  -- `memory_` with something behind it or nothing, a sub-agent is given none of the shared tools,
  -- whatever these are.
  pub create_agent_tools-no_shared :
      (tools : List (Text × T)) (name : Text) (tool : T)
      → IsReserved name
      → ¬ (get_tool name (create_agent_tools tools) ≡ some (shared tool))
  unfolding create_agent_tools
  create_agent_tools-no_shared tools name tool reserved e =
      let skipped = IsReserved-skipped name reserved in
      let copied = copy_shared-All tools [] tt in
      let one = set_tool-All (codes "memory_read") memory_read _ tt copied in
      let two = set_tool-All (codes "memory_write") memory_write _ tt one in
      let three = set_tool-All (codes "memory_log") memory_log _ tt two in
      let four = set_tool-All (codes "memory_search") memory_search _ tt three in
      let all = set_tool-All (codes "report_progress") report_progress _ tt four in
      let proper : is_skipped name ≡ false = get_tool-All name _ (shared tool) all e in
      ground (arith, skipped, proper)
