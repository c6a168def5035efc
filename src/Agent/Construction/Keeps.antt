-- ===== src/Agent/Construction/Keeps.antt =====
-- agent/graph.go, `buildGraph`: what every tool keeps, every tool of the map keeps.
use deepagent.Base.{inl, inr, Bool-cases, List, [], ◌∷◌, ◌++◌, All}
use deepagent.Base.Lists.{All-append}
use deepagent.Base.Text.{Str, str_eq}
use deepagent.Memory.{insert}
use deepagent.Agent.Graph.{Tool}
use deepagent.Agent.Graph.Keeps.{CallKeeps}
use deepagent.Agent.Construction.{tool_map, graph_tools}

module _ {W : Type 0} (P : W → Type 0) where
  abbrev pub AllKeep : List (Str × Tool W) → Type 0
  AllKeep = All (λ (entry : Str × Tool W). CallKeeps P entry.1)

  insert-AllKeep :
      (m : List (Str × Tool W)) (name : Str) (t : Tool W)
      → AllKeep m
      → CallKeeps P t
      → AllKeep (insert m name t)
  unfolding insert
  insert-AllKeep [] name t h this = (this, tt)
  insert-AllKeep ((k, u) ∷ m) name t (first, others) this = elim (Bool-cases (str_eq k name)) [
    | inl same ↦ rw same (this, others)
    | inr other ↦ rw other (first, insert-AllKeep m name t others this)
  ]

  tool_map-AllKeep :
      (ts : List (Tool W)) (m : List (Str × Tool W))
      → AllKeep m
      → All (CallKeeps P) ts
      → AllKeep (tool_map m ts)
  unfolding tool_map
  tool_map-AllKeep [] m h each = h
  tool_map-AllKeep (t ∷ ts) m h (this, others) =
      tool_map-AllKeep ts (insert m t.name t) (insert-AllKeep m t.name t h this) others

  pub graph_tools-AllKeep :
      (user built_in : List (Tool W))
      → All (CallKeeps P) user
      → All (CallKeeps P) built_in
      → AllKeep (graph_tools user built_in)
  unfolding graph_tools
  graph_tools-AllKeep user built_in h k =
      tool_map-AllKeep (user ++ built_in) [] tt (All-append (CallKeeps P) user built_in h k)
