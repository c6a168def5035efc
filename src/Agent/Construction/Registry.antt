-- ===== src/Agent/Construction/Registry.antt =====
-- agent/graph.go, `buildGraph`: which tool a name stands for.
use deepagent.Base.{
  ◌≡◌, refl, ap, sym, ◌∙◌, Bool, true, false, Option, none, some, List, [], ◌∷◌, ◌++◌,
  if◌then◌else◌,
}
use deepagent.Base.Text.{Str, str_eq}
use deepagent.Agent.Graph.{Tool, lookup}
use deepagent.Memory.{find, insert, find-insert}
use deepagent.Agent.Construction.{tool_map, graph_tools}

module _ {W : Type 0} where
  abbrev pub or_else : Option (Tool W) → Option (Tool W) → Option (Tool W)
  or_else (some u) o = some u
  or_else none o = o

  -- The last tool of the list with the name.
  abbrev pub last_named : List (Tool W) → Str → Option (Tool W)
  last_named [] name = none
  last_named (t ∷ ts) name =
      or_else (last_named ts name) (if str_eq t.name name then some t else none)

  lookup-find : (m : List (Str × Tool W)) (name : Str) → lookup m name ≡ find m name
  unfolding lookup find
  lookup-find [] name = refl
  lookup-find ((k, t) ∷ m) name = ap (λ o. if str_eq k name then some t else o) (lookup-find m name)

  or_else-if :
      (o : Option (Tool W)) (b : Bool) (t : Tool W) (rest : Option (Tool W))
      → or_else o (if b then some t else rest)
        ≡ or_else (or_else o (if b then some t else none)) rest
  or_else-if (some u) b t rest = refl
  or_else-if none true t rest = refl
  or_else-if none false t rest = refl

  or_else-none : (o : Option (Tool W)) → or_else o none ≡ o
  or_else-none none = refl
  or_else-none (some u) = refl

  or_else_assoc : (o p q : Option (Tool W)) → or_else (or_else o p) q ≡ or_else o (or_else p q)
  or_else_assoc none p q = refl
  or_else_assoc (some u) p q = refl

  last_named-append :
      (ts us : List (Tool W)) (name : Str)
      → last_named (ts ++ us) name ≡ or_else (last_named us name) (last_named ts name)
  last_named-append [] us name = sym (or_else-none (last_named us name))
  last_named-append (t ∷ ts) us name =
      let this : Option (Tool W) = if str_eq t.name name then some t else none in
      ap (λ o. or_else o this) (last_named-append ts us name)
      ∙ or_else_assoc (last_named us name) (last_named ts name) this

  find-tool_map :
      (ts : List (Tool W)) (m : List (Str × Tool W)) (name : Str)
      → find (tool_map m ts) name ≡ or_else (last_named ts name) (find m name)
  unfolding tool_map
  find-tool_map [] m name = refl
  find-tool_map (t ∷ ts) m name =
      find-tool_map ts (insert m t.name t) name
      ∙ ap (or_else (last_named ts name)) (find-insert m t.name t name)
      ∙ or_else-if (last_named ts name) (str_eq t.name name) t (find m name)

  -- A name stands for the last built-in tool with that name and, only where there is none, for the
  -- last of the user's tools with that name.
  pub lookup-graph_tools :
      (user built_in : List (Tool W)) (name : Str)
      → lookup (graph_tools user built_in) name
        ≡ or_else (last_named built_in name) (last_named user name)
  unfolding graph_tools find
  lookup-graph_tools user built_in name =
      lookup-find (tool_map [] (user ++ built_in)) name
      ∙ find-tool_map (user ++ built_in) [] name
      ∙ or_else-none (last_named (user ++ built_in) name)
      ∙ last_named-append user built_in name
