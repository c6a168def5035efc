-- ===== src/Tools/Wrapping.antt =====
-- tools/tool.go: tools of functions, and the wrapper with a time limit.
mod Tests
use deepagent.Base.{ℕ, Bool, true, false, ◌==◌, List, ◌++◌, if◌then◌else◌}
use deepagent.Base.Text.{Str, lit}
use deepagent.Tools.Value.{Value, nil, Args}
use deepagent.Agent.Types.{Result, ok, err}
use deepagent.Agent.Graph.{Tool}

-- `NewTool` and `NewToolWithParameters`
unfoldable pub new_tool_with_parameters :
    {W : Type 0} → Str → Str → Value → (Args → W → Result Value × W) → Tool W
new_tool_with_parameters name desc parameters fn = record {
  name = name;
  description = desc;
  parameters = parameters;
  call = fn;
}

unfoldable pub new_tool : {W : Type 0} → Str → Str → (Args → W → Result Value × W) → Tool W
unfolding new_tool_with_parameters
new_tool name desc fn = new_tool_with_parameters name desc nil fn

-- What the select of `TimeoutTool.Call` sees first. The goroutine with the tool's call is not
-- stopped by the select, so the world is the one that the call leaves in both cases.
abbrev pub raced : {W : Type 0} → Bool → Str → Result Value × W → Result Value × W
raced true late (result, w) = (err late, w)
raced false late (result, w) = (result, w)

-- `WithTimeout`, with the limit as a number, 0 where it is not positive, and as a text; `expires`
-- says whether the context ends before the call returns.
unfoldable pub with_timeout : {W : Type 0} → (Args → W → Bool) → ℕ → Str → Tool W → Tool W
with_timeout expires limit shown tool = record tool {
  call = λ args w.
      let late : Str = lit "tool " ++ (tool.name ++ (lit " timeout after " ++ shown)) in
      let done = tool.call args w in if limit == 0 then done else raced (expires args w) late done;
}
