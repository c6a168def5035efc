-- ===== src/Tools/Wrapping/Tests.antt =====
-- A tool with a time limit.
use deepagent.Base.{ℕ, ◌≡◌, refl, true, none, ◌+◌, []}
use deepagent.Base.Text.{lit}
use deepagent.Tools.Value.{Value}
use deepagent.Agent.Types.{ok, err}
use deepagent.Agent.Graph.{Tool}
use deepagent.Tools.Wrapping.{with_timeout}

-- The world counts the calls.
abbrev counter : Tool ℕ
counter = record {
  name = lit "ls";
  description = [];
  parameters = Value.nil;
  call = λ args w. (ok Value.nil, w + 1);
}

-- The call that comes too late has its effect all the same.
late :
    (with_timeout (λ args w. true) 5 (lit "5s") counter).call none 0
    ≡ (err (lit "tool ls timeout after 5s"), 1)
unfolding with_timeout
late = refl

unlimited : (with_timeout (λ args w. true) 0 (lit "0s") counter).call none 0 ≡ (ok Value.nil, 1)
unfolding with_timeout
unlimited = refl
