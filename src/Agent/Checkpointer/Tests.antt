-- ===== src/Agent/Checkpointer/Tests.antt =====
-- A small disk, and the theorem about checkpoints at it.
use deepagent.Base.{◌≡◌, refl, true, none, some, [], if◌then◌else◌}
use deepagent.Base.Text.{Str, lit, str_eq, contains, contains_any, has_prefix, split_by}
use deepagent.Base.Path.{named_parts, joined, clean}
use deepagent.Agent.Types.{ok, State}
use deepagent.Agent.Checkpointer.{
  Library, done, validate_path_component, save, load, IsFaithful, load-save,
}

abbrev said : Str → State
said answer = record {
  messages = [];
  tool_calls = [];
  thread_id = lit "t";
  iteration = 1;
  final = answer;
}

-- Only the final answer of a state is kept.
abbrev library : Library
library = record {
  quote = λ v. v;
  marshal = λ state. ok state.final;
  unmarshal = λ text. ok (said text);
}

library-IsFaithful : IsFaithful library (said (lit "yes"))
library-IsFaithful = record { reads_back = λ text json. cc }

saved : (save library done (lit "d") (lit "t") (said (lit "yes")) []).0 ≡ none
unfolding save validate_path_component has_prefix contains contains_any str_eq clean split_by
    named_parts joined
saved = refl

climbing :
    (save library done (lit "d") (lit "../t") (said (lit "yes")) []).0
    ≡ some (lit "unsafe thread_id: ../t")
unfolding save validate_path_component has_prefix contains contains_any str_eq clean split_by
    named_parts joined
climbing = refl

load-save_example :
    load library true
      (lit "d")
      (lit "u")
      (save library done (lit "d") (lit "t") (said (lit "yes")) []).1
    ≡ (if str_eq (lit "t") (lit "u")
        then ok (some (said (lit "yes")))
        else load library true (lit "d") (lit "u") [])
load-save_example =
    load-save library done (lit "d") (lit "t") (lit "u") (said (lit "yes")) [] library-IsFaithful
      (λ e. cc) saved
