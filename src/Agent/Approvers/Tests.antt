-- ===== src/Agent/Approvers/Tests.antt =====
-- A service that approves or refuses by its world, and the theorems about the approver at it.
use deepagent.Base.{◌≡◌, ◌↔◌, ◌⊎◌, refl, Bool, true, false, none, some, [], ◌∷◌, if◌then◌else◌}
use deepagent.Base.Text.{lit, str_eq, trim, is_space}
use deepagent.Tools.Value.{Value}
use deepagent.Agent.Types.{ok, err, ApprovalRequest, ToolCall}
use deepagent.Agent.Graph.{Tool, Graph, Run, lookup, should_interrupt}
use deepagent.Agent.Graph.Calls.{handle_call}
use deepagent.Agent.Graph.Turns.{initial}
use deepagent.Agent.Approvers.{
  HttpApproverConfig, Net, http_approver, console_approver, extra_headers, request_to, is_approval,
  decide,
}
use deepagent.Agent.Approvers.Http.{Consents, http_approver-Consents}
use deepagent.Agent.Approvers.Gate.{asking, question_of, Stopped, handle_call-Consents}

abbrev service : Net Bool
service = record {
  marshal = λ question. ok question.tool;
  valid_url = λ url. none;
  send = λ request agrees. (
    ok (record {
      status_code = if agrees then 200 else 503;
      status = lit "status";
      body = request.body;
    }),
    agrees,
  );
  decode = λ body. ok (record { decision = lit " yes "; reason = [] });
  lower = λ c. c;
  quote = λ t. t;
}

abbrev config : HttpApproverConfig
config = record {
  url = lit " http://approve ";
  api_key = lit "key";
  headers = (lit " ", lit "dropped") ∷ (lit "X-Team", lit "ops") ∷ [];
}

abbrev call : ToolCall
call = record { id = lit "1"; name = lit "rm"; arguments = lit "{}" }

abbrev question : ApprovalRequest
question = record {
  tool = lit "rm";
  args = lit "{}";
  thread_id = lit "t";
  request_id = lit "t-7";
  tool_call_id = lit "1";
  iteration = 1;
}

approves : (http_approver service config question true).0 ≡ (lit "approved", none)
unfolding http_approver decide is_approval request_to str_eq trim is_space extra_headers
approves = refl

fails : (http_approver service config question false).0.0 ≡ lit "rejected"
unfolding http_approver request_to
fails = refl

at_console : console_approver (λ c. c) (ok (lit "yes\n")) ≡ (lit "approved", none)
unfolding console_approver str_eq trim is_space
at_console = refl

http_approver-Consents_example :
    ((http_approver service config question true).0.1 ≡ none
      ↔ Consents service config question true)
    × (((http_approver service config question true).0 ≡ (lit "approved", none))
        ↔ Consents service config question true)
http_approver-Consents_example = http_approver-Consents service config question true

abbrev rm : Tool Bool
rm = record {
  name = lit "rm";
  description = [];
  parameters = Value.nil;
  call = λ args w. (ok Value.nil, w);
}

abbrev agent : Graph Bool
agent = record {
  invoke = λ messages specs w. (err (lit "busy"), w);
  tools = (lit "rm", rm) ∷ [];
  prompt = [];
  load = λ thread w. (ok none, w);
  save = λ thread s w. w;
  put = λ thread key result w. w;
  config = (lit "rm", true) ∷ [];
  approver = λ question w. ((lit "answer", none), w);
  has_event_sink = true;
  has_audit = true;
  include_args = false;
  validate = λ schema args. none;
  decode_args = λ text. none;
  decode = λ text. none;
  encode = λ result. ok result.tool;
  hash = λ text. text;
  now = λ w. lit "7";
}

abbrev before : Run Bool
before =
    initial (lit "t") false
      (record { messages = []; tool_calls = []; thread_id = lit "t"; iteration = 1; final = [] })

known : lookup agent.tools call.name ≡ some rm
unfolding lookup str_eq
known = refl

asks : should_interrupt agent.config call.name ≡ true
unfolding should_interrupt str_eq
asks = refl

handle_call-Consents_example :
    Consents service config
      (question_of
        (asking service config agent (lit "t") (lit "t-7"))
        (lit "t")
        (lit "t-7")
        call
        before)
      false
    ⊎ Stopped
        (asking service config agent (lit "t") (lit "t-7"))
        (lit "t")
        (lit "t-7")
        call
        before
        (handle_call
          (asking service config agent (lit "t") (lit "t-7"))
          (lit "t")
          (lit "t-7")
          call
          before)
handle_call-Consents_example =
    handle_call-Consents service config agent (lit "t") (lit "t-7") rm call before known asks
