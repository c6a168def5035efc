-- ===== src/Llms/Anthropic/Conversation.antt =====
-- llms/anthropic/anthropic.go: which messages of the conversation the request holds.
use deepagent.Base.{
  ◌≡◌, refl, ap, subst, ◌⊎◌, ◌∙◌, sym, Bool, true, false, Option, none, some, List, [], ◌∷◌, ◌++◌,
  append_assoc, append-nil, if◌then◌else◌, arith, Bool-cases, inl, inr, All, All-append,
}
use deepagent.Base.Text.{Str, lit, is_empty, str_eq, trim_space}
use deepagent.Tools.Value.{string, Fields, get}
use deepagent.Agent.Types.{Message, ToolSpec}
use deepagent.Llms.Anthropic.{
  RequestMessage, MessageRequest, Anthropic, Api, text_block, tool_result_block, text_or_empty,
  block_of, block_or_text, add_line, is_said, parse_tool_result_block, add_message, add_messages,
  join_lines, request_body,
}

-- The texts of the system's messages.
abbrev pub system_texts : List Message → List Str
system_texts [] = []
system_texts (m ∷ ms) =
    let rest = system_texts ms in if str_eq m.role (lit "system") then m.content ∷ rest else rest

-- Without the empty ones in front.
abbrev pub from_first : List Str → List Str
from_first [] = []
from_first ([] ∷ texts) = from_first texts
from_first ((c ∷ text) ∷ texts) = (c ∷ text) ∷ texts

-- the lines after those that are there
abbrev lines : Str → List Str → Str
lines system [] = system
lines system (t ∷ ts) = lines (add_line system t) ts

join_lines-glue :
    (a t : Str) (ts : List Str)
    → join_lines ((a ++ (lit "\n" ++ t)) ∷ ts) ≡ a ++ (lit "\n" ++ join_lines (t ∷ ts))
unfolding join_lines
join_lines-glue a t [] = refl
join_lines-glue a t (u ∷ ts) = simp (append_assoc)

lines-join :
    (ts : List Str) (c : _) (system : Str) → lines (c ∷ system) ts ≡ join_lines ((c ∷ system) ∷ ts)
unfolding join_lines
lines-join [] c system = refl
lines-join (t ∷ ts) c system =
    lines-join ts c (system ++ (lit "\n" ++ t)) ∙ join_lines-glue (c ∷ system) t ts

lines-from_first : (ts : List Str) → lines [] ts ≡ join_lines (from_first ts)
unfolding join_lines
lines-from_first [] = refl
lines-from_first ([] ∷ ts) = lines-from_first ts
lines-from_first ((c ∷ t) ∷ ts) = lines-join ts c t

lines-if :
    (b : Bool) (system t : Str) (ts : List Str)
    → lines (if b then add_line system t else system) ts ≡ lines system (if b then t ∷ ts else ts)
lines-if true system t ts = refl
lines-if false system t ts = refl

module _ {W : Type 0} (api : Api W) where
  -- What is sent of a message: nothing of the system's and of those with an unknown role.
  abbrev pub turn : Message → List RequestMessage
  turn m =
      if str_eq m.role (lit "system")
      then []
      else if is_said m.role
      then record { role = m.role; content = text_block m.content ∷ [] } ∷ []
      else if str_eq m.role (lit "tool")
      then record {
        role = lit "user";
        content = block_or_text m.content (parse_tool_result_block api m.content) ∷ [];
      }
        ∷ []
      else []

  abbrev pub turns : List Message → List RequestMessage
  turns [] = []
  turns (m ∷ ms) = turn m ++ turns ms

  add_message-messages :
      (req : MessageRequest) (m : Message)
      → (add_message api req m).messages ≡ req.messages ++ turn m
  unfolding add_message
  add_message-messages req m = ground (arith, append-nil req.messages)

  add_messages-messages :
      (ms : List Message) (req : MessageRequest)
      → (add_messages api req ms).messages ≡ req.messages ++ turns ms
  unfolding add_messages
  add_messages-messages [] req = sym (append-nil req.messages)
  add_messages-messages (m ∷ ms) req =
      add_messages-messages ms (add_message api req m)
      ∙ ap (λ (before : List RequestMessage). before ++ turns ms) (add_message-messages req m)
      ∙ append_assoc req.messages (turn m) (turns ms)

  add_message-system :
      (req : MessageRequest) (m : Message)
      → (add_message api req m).system
        ≡ (if str_eq m.role (lit "system") then add_line req.system m.content else req.system)
  unfolding add_message
  add_message-system req m = ground arith

  add_messages-system :
      (ms : List Message) (req : MessageRequest)
      → (add_messages api req ms).system ≡ lines req.system (system_texts ms)
  unfolding add_messages
  add_messages-system [] req = refl
  add_messages-system (m ∷ ms) req =
      add_messages-system ms (add_message api req m)
      ∙ ap (λ t. lines t (system_texts ms)) (add_message-system req m)
      ∙ lines-if (str_eq m.role (lit "system")) req.system m.content (system_texts ms)

  -- A block is a text or the result of a tool.
  abbrev pub IsAnswerBlock : Fields → Type 0
  IsAnswerBlock block =
      (get block (lit "type") ≡ some (string (lit "text")))
      ⊎ (get block (lit "type") ≡ some (string (lit "tool_result")))

  abbrev pub HasAnswers : RequestMessage → Type 0
  HasAnswers m = All IsAnswerBlock m.content

  text_block-type : (t : Str) → get (text_block t) (lit "type") ≡ some (string (lit "text"))
  unfolding get str_eq
  text_block-type t = refl

  tool_result_block-type :
      (id t : Str) → get (tool_result_block id t) (lit "type") ≡ some (string (lit "tool_result"))
  unfolding get str_eq
  tool_result_block-type id t = refl

  block_of-IsAnswerBlock :
      (content : Str) (payload : Option Fields)
      → IsAnswerBlock (block_or_text content (block_of api payload))
  block_of-IsAnswerBlock content none = inl (text_block-type _)
  block_of-IsAnswerBlock content (some payload) =
      let id = text_or_empty (get payload (lit "tool_call_id")) in
      elim (Bool-cases (is_empty (trim_space id))) [
        | inl blank ↦ rw blank (inl (text_block-type _))
        | inr given ↦ rw given (inr (tool_result_block-type id _))
      ]

  block_or_text-IsAnswerBlock :
      (content : Str) → IsAnswerBlock (block_or_text content (parse_tool_result_block api content))
  unfolding parse_tool_result_block
  block_or_text-IsAnswerBlock content = block_of-IsAnswerBlock content (api.unmarshal content)

  All-if :
      (b : Bool) (xs ys : List RequestMessage)
      → All HasAnswers xs
      → All HasAnswers ys
      → All HasAnswers (if b then xs else ys)
  All-if true xs ys h k = h
  All-if false xs ys h k = k

  turn-HasAnswers : (m : Message) → All HasAnswers (turn m)
  turn-HasAnswers m = All-if (str_eq m.role (lit "system")) [] _ tt (
      All-if (is_said m.role) _ _ ((inl (text_block-type m.content), tt), tt)
        (All-if (str_eq m.role (lit "tool")) _ _ ((block_or_text-IsAnswerBlock m.content, tt), tt)
          tt))

  turns-HasAnswers : (ms : List Message) → All HasAnswers (turns ms)
  turns-HasAnswers [] = tt
  turns-HasAnswers (m ∷ ms) =
      All-append HasAnswers (turn m) (turns ms) (turn-HasAnswers m) (turns-HasAnswers ms)

  -- The request holds the user's, the assistant's and the tools' messages in order, and as its
  -- system text the system's messages, one to a line, without the empty ones in front. Each block
  -- is a text or the result of a tool: the calls that the assistant made are not sent.
  pub request_body-Conversation :
      (a : Anthropic) (ms : List Message) (tools : List ToolSpec)
      → ((request_body api a ms tools).messages ≡ turns ms)
        × ((request_body api a ms tools).system ≡ join_lines (from_first (system_texts ms)))
        × All HasAnswers (request_body api a ms tools).messages
  unfolding request_body
  request_body-Conversation a ms tools =
      let start : MessageRequest = record {
        model = a.model;
        system = [];
        max_tokens = a.max_tokens;
        messages = [];
        tools = [];
      } in
      let same = add_messages-messages ms start in
      (
        same,
        add_messages-system ms start ∙ lines-from_first (system_texts ms),
        subst (All HasAnswers) (sym same) (turns-HasAnswers ms),
      )
