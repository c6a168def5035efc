-- ===== src/Agent/Approvers.antt =====
-- agent/hitl_http.go and agent/hitl.go: an approver that asks a service over HTTP, and one that
-- asks at the console.
pub mod Http
pub mod Gate
pub mod Human
mod Tests
use deepagent.Base.{
  ℕ, Bool, true, false, ◌||◌, Option, none, some, List, [], ◌∷◌, ◌++◌, ltb, leb, if◌then◌else◌,
}
use deepagent.Base.Text.{Str, lit, is_empty, str_eq, trim_space, to_lower}
use deepagent.Base.Http.{HttpRequest, HttpResponse, is_success}
use deepagent.Agent.Types.{Result, ok, err, ApprovalRequest}

-- The decision, and the error where there is one.
abbrev pub Answer : Type 0
Answer = Str × Option Str

-- `HTTPApproverConfig` without the client and its timeout; a map is a list of its entries.
pub record HttpApproverConfig : Type 0 where
  pub url : Str
  pub api_key : Str
  pub headers : List (Str × Str)

-- `hitlApprovalResponse`
pub record ApprovalResponse : Type 0 where
  pub decision : Str
  pub reason : Str

-- What the approver uses of encoding/json, net/http, unicode and fmt; the JSON of the request is
-- that of the struct with its tags.
pub record Net (W : Type 0) : Type 0 where
  pub marshal : ApprovalRequest → Result Str
  pub valid_url : Str → Option Str
  pub send : HttpRequest → W → Result HttpResponse × W
  pub decode : Str → Result ApprovalResponse
  pub lower : ℕ → ℕ
  pub quote : Str → Str

-- `if strings.TrimSpace(cfg.APIKey) != ""`
abbrev pub authorization : Str → List (Str × Str)
authorization key =
    if is_empty (trim_space key)
    then []
    else (lit "Authorization", lit "Bearer " ++ trim_space key) ∷ []

unfoldable pub extra_headers : List (Str × Str) → List (Str × Str)
extra_headers [] = []
extra_headers ((k, v) ∷ headers) =
    let rest = extra_headers headers in if is_empty (trim_space k) then rest else (k, v) ∷ rest

unfoldable pub request_to : HttpApproverConfig → Str → Str → HttpRequest
unfolding extra_headers
request_to cfg url body = record {
  url = url;
  headers =
      (lit "Content-Type", lit "application/json")
      ∷ (authorization cfg.api_key ++ extra_headers cfg.headers);
  body = body;
}

-- the words of the first case of the switch, and those of the third
unfoldable pub is_approval : Str → Bool
is_approval d =
    str_eq d (lit "approved")
    || (str_eq d (lit "approve")
        || (str_eq d (lit "ok") || (str_eq d (lit "yes") || str_eq d (lit "y"))))

unfoldable pub is_rejection : Str → Bool
is_rejection d =
    str_eq d (lit "rejected")
    || (str_eq d (lit "reject") || (str_eq d (lit "no") || str_eq d (lit "n")))

-- the trimmed reason, or the default
abbrev pub reason_or : Str → Str → Str
reason_or standard reason = if is_empty (trim_space reason) then standard else trim_space reason

module _ {W : Type 0} (net : Net W) where
  -- `strings.ToLower(strings.TrimSpace(out.Decision))`
  abbrev pub normal : Str → Str
  normal decision = to_lower net.lower (trim_space decision)

  unfoldable pub decide : ApprovalResponse → Answer
  unfolding is_approval is_rejection
  decide out =
      let d = normal out.decision in
      if is_approval d
      then (lit "approved", none)
      else if str_eq d (lit "modify")
      then (lit "modify", some (reason_or (lit "modify is not implemented yet") out.reason))
      else if is_rejection d
      then (lit "rejected", some (reason_or (lit "tool call rejected by hitl approver") out.reason))
      else (lit "rejected", some (lit "unknown hitl decision: " ++ net.quote out.decision))

  abbrev pub decoded : Result ApprovalResponse → Answer
  decoded (err e) = (lit "rejected", some (lit "invalid hitl approver response: " ++ e))
  decoded (ok out) = decide out

  abbrev pub answered : HttpResponse → Answer
  answered resp =
      let answer = decoded (net.decode resp.body) in
      if is_success resp.status_code
      then answer
      else (lit "rejected", some (lit "hitl approver returned non-success status: " ++ resp.status))

  abbrev pub received : Result HttpResponse × W → Answer × W
  received (err e, w) = ((lit "rejected", some (lit "hitl approver request failed: " ++ e)), w)
  received (ok resp, w) = (answered resp, w)

  module _ (cfg : HttpApproverConfig) where
    abbrev pub sent : Str → Str → Option Str → W → Answer × W
    sent url body (some e) w =
        ((lit "rejected", some (lit "failed to create hitl approval request: " ++ e)), w)
    sent url body none w = received (net.send (request_to cfg url body) w)

    abbrev pub posted : Str → Result Str → W → Answer × W
    posted url (err e) w =
        ((lit "rejected", some (lit "failed to marshal hitl approval request: " ++ e)), w)
    posted url (ok body) w = sent url body (net.valid_url url) w

    -- the function that `NewHTTPApprover` returns
    unfoldable pub http_approver : ApprovalRequest → W → Answer × W
    unfolding request_to decide
    http_approver question w = posted (trim_space cfg.url) (net.marshal question) w

    unfoldable pub new_http_approver : Result (ApprovalRequest → W → Answer × W)
    unfolding http_approver
    new_http_approver =
        if is_empty (trim_space cfg.url)
        then err (lit "hitl approver url is required")
        else ok http_approver

-- What the console gives: a line, unless the context is done first.
unfoldable pub console_approver : (lower : ℕ → ℕ) → Result Str → Answer
console_approver lower (err cancelled) = (lit "cancelled", some cancelled)
console_approver lower (ok line) =
    let response = to_lower lower (trim_space line) in
    if str_eq response (lit "y") || str_eq response (lit "yes")
    then (lit "approved", none)
    else if str_eq response (lit "modify")
    then (lit "modify", some (lit "modify is not implemented yet"))
    else (lit "rejected", some (lit "user rejected tool call"))
