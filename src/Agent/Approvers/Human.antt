-- ===== src/Agent/Approvers/Human.antt =====
-- agent/hitl.go: the human in the loop, with the console's approver as its default.
use deepagent.Base.{
  ◌≡◌, ◌↔◌, ◌||◌, refl, sym, subst, arith, Bool, true, Option, none, some, List, [],
}
use deepagent.Base.Text.{Str, lit, str_eq, trim_space, to_lower}
use deepagent.Base.{ℕ}
use deepagent.Agent.Types.{Result, ok, err, ApprovalRequest}
use deepagent.Agent.Approvers.{Answer, console_approver}

abbrev pub ApproverFunc : Type 0 → Type 0
ApproverFunc W = ApprovalRequest → W → Answer × W

pub record HumanInTheLoop (W : Type 0) : Type 0 where
  pub config : List (Str × Bool)
  pub approver : ApproverFunc W

module _ {W : Type 0} (lower : ℕ → ℕ) (read_line : ApprovalRequest → W → Result Str × W) where
  abbrev pub answered_line : Result Str × W → Answer × W
  answered_line (line, w) = (console_approver lower line, w)

  -- `consoleApprover`: it shows the question, and reads a line unless the context is done first
  unfoldable pub ask_at_console : ApproverFunc W
  unfolding console_approver
  ask_at_console question w = answered_line (read_line question w)

  abbrev pub config_or_empty : Option (List (Str × Bool)) → List (Str × Bool)
  config_or_empty none = []
  config_or_empty (some config) = config

  abbrev pub approver_or_console : Option (ApproverFunc W) → ApproverFunc W
  approver_or_console none = ask_at_console
  approver_or_console (some approver) = approver

  -- `NewHumanInTheLoopWithApprover`
  unfoldable pub new_human_in_the_loop_with_approver :
      Option (List (Str × Bool)) → Option (ApproverFunc W) → HumanInTheLoop W
  new_human_in_the_loop_with_approver config approver = record {
    config = config_or_empty config;
    approver = approver_or_console approver;
  }

  -- `NewHumanInTheLoop`
  unfoldable pub new_human_in_the_loop : Option (List (Str × Bool)) → HumanInTheLoop W
  unfolding ask_at_console
  new_human_in_the_loop config = record {
    config = config_or_empty config;
    approver = ask_at_console;
  }

  -- The words by which the console consents.
  abbrev pub is_consent : Str → Bool
  is_consent line =
      let response = to_lower lower (trim_space line) in
      str_eq response (lit "y") || str_eq response (lit "yes")

  abbrev pub IsConsent : Result Str → Type 0
  IsConsent line = (text : Str) × (line ≡ ok text) × (is_consent text ≡ true)

  consent-none : (text : Str) → is_consent text ≡ true → (console_approver lower (ok text)).1 ≡ none
  unfolding console_approver
  consent-none text good = ground arith

  ok-same : (a b : Str) → ok a ≡ ok b → a ≡ b
  ok-same a b h = cc

  console_approver-IsConsent :
      (line : Result Str) → ((console_approver lower line).1 ≡ none) ↔ IsConsent line
  unfolding console_approver
  console_approver-IsConsent (err e) = ((λ h. cc), λ (text, h, good). cc)
  console_approver-IsConsent (ok text) = (
    (λ h. (text, refl, ground arith)),
    λ (other, h, good).
        consent-none text (subst (λ t. is_consent t ≡ true) (sym (ok-same text other h)) good),
  )

  -- Without an approver of its own, the human consents exactly when a line was read that says `y` or
  -- `yes`, trimmed and in lower case.
  pub console-IsConsent :
      (config : Option (List (Str × Bool))) (question : ApprovalRequest) (w : W)
      → (((new_human_in_the_loop_with_approver config none).approver question w).0.1 ≡ none)
        ↔ IsConsent (read_line question w).0
  unfolding new_human_in_the_loop_with_approver ask_at_console
  console-IsConsent config question w = console_approver-IsConsent (read_line question w).0
