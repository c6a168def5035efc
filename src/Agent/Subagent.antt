-- ===== src/Agent/Subagent.antt =====
-- agent/subagent.go: the `task` tool, and the name of the file for a sub-agent's result.
pub mod Names
pub mod Plain
pub mod Keeps
pub mod Task
mod Tests
use deepagent.Base.{
  ℕ, zero, suc, ◌+◌, Bool, true, false, ◌||◌, ◌&&◌, Option, none, some, List, [], ◌∷◌, ◌++◌, ltb,
  leb, ◌==◌, take, any, if◌then◌else◌,
}
use deepagent.Base.Text.{Str, lit, len, is_empty, str_eq, trim, trim_space, to_lower}
use deepagent.Base.Decimal.{itoa}
use deepagent.Tools.Value.{Value, string, object, no_field, field, Args, arg, as_string}
use deepagent.Agent.Types.{Result, ok, err, Output, Input}
use deepagent.Tools.Files.{Backend}

-- The package `unicode` beyond ASCII: lower case, and letters or numbers.
pub record Unicode : Type 0 where
  pub lower : ℕ → ℕ
  pub is_word : ℕ → Bool

-- `unicode.IsLetter(r) || unicode.IsNumber(r)` in ASCII
abbrev pub is_ascii_word : ℕ → Bool
is_ascii_word c = leb 97 c && leb c 122 || leb 65 c && leb c 90 || leb 48 c && leb c 57

abbrev pub is_dash : ℕ → Bool
is_dash c = c == 45

abbrev pub fallback : Str → Str
fallback base = if is_empty base then lit "task" else base

abbrev pub cut : Str → Str
cut base = if ltb 40 (len base) then trim is_dash (take 40 base) else base

-- `_, ok := exists[name]`
abbrev pub is_taken : List Str → Str → Bool
is_taken existing name = any (λ other. str_eq other name) existing

abbrev pub plain_name : Str → Str
plain_name base = lit "subagent_" ++ (base ++ lit ".md")

abbrev pub numbered_name : Str → ℕ → Str
numbered_name base i = lit "subagent_" ++ (base ++ (lit "_" ++ (itoa i ++ lit ".md")))

-- the loop over `i`, with the rounds that are left
unfoldable pub next_numbered : Str → List Str → ℕ → ℕ → Option Str
next_numbered base existing zero i = none
next_numbered base existing (suc rounds) i =
    let rest = next_numbered base existing rounds (i + 1) in
    if is_taken existing (numbered_name base i) then rest else some (numbered_name base i)

-- `i <= 9999` from 2 on
abbrev pub max_rounds : ℕ
max_rounds = 9998

-- the name without a number, or one of so many numbered ones
unfoldable pub name_within : ℕ → Str → List Str → Option Str
name_within rounds base existing =
    let numbered = next_numbered base existing rounds 2 in
    if is_taken existing (plain_name base) then numbered else some (plain_name base)

unfoldable pub next_name : Str → List Str → Option Str
next_name = name_within max_rounds

abbrev pub merge_content : Str → Output → Str
merge_content description out =
    lit "# Subagent Result: " ++ (description ++ (lit "\n\n" ++ (out.final ++ lit "\n")))

abbrev pub merged_value : (Output → Value) → Str → Str → Output → Value
merged_value value_of description file out = object (
    field (lit "task") (string description) (
      field (lit "result_file") (string file) (
        field (lit "status") (string (lit "merged"))
          (field (lit "output") (value_of out) no_field))))

module _ (u : Unicode) where
  -- the loop over the text, with `lastDash`
  unfoldable pub slug_from : Bool → Str → Str
  slug_from last_dash [] = []
  slug_from last_dash (c ∷ s) =
      let dropped = slug_from last_dash s in
      let kept = c ∷ slug_from false s in
      let dashed = 45 ∷ slug_from true s in
      if ltb c 128
      then (if is_ascii_word c then kept else if last_dash then dropped else dashed)
      else if u.is_word c
      then dropped
      else if last_dash
      then dropped
      else dashed

  unfoldable pub slugify : Str → Str
  unfolding slug_from
  slugify s = trim is_dash (slug_from false (trim_space (to_lower u.lower s)))

  -- the base of the name
  unfoldable pub base_name : Str → Str
  unfolding slugify
  base_name description = cut (fallback (slugify description))

  module _ {W : Type 0} (b : Backend W) (quote : Str → Str) where
    abbrev pub named : Str → Option Str → Result Str
    named description none =
        err
          (lit "failed to allocate subagent result filename for description: " ++ quote description)
    named description (some name) = ok name

    abbrev pub name_among : Str → Result (List Str) → Result Str
    name_among description (err e) = err e
    name_among description (ok existing) =
        named description (next_name (base_name description) existing)

    unfoldable pub next_subagent_result_file : Str → W → Result Str
    unfolding base_name next_name
    next_subagent_result_file description w = name_among description (b.list (lit ".") w)

    -- `CreateDeepAgent` with the prompt, then `Invoke`, and `subOut["final"]` and the map itself as
    -- a value
    module _ (run_agent : Str → Str → W → Result Output × W) (value_of : Output → Value) where
      -- the error of the write is dropped
      abbrev pub merge : Str → Output → Result Str → W → Result Value × W
      merge description out (err e) w = (err e, w)
      merge description out (ok file) w = (
        ok (merged_value value_of description file out),
        (b.write file (merge_content description out) w).1,
      )

      abbrev pub merge_run : Str → Result Output × W → Result Value × W
      merge_run description (err e, w) = (err e, w)
      merge_run description (ok out, w) =
          merge description out (next_subagent_result_file description w) w

      abbrev pub run_task : Option Str → W → Result Value × W
      run_task none w = (err (lit "description is required"), w)
      run_task (some description) w =
          let done =
            merge_run description (
              run_agent (lit "You are a focused sub-agent. Task: " ++ description) description w) in
          if is_empty description then (err (lit "description is required"), w) else done

      unfoldable pub task : Args → W → Result Value × W
      unfolding next_subagent_result_file
      task args w = run_task (as_string (arg args (lit "description"))) w
