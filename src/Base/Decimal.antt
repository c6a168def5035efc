-- ===== src/Base/Decimal.antt =====
-- `%d` of a natural number: its decimal digits, and that they determine it.
use Prim.Native.Nat.{ℕ, zero, suc, ◌+◌, ◌-◌, ◌*◌, ◌/◌, ◌%◌, ◌<◌}
use mathlib.Core.Path.{◌≡◌, ap, sym, ◌∙◌}
use mathlib.Core.Logic.{inl, inr}
use mathlib.Core.List.{[], ◌∷◌}
use native.Mathlib.Omega.{arith}
use deepagent.Base.Tests.{ltb, if◌then◌else◌, Bool-cases}
use deepagent.Base.Text.{Str}

-- The digits of `n` in front of `acc`; a number has fewer digits than it counts, or is 0.
unfoldable pub digits : ℕ → ℕ → Str → Str
digits zero n acc = acc
digits (suc fuel) n acc =
    let more = digits fuel (n / 10) ((48 + n % 10) ∷ acc) in
    if ltb n 10 then (48 + n) ∷ acc else more

unfoldable pub itoa : ℕ → Str
unfolding digits
itoa n = digits (suc n) n []

-- The number that `v` becomes when the digits follow it.
value_from : ℕ → Str → ℕ
value_from v [] = v
value_from v (c ∷ s) = value_from (v * 10 + (c - 48)) s

value_from-digits :
    (fuel n : ℕ) (acc : Str) → n < fuel → value_from 0 (digits fuel n acc) ≡ value_from n acc
unfolding digits value_from
value_from-digits zero n acc h = absurd (omega arith)
value_from-digits (suc fuel) n acc h = elim (Bool-cases (ltb n 10)) [
  | inl small ↦ rw small (ap (λ v. value_from v acc) (omega arith))
  | inr large ↦ rw large (
      value_from-digits fuel (n / 10) ((48 + n % 10) ∷ acc) (ground arith)
      ∙ ap (λ v. value_from v acc) (omega arith))
]

pub itoa-injective : (m n : ℕ) → itoa m ≡ itoa n → m ≡ n
unfolding itoa value_from
itoa-injective m n e =
    sym (value_from-digits (suc m) m [] (omega arith))
    ∙ ap (value_from 0) e
    ∙ value_from-digits (suc n) n [] (omega arith)
