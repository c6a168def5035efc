-- ===== src/Base/Http.antt =====
-- What the program uses of net/http: a request, with the calls of `Header.Set` in order, and a
-- response with its whole body.
use Prim.Native.Nat.{ℕ}
use mathlib.Core.Bool.{Bool, false}
use mathlib.Core.List.{List}
use deepagent.Base.Tests.{ltb, if◌then◌else◌}
use deepagent.Base.Text.{Str}

pub record HttpRequest : Type 0 where
  pub url : Str
  pub headers : List (Str × Str)
  pub body : Str

pub record HttpResponse : Type 0 where
  pub status_code : ℕ
  pub status : Str
  pub body : Str

-- `resp.StatusCode < 200 || resp.StatusCode >= 300` does not hold
abbrev pub is_success : ℕ → Bool
is_success code = if ltb code 200 then false else ltb code 300
