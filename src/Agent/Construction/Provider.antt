-- ===== src/Agent/Construction/Provider.antt =====
-- agent/deepagent.go, `buildDefaultLLM`: when there is a model, and which.
use deepagent.Base.{
  ℕ, ◌≡◌, ◌≢◌, ◌⊎◌, refl, ap, sym, ◌∙◌, Bool, true, false, ◌||◌, Option, none, some, [], ◌∷◌,
  if◌then◌else◌, Bool-cases, inl, inr,
}
use deepagent.Base.Text.{Str, lit, str_eq, str_eq_iff, is_empty}
use deepagent.Agent.Types.{Result, ok, err}
use deepagent.Llms.OpenAi
use deepagent.Llms.OpenAi.{new_with_base_url, new_groq, new_ollama}
use deepagent.Llms.Anthropic
use deepagent.Agent.Construction.{
  ModelOptions, ChatModel, openai, anthropic, groq, ollama, Env, setting, provider_of, model_of,
  is_openai, use_openai, use_anthropic, use_groq, use_ollama, openai_model, use_provider,
  build_default_llm,
}

-- The provider of a model, and the model's name and key.
abbrev pub provider_name : ChatModel → Str
provider_name (openai _) = lit "openai"
provider_name (groq _) = lit "groq"
provider_name (ollama _) = lit "ollama"
provider_name (anthropic _) = lit "anthropic"

abbrev pub model_name : ChatModel → Str
model_name (openai m) = m.model
model_name (groq m) = m.model
model_name (ollama m) = m.model
model_name (anthropic m) = m.model

abbrev pub key_of : ChatModel → Str
key_of (openai m) = m.client.api_key
key_of (groq m) = m.client.api_key
key_of (ollama m) = m.client.api_key
key_of (anthropic m) = m.api_key

-- The variable that holds the key of a provider; ollama needs none.
abbrev pub key_variable : Str → Option Str
key_variable provider =
    if is_openai provider
    then some (lit "OPENAI_API_KEY")
    else if str_eq provider (lit "anthropic")
    then some (lit "ANTHROPIC_API_KEY")
    else if str_eq provider (lit "groq")
    then some (lit "GROQ_API_KEY")
    else none

abbrev pub is_known : Str → Bool
is_known provider =
    is_openai provider
    || (str_eq provider (lit "anthropic")
        || (str_eq provider (lit "groq") || str_eq provider (lit "ollama")))

-- Whether the key that the provider needs is given.
abbrev pub lacks_key : ModelOptions → Env → Option Str → Bool
lacks_key opts env none = false
lacks_key opts env (some variable) = is_empty (setting env opts.api_key variable)

abbrev pub canonical : Str → Str
canonical provider = if is_empty provider then lit "openai" else provider

-- A model of this provider, or an error where the provider is unknown or its key is missing.
abbrev pub Fits : ModelOptions → Env → Str → Str → Result ChatModel → Type 0
Fits opts env provider model (ok m) =
    (is_known provider ≡ true)
    × (lacks_key opts env (key_variable provider) ≡ false)
    × (provider_name m ≡ canonical provider)
    × (model_name m ≡ model)
    × (key_of m ≢ [])
Fits opts env provider model (err e) =
    (is_known provider ≡ false) ⊎ (lacks_key opts env (key_variable provider) ≡ true)

solid : (s : Str) → is_empty s ≡ false → s ≢ []
solid s h e = let empty : is_empty s ≡ true = ap is_empty e in cc (h, empty)

openai_canonical : (provider : Str) → is_openai provider ≡ true → lit "openai" ≡ canonical provider
openai_canonical [] h = refl
openai_canonical (c ∷ s) h = sym ((str_eq_iff (c ∷ s) (lit "openai")).0 h)

named_canonical :
    (provider name : Str) → name ≢ [] → str_eq provider name ≡ true → name ≡ canonical provider
named_canonical [] name full h = absurd (full (sym ((str_eq_iff [] name).0 h)))
named_canonical (c ∷ s) name full h = sym ((str_eq_iff (c ∷ s) name).0 h)

openai_model-made :
    (key model url : Str)
    → (provider_name (openai_model key model url) ≡ lit "openai")
      × (model_name (openai_model key model url) ≡ model)
      × (key_of (openai_model key model url) ≡ key)
unfolding OpenAi.new new_with_base_url
openai_model-made key model url = elim (Bool-cases (is_empty url)) [
  | inl blank ↦ rw blank (refl, refl, refl)
  | inr given ↦ rw given (refl, refl, refl)
]

module _ (provider : Str) (opts : ModelOptions) (env : Env) (model : Str) where
  -- a provider with a key, by what its case returns with the key and without
  keyed :
      (variable e : Str) (m : ChatModel)
      → is_known provider ≡ true
      → key_variable provider ≡ some variable
      → provider_name m ≡ canonical provider
      → model_name m ≡ model
      → key_of m ≡ setting env opts.api_key variable
      → Fits opts env provider model
          (if is_empty (setting env opts.api_key variable) then err e else ok m)
  keyed variable e m known at name same key =
      elim (Bool-cases (is_empty (setting env opts.api_key variable))) [
        | inl blank ↦ rw blank (inr (ap (lacks_key opts env) at ∙ blank))
        | inr given ↦ rw given (
          known,
          ap (lacks_key opts env) at ∙ given,
          name,
          same,
          (λ e. solid _ given (sym key ∙ e)),
        )
      ]

  use_openai-Fits :
      is_openai provider ≡ true → Fits opts env provider model (use_openai opts env model)
  unfolding use_openai
  use_openai-Fits h =
      let (name, same, key) =
        openai_model-made (setting env opts.api_key (lit "OPENAI_API_KEY")) model
          (setting env opts.base_url (lit "OPENAI_BASE_URL")) in
      keyed (lit "OPENAI_API_KEY") _ _ (rw h refl) (rw h refl) (name ∙ openai_canonical provider h)
        same key

  use_anthropic-Fits :
      is_openai provider ≡ false
      → str_eq provider (lit "anthropic") ≡ true
      → Fits opts env provider model (use_anthropic opts env model)
  unfolding use_anthropic Anthropic.new
  use_anthropic-Fits other h =
      keyed (lit "ANTHROPIC_API_KEY") _ _ (rw (other, h) refl) (rw (other, h) refl)
        (named_canonical provider (lit "anthropic") (λ e. cc) h) refl refl

  use_groq-Fits :
      is_openai provider ≡ false
      → str_eq provider (lit "anthropic") ≡ false
      → str_eq provider (lit "groq") ≡ true
      → Fits opts env provider model (use_groq opts env model)
  unfolding use_groq new_groq
  use_groq-Fits other other' h =
      keyed (lit "GROQ_API_KEY") _ _ (rw (other, other', h) refl) (rw (other, other', h) refl)
        (named_canonical provider (lit "groq") (λ e. cc) h) refl refl

  use_ollama-Fits :
      is_openai provider ≡ false
      → str_eq provider (lit "anthropic") ≡ false
      → str_eq provider (lit "groq") ≡ false
      → str_eq provider (lit "ollama") ≡ true
      → Fits opts env provider model (use_ollama opts env model)
  unfolding use_ollama new_ollama
  use_ollama-Fits other other' other'' h = (
    rw (other, other', other'', h) refl,
    rw (other, other', other'') refl,
    named_canonical provider (lit "ollama") (λ e. cc) h,
    refl,
    (λ e. cc),
  )

  use_provider-Fits : Fits opts env provider model (use_provider provider opts env model)
  unfolding use_provider
  use_provider-Fits = elim (Bool-cases (is_openai provider)) [
    | inl o ↦ rw o (use_openai-Fits o)
    | inr other ↦ rw other (elim (Bool-cases (str_eq provider (lit "anthropic"))) [
      | inl a ↦ rw a (use_anthropic-Fits other a)
      | inr other' ↦ rw other' (elim (Bool-cases (str_eq provider (lit "groq"))) [
        | inl g ↦ rw g (use_groq-Fits other other' g)
        | inr other'' ↦ rw other'' (elim (Bool-cases (str_eq provider (lit "ollama"))) [
          | inl l ↦ rw l (use_ollama-Fits other other' other'' l)
          | inr unknown ↦ rw unknown (inl (rw (other, other', other'', unknown) refl))
        ])
      ])
    ])
  ]

-- Without a model of its own an agent gets one of the provider that is chosen by the options, the
-- environment or the model's name, with the model's trimmed name and a key that is not empty; it is
-- refused exactly where that provider is unknown, or needs a key and has none.
pub build_default_llm-Fits :
    (lower : ℕ → ℕ) (opts : ModelOptions) (env : Env)
    → Fits opts env
        (provider_of lower opts env)
        (model_of lower opts)
        (build_default_llm lower opts env)
unfolding build_default_llm
build_default_llm-Fits lower opts env =
    use_provider-Fits (provider_of lower opts env) opts env (model_of lower opts)
