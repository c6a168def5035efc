-- ===== src/Llms/OpenAi/Tests.antt =====
-- An API that answers with no choice, and the groq's default address.
use deepagent.Base.{ℕ, ◌≡◌, refl, none, some, List, []}
use deepagent.Base.Text.{lit, trim, is_space}
use deepagent.Agent.Types.{Result, ok}
use deepagent.Llms.OpenAi.{Client, ChatRequest, Choice, new, new_groq, invoke}

abbrev silent : Client → ChatRequest → ℕ → Result (List Choice) × ℕ
silent client request w = (ok [], w)

panics : (invoke silent (new (lit "key") (lit "gpt-4o")) [] [] 0).0 ≡ none
unfolding invoke
panics = refl

groq_url :
    (new_groq (lit "key") (lit "llama") (lit " ")).client.base_url
    ≡ some (lit "https://api.groq.com/openai/v1")
unfolding new_groq trim is_space
groq_url = refl
