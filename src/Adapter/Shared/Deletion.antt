-- ===== src/Adapter/Shared/Deletion.antt =====
-- What an adapter takes for a deletion that was done: the provider's answer to one request.
use vault_secrets_broker.Prelude.{ℕ, ◌≡◌, refl, ◌⊎◌, inl, inr, Bool, true, none}
use vault_secrets_broker.Exec.{Error}
use vault_secrets_broker.Net.{Env, World, HttpRequest, HttpResponse, Reply, response, refused}

pub Reply-cases :
    (r : Reply) → ((resp : HttpResponse) × (r ≡ response resp)) ⊎ ((e : Error) × (r ≡ refused e))
Reply-cases (response resp) = inl (resp, refl)
Reply-cases (refused e) = inr (e, refl)

-- The request can be made, and the provider answers it with one of the codes.
abbrev pub Accepted : Env → World → HttpRequest → (codes : ℕ → Bool) → Type 0
Accepted env w req codes =
    (env.bad_request req.method req.url ≡ none)
    × (resp : HttpResponse) × (env.respond w.trace req ≡ response resp)
    × (codes resp.status ≡ true)
