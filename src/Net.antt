-- ===== src/Net.antt =====
-- The process around the program: what it sends and asks for, in order, and what comes back.
-- Every answer of the environment (the providers over `http.Client.Do`, Vault over the API of
-- github.com/hashicorp/vault/api, the clock, `rand.Read`, the semaphore of golang.org/x/sync) is a
-- function of all that happened before, so that an environment is any behaviour whatever.
-- A context that has expired shows as a refusal.
pub mod Url
use vault_secrets_broker.Prelude.{ℕ, String, Bool, Option, none, some, List, [], ◌∷◌}
use vault_secrets_broker.Prelude.Int.{ℤ, pos}
use vault_secrets_broker.Json.{Json, Fields, Payload}
use vault_secrets_broker.Exec.{Error, Result, ok, err, Exec}

-- A `time.Time`, in nanoseconds; the zero time is 0.
abbrev pub Time : Type 0
Time = ℤ

pub data Body : Type 0 where
  empty_body : Body
  json_body : Json → Body
  -- url.Values, which `Encode` prints
  form_body : List (String × String) → Body
  -- an object that `fmt.Sprintf` writes, each value with %q
  quoted_body : List (String × String) → Body

pub record HttpRequest : Type 0 where
  pub method : String
  pub url : String
  pub headers : List (String × String)
  pub body : Body

-- The status and the body, as far as `io.LimitReader` lets it through.
pub record HttpResponse : Type 0 where
  pub status : ℕ
  pub body : Payload

pub data Reply : Type 0 where
  response : HttpResponse → Reply
  refused : Error → Reply

-- A `*vaultapi.Secret` that is not nil; `auth` is the client token, if there is an Auth.
pub record Secret : Type 0 where
  pub content : Fields
  pub auth : Option String

pub data VaultReply : Type 0 where
  secret : Secret → VaultReply
  nil_secret : VaultReply
  refused : Error → VaultReply

pub data Event : Type 0 where
  sent : HttpRequest → Event
  vault_written : (token path : String) → Fields → Event
  vault_read : (token path : String) → Event
  clock_read : Event
  random_read : Event
  waited : (interval : Time) → Event
  slot_taken : (adapter : String) → Event
  slot_released : (adapter : String) → Event
  -- an entry of a secrets engine's storage: read, put, and put with an error
  storage_read : (key : String) → Event
  stored : (key : String) → Json → Event
  store_failed : (key : String) → Json → Event
  -- level, message, arguments, and the error whose text is the argument "err"
  logged : String → String → List (String × String) → Option Error → Event

-- A goroutine that deletes an old credential: launched, counted by the adapter's wait group, and
-- not finished.
pub record Cleanup : Type 0 where
  pub adapter : String
  pub provider_id : String
  pub old_id : String

pub record TokenCache : Type 0 where
  pub mgmt_token : String
  pub token_expiry : Time

-- `trace` has the newest event first; `token` is the Vault client's; `cache` is the Auth0 client's.
pub record World : Type 0 where
  pub trace : List Event
  pub pending : List Cleanup
  pub token : String
  pub cache : TokenCache

abbrev pub no_cache : TokenCache
no_cache = record { mgmt_token = ""; token_expiry = pos 0 }

abbrev pub start : World
start = record { trace = []; pending = []; token = ""; cache = no_cache }

pub record Env : Type 0 where
  pub respond : List Event → HttpRequest → Reply
  -- the error of `http.NewRequest` on a method and a URL that it does not take
  pub bad_request : String → String → Option Error
  pub vault_write : List Event → (token path : String) → Fields → VaultReply
  pub vault_read : List Event → (token path : String) → VaultReply
  pub now : List Event → Time
  -- `rand.Read` of so many bytes
  pub random : List Event → ℕ → Result (List ℕ)
  -- `Acquire(ctx, 1)`: the context's error if it ends first
  pub acquire : List Event → (adapter : String) → Option Error
  -- how many goroutines of the wait group end before the context does
  pub deadline : List Event → (adapter : String) → ℕ
  -- `Time.Format`
  pub format : (layout : String) → Time → String
  -- `time.Parse(time.RFC3339, s)`
  pub parse_time : String → Option Time
  -- the document that a text is, for `json.Unmarshal`
  pub parse_json : String → Payload

abbrev pub record_event : Event → World → World
record_event e w = record w { trace = e ∷ w.trace }

module _ (env : Env) where
  abbrev pub send : HttpRequest → Exec World HttpResponse
  send req w = elim (env.respond w.trace req) [
    | response r ↦ (ok r, record_event (sent req) w)
    | refused e ↦ (err e, record_event (sent req) w)
  ]

  abbrev pub new_request : HttpRequest → Result HttpRequest
  new_request req = elim (env.bad_request req.method req.url) [ none ↦ ok req | some e ↦ err e ]

  abbrev pub write_logical : String → Fields → Exec World (Option Secret)
  write_logical path d w = elim (env.vault_write w.trace w.token path d) [
    | secret s ↦ (ok (some s), record_event (vault_written w.token path d) w)
    | nil_secret ↦ (ok none, record_event (vault_written w.token path d) w)
    | refused e ↦ (err e, record_event (vault_written w.token path d) w)
  ]

  abbrev pub read_logical : String → Exec World (Option Secret)
  read_logical path w = elim (env.vault_read w.trace w.token path) [
    | secret s ↦ (ok (some s), record_event (vault_read w.token path) w)
    | nil_secret ↦ (ok none, record_event (vault_read w.token path) w)
    | refused e ↦ (err e, record_event (vault_read w.token path) w)
  ]

  abbrev pub time_now : Exec World Time
  time_now w = (ok (env.now w.trace), record_event clock_read w)

  abbrev pub read_random : ℕ → Exec World (List ℕ)
  read_random n w = (env.random w.trace n, record_event random_read w)

  abbrev pub acquire_slot : String → Exec World Unit
  acquire_slot name w = elim (env.acquire w.trace name) [
    | none ↦ (ok tt, record_event (slot_taken name) w)
    | some e ↦ (err e, w)
  ]

abbrev pub release_slot : String → Exec World Unit
release_slot name w = (ok tt, record_event (slot_released name) w)

-- `cleanupWg.Add(1)` and the `go` statement
abbrev pub launch : Cleanup → Exec World Unit
launch c w = (ok tt, record w { pending = c ∷ w.pending })

abbrev pub log : String → String → List (String × String) → Option Error → Exec World Unit
log level message args e w = (ok tt, record_event (logged level message args e) w)

abbrev pub set_token : String → Exec World Unit
set_token t w = (ok tt, record w { token = t })
