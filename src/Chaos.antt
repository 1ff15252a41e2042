-- ===== src/Chaos.antt =====
-- cred-rotation-api/chaos/mock_provider.go: the test server that injects faults, with requests and
-- calls of its methods that come at the same time. A step is one operation of one request, or one
-- method under its mutex. `F` is float64 with its order and its sum; a channel is a number, and
-- `make` gives the next one.
pub mod Counters
pub mod Stranded
pub mod Requests
use vault_secrets_broker.Prelude.{
  ℕ, ◌+◌, String, ◌≡◌, Bool, true, false, ◌||◌, Option, none, some, List, [], ◌∷◌, ◌++◌, ◌==◌,
  nat_eq, string_eq, if◌then◌else◌,
}
use vault_secrets_broker.Prelude.Int.{pos}
use vault_secrets_broker.Json.{Json, end, field, str, obj}
use vault_secrets_broker.Net.{Time}

-- The faults that a request copies under the mutex.
pub record Faults (F : Type 0) : Type 0 where
  pub latency : Time
  pub err_rate : F
  pub rate429 : F

-- Where a request stands: counted in TotalRequests; blocked on a channel; on its way to the roll;
-- answered with 504, 429, 500 or by the handler.
pub data Phase (F : Type 0) : Type 0 where
  counted : Phase F
  blocked : (channel : ℕ) → Faults F → Phase F
  rolling : Faults F → Phase F
  timed_out : Phase F
  rejected429 : Phase F
  server_error : Phase F
  success : Phase F

-- `blockCh` is `block`; `closed` has the channels that were closed, `next` is the next channel.
pub record MockProvider (F : Type 0) : Type 0 where
  pub faults : Faults F
  pub block_ch : Option ℕ
  pub closed : List ℕ
  pub next : ℕ
  pub total_requests : ℕ
  pub rejected : ℕ
  pub server_errors : ℕ
  pub success_responses : ℕ
  pub requests : List (Phase F)

unfoldable pub is_closed : (channel : ℕ) → List ℕ → Bool
is_closed channel [] = false
is_closed channel (c ∷ cs) = c == channel || is_closed channel cs

module _ {F : Type 0} (zero_rate : F) where
  abbrev pub no_faults : Faults F
  no_faults = record { latency = pos 0; err_rate = zero_rate; rate429 = zero_rate }

  unfoldable pub new_mock_provider : MockProvider F
  new_mock_provider = record {
    faults = no_faults;
    block_ch = none;
    closed = [];
    next = 0;
    total_requests = 0;
    rejected = 0;
    server_errors = 0;
    success_responses = 0;
    requests = [];
  }

module _ {F : Type 0} where
  unfoldable pub set_latency : Time → MockProvider F → MockProvider F
  set_latency d mp = record mp { faults = record mp.faults { latency = d } }

  unfoldable pub set_err_rate : F → MockProvider F → MockProvider F
  set_err_rate r mp = record mp { faults = record mp.faults { err_rate = r } }

  unfoldable pub set_rate429 : F → MockProvider F → MockProvider F
  set_rate429 r mp = record mp { faults = record mp.faults { rate429 = r } }

  unfoldable pub block : MockProvider F → MockProvider F
  block mp = record mp { block_ch = some mp.next; next = mp.next + 1 }

  unfoldable pub unblock : MockProvider F → MockProvider F
  unblock mp = elim mp.block_ch [
    | none ↦ mp
    | some ch ↦ record mp { block_ch = none; closed = ch ∷ mp.closed }
  ]

  unfoldable pub reset : (zero_rate : F) → MockProvider F → MockProvider F
  reset zero_rate mp = unblock (record mp { faults = no_faults zero_rate })

  -- what a request finds under the mutex
  unfoldable pub entered : MockProvider F → Phase F
  entered mp = elim mp.block_ch [ none ↦ rolling mp.faults | some ch ↦ blocked ch mp.faults ]

  -- the counter of an outcome
  unfoldable pub count_outcome : Phase F → MockProvider F → MockProvider F
  count_outcome rejected429 mp = record mp { rejected = mp.rejected + 1 }
  count_outcome server_error mp = record mp { server_errors = mp.server_errors + 1 }
  count_outcome success mp = record mp { success_responses = mp.success_responses + 1 }
  count_outcome _ mp = mp

-- One call of a method of the provider.
pub data Control (F : Type 0) : Type 0 where
  latency_set : Time → Control F
  err_rate_set : F → Control F
  rate429_set : F → Control F
  blocked_all : Control F
  unblocked_all : Control F
  cleared : Control F

module _ {F : Type 0} (zero_rate : F) (below : F → F → Bool) (plus : F → F → F) where
  -- the answer to a roll of `rand.Float64()`
  unfoldable pub outcome : (roll : F) → Faults F → Phase F
  outcome roll f =
      if below roll f.rate429
      then rejected429
      else if below roll (plus f.rate429 f.err_rate)
      then server_error
      else success

  unfoldable pub control : Control F → MockProvider F → MockProvider F
  unfolding set_latency set_err_rate set_rate429 block unblock reset
  control (latency_set d) mp = set_latency d mp
  control (err_rate_set r) mp = set_err_rate r mp
  control (rate429_set r) mp = set_rate429 r mp
  control blocked_all mp = block mp
  control unblocked_all mp = unblock mp
  control cleared mp = reset zero_rate mp

  pub data Step (s t : MockProvider F) : Type 0 where
    arrive :
        t ≡ record s { total_requests = s.total_requests + 1; requests = counted ∷ s.requests }
        → Step s t
    enter :
        (before after : List (Phase F))
        → s.requests ≡ before ++ counted ∷ after
        → t ≡ record s { requests = before ++ entered s ∷ after }
        → Step s t
    released :
        (before after : List (Phase F)) (ch : ℕ) (f : Faults F)
        → s.requests ≡ before ++ blocked ch f ∷ after
        → is_closed ch s.closed ≡ true
        → t ≡ record s { requests = before ++ rolling f ∷ after }
        → Step s t
    context_done :
        (before after : List (Phase F)) (ch : ℕ) (f : Faults F)
        → s.requests ≡ before ++ blocked ch f ∷ after
        → t ≡ record s { requests = before ++ timed_out ∷ after }
        → Step s t
    answered :
        (before after : List (Phase F)) (f : Faults F) (roll : F)
        → s.requests ≡ before ++ rolling f ∷ after
        → t
          ≡ count_outcome
              (outcome roll f)
              (record s { requests = before ++ outcome roll f ∷ after })
        → Step s t
    controlled : (c : Control F) → t ≡ control c s → Step s t

  -- Every order of the steps.
  pub data Reach (s : MockProvider F) : MockProvider F → Type 0 where
    begin : Reach s s
    later : {t u : MockProvider F} → Reach s t → Step t u → Reach s u

-- `defaultHandler`: the code, and the body that a method other than DELETE gets.
unfoldable pub default_handler : (method : String) → ℕ × Option Json
default_handler method = if method == "DELETE" then (204, none) else (
  200,
  some (
      obj (
        field "id" (str "mock-cred-id")
          (field "token" (str "mock-token-value") (field "key" (str "mock-key-value") end)))),
)
