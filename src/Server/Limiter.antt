-- ===== src/Server/Limiter.antt =====
-- `concurrencyLimiter` of cred-rotation-api/server/server.go: requests that come and go at the same
-- time, over one atomic counter. A step is one atomic operation of one request; between the
-- operations of a request any others may come.
pub mod Safety
use vault_secrets_broker.Prelude.{
  ℕ, zero, suc, ◌+◌, ◌-◌, ◌≡◌, Bool, true, false, List, [], ◌∷◌, ◌++◌, ltb, if◌then◌else◌,
}

-- Where a request stands: before `Add(1)`; after it, over the limit and before `Add(-1)`; in
-- `next.ServeHTTP`; answered with 503; answered by the handler, its deferred `Add(-1)` done.
pub data Phase : Type 0 where
  idle rejecting serving rejected served : Phase

pub record Gate : Type 0 where
  pub in_flight : ℕ
  pub requests : List Phase

-- The branch that a request takes on `n`, what its `Add(1)` gives back.
unfoldable pub admit : (limit n : ℕ) → Phase
admit limit n = if ltb limit n then rejecting else serving

pub data Step (limit : ℕ) (s t : Gate) : Type 0 where
  arrive :
      (before after : List Phase)
      → s.requests ≡ before ++ idle ∷ after
      → t ≡ record {
        in_flight = s.in_flight + 1;
        requests = before ++ admit limit (s.in_flight + 1) ∷ after;
      }
      → Step limit s t
  reject :
      (before after : List Phase)
      → s.requests ≡ before ++ rejecting ∷ after
      → t ≡ record { in_flight = s.in_flight - 1; requests = before ++ rejected ∷ after }
      → Step limit s t
  finish :
      (before after : List Phase)
      → s.requests ≡ before ++ serving ∷ after
      → t ≡ record { in_flight = s.in_flight - 1; requests = before ++ served ∷ after }
      → Step limit s t

abbrev pub all_idle : ℕ → List Phase
all_idle zero = []
all_idle (suc n) = idle ∷ all_idle n

abbrev pub opened : ℕ → Gate
opened n = record { in_flight = 0; requests = all_idle n }

-- Every order of the steps of `n` requests.
pub data Reach (limit n : ℕ) : Gate → Type 0 where
  new : Reach limit n (opened n)
  later : {t u : Gate} → Reach limit n t → Step limit t u → Reach limit n u
