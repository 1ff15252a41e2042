-- ===== src/Auth0/Sharing.antt =====
-- `managementToken` of cred-rotation-api/adapter/auth0/auth0.go, called by several goroutines. The
-- look under the read lock is one step, and what is done under the write lock, the request for a
-- token included, is another; between the two others may run.
pub mod Flight
use vault_secrets_broker.Prelude.{
  String, ◌≡◌, refl, ◌≢◌, true, Option, none, some, List, [], ◌∷◌, ◌++◌, arith, eq_iff, All,
  All-replace, ◌∙◌, ap,
}
use vault_secrets_broker.Exec.{Result, ok, err, panic, Exec, pure, ◌>>=◌}
use vault_secrets_broker.Net.{World, Env, Event, sent, HttpRequest}
use vault_secrets_broker.Auth0.{Auth0, is_fresh, cached, fetch_token, management_token}

-- A call: before its first look; after it, and before the write lock; done.
pub data Caller : Type 0 where
  looking : Caller
  waiting : Caller
  done : Result String → Caller

pub record Crowd : Type 0 where
  pub world : World
  pub callers : List Caller

module _ (env : Env) (a : Auth0) where
  -- the part of `managementToken` under the write lock
  unfoldable pub locked_token : Exec World String
  locked_token = do
    again ← cached env
    elim again [ some tok ↦ pure tok | none ↦ fetch_token env a ]

  abbrev pub looked : Result (Option String) → Caller
  looked (ok (some tok)) = done (ok tok)
  looked (ok none) = waiting
  looked (err e) = done (err e)
  looked (panic p) = done (panic p)

  pub data Step (s t : Crowd) : Type 0 where
    look :
        (before after : List Caller)
        → s.callers ≡ before ++ looking ∷ after
        → t ≡ record {
          world = (cached env s.world).1;
          callers = before ++ looked (cached env s.world).0 ∷ after;
        }
        → Step s t
    lock :
        (before after : List Caller)
        → s.callers ≡ before ++ waiting ∷ after
        → t ≡ record {
          world = (locked_token s.world).1;
          callers = before ++ done (locked_token s.world).0 ∷ after;
        }
        → Step s t

  pub data Run (s : Crowd) : Crowd → Type 0 where
    begin : Run s s
    later : {t u : Crowd} → Run s t → Step t u → Run s u

  -- One call alone is a look, and then the lock.
  management_token-locked :
      (w : World)
      → management_token env a w
        ≡ (cached env >>= λ first. elim first [ some tok ↦ pure tok | none ↦ locked_token ]) w
  unfolding management_token locked_token
  management_token-locked w = refl

-- The requests that were sent, the newest first.
unfoldable pub requests : List Event → List HttpRequest
requests [] = []
requests (sent r ∷ es) = r ∷ requests es
requests (_ ∷ es) = requests es

-- The cache holds a token that is fresh whenever it is looked at.
abbrev pub Fresh : Env → World → Type 0
Fresh env w =
    (w.cache.mgmt_token ≢ "")
    × ((es : List Event) → is_fresh w.cache.token_expiry (env.now es) ≡ true)

-- A call that has not ended, or that gave this token.
abbrev pub Serves : (token : String) → Caller → Type 0
Serves token looking = Unit
Serves token waiting = Unit
Serves token (done r) = r ≡ ok token

module _ (env : Env) (a : Auth0) where
  -- A look at a cache that is fresh: the token, nothing sent, and the cache as it was.
  pub cached-Fresh :
      (w : World)
      → Fresh env w
      → ((cached env w).0 ≡ ok (some w.cache.mgmt_token))
        × (requests (cached env w).1.trace ≡ requests w.trace)
        × ((cached env w).1.cache ≡ w.cache)
  unfolding cached requests
  cached-Fresh w (there, fresh) = ground (arith, eq_iff w.cache.mgmt_token "", fresh w.trace)

  pub locked_token-Fresh :
      (w : World)
      → Fresh env w
      → ((locked_token env a w).0 ≡ ok w.cache.mgmt_token)
        × (requests (locked_token env a w).1.trace ≡ requests w.trace)
        × ((locked_token env a w).1.cache ≡ w.cache)
  unfolding locked_token
  locked_token-Fresh w fresh = ground (arith, cached-Fresh w fresh)

  -- What a step from a fresh cache keeps.
  record Shared (w : World) (s : Crowd) : Type 0 where
    same_requests : requests s.world.trace ≡ requests w.trace
    same_cache : s.world.cache ≡ w.cache
    served : All (Serves w.cache.mgmt_token) s.callers

  pub still_Fresh : (w u : World) → u.cache ≡ w.cache → Fresh env w → Fresh env u
  still_Fresh w u e fresh = rw e fresh

  Step-Shared : (w : World) {s t : Crowd} → Fresh env w → Step env a s t → Shared w s → Shared w t
  Step-Shared w {s} fresh (look before after e f) inv =
      let (gave, quiet, kept) = cached-Fresh s.world (still_Fresh w s.world inv.same_cache fresh) in
      rw f (record {
        same_requests = quiet ∙ inv.same_requests;
        same_cache = kept ∙ inv.same_cache;
        served =
            All-replace (Serves w.cache.mgmt_token) before after looking _ (rw (← e) inv.served)
              (rw gave (ap (λ c. ok c.mgmt_token) inv.same_cache));
      })
  Step-Shared w {s} fresh (lock before after e f) inv =
      let (gave, quiet, kept) =
        locked_token-Fresh s.world (still_Fresh w s.world inv.same_cache fresh) in
      rw f (record {
        same_requests = quiet ∙ inv.same_requests;
        same_cache = kept ∙ inv.same_cache;
        served =
            All-replace (Serves w.cache.mgmt_token) before after waiting _ (rw (← e) inv.served)
              (gave ∙ ap (λ c. ok c.mgmt_token) inv.same_cache);
      })

  Run-Shared : (w : World) {s t : Crowd} → Fresh env w → Run env a s t → Shared w s → Shared w t
  Run-Shared w fresh begin inv = inv
  Run-Shared w fresh (later r step) inv = Step-Shared w fresh step (Run-Shared w fresh r inv)

  -- While the cache holds a token that stays fresh, any number of calls at the same time, also those
  -- that wait for the lock while another call has fetched it, send no request and all get that token.
  Run-requests :
      (s t : Crowd)
      → Fresh env s.world
      → All (Serves s.world.cache.mgmt_token) s.callers
      → Run env a s t
      → (requests t.world.trace ≡ requests s.world.trace)
        × All (Serves s.world.cache.mgmt_token) t.callers
  Run-requests s t fresh served r =
      let inv =
        Run-Shared s.world fresh r
          (record { same_requests = refl; same_cache = refl; served = served }) in
      (inv.same_requests, inv.served)
