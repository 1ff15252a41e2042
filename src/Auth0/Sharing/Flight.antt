-- ===== src/Auth0/Sharing/Flight.antt =====
-- `managementToken` of cred-rotation-api/adapter/auth0/auth0.go: how many requests for a token any
-- number of calls at the same time sends.
use vault_secrets_broker.Prelude.{
  ℕ, ◌+◌, ◌≤◌, String, ◌≡◌, refl, ◌⊎◌, inl, inr, none, some, List, ◌∷◌, ◌++◌, length, arith, count,
  count-middle, ap, ◌∙◌,
}
use vault_secrets_broker.Exec.{Result, ok, err, panic, Result-cases}
use vault_secrets_broker.Net.{World, Env}
use vault_secrets_broker.Auth0.{Auth0, cached, fetch_token}
use vault_secrets_broker.Auth0.Sharing.{
  Caller, looking, waiting, done, Crowd, locked_token, looked, look, lock, Run, begin, later,
  requests, Fresh, cached-Fresh, locked_token-Fresh, still_Fresh,
}

-- 1 for a call that has failed.
abbrev pub failure : Caller → ℕ
failure looking = 0
failure waiting = 0
failure (done (ok tok)) = 0
failure (done (err e)) = 1
failure (done (panic p)) = 1

unfoldable pub sent_requests : World → ℕ
unfolding requests
sent_requests w = length (requests w.trace)

unfoldable pub failures : List Caller → ℕ
unfolding count
failures cs = count failure cs

failures-replace :
    (before after : List Caller) (x y : Caller)
    → failures (before ++ x ∷ after) + failure y ≡ failures (before ++ y ∷ after) + failure x
unfolding failures
failures-replace before after x y =
    omega (arith, count-middle failure before x after, count-middle failure before y after)

failures-step :
    {cs ds : List Caller} (before after : List Caller) (x y : Caller)
    → cs ≡ before ++ x ∷ after
    → ds ≡ before ++ y ∷ after
    → failure x ≡ 0
    → failures ds ≡ failures cs + failure y
failures-step before after x y e f h =
    rw e (rw f (omega (arith, h, failures-replace before after x y)))

module _ (env : Env) (a : Auth0) where
  fetch_token-sent : (w : World) → sent_requests (fetch_token env a w).1 ≤ sent_requests w + 1
  unfolding sent_requests requests fetch_token
  fetch_token-sent w = ground arith

  -- A look sends nothing and does not fail.
  cached-sent :
      (w : World)
      → (((cached env w).0 ≡ ok none) ⊎ ((cached env w).0 ≡ ok (some w.cache.mgmt_token)))
        × (sent_requests (cached env w).1 ≡ sent_requests w)
  unfolding sent_requests requests cached
  cached-sent w = ground arith

  -- A token that is fetched is fresh whenever it is looked at later.
  abbrev pub Lasting : Type 0
  Lasting =
      (w : World) (tok : String)
      → (fetch_token env a w).0 ≡ ok tok
      → Fresh env (fetch_token env a w).1

  -- The lock: nothing is sent, or a request, and then the cache is fresh or the call has failed.
  Locked : World → Result String × World → Type 0
  Locked w (r, u) =
      ((failure (done r) ≡ 0) × (sent_requests u ≡ sent_requests w))
      ⊎ ((sent_requests u ≤ sent_requests w + 1) × ((failure (done r) ≡ 1) ⊎ Fresh env u))

  fetch_token-Locked : Lasting → (w : World) → Locked w (fetch_token env a w)
  unfolding Locked
  fetch_token-Locked lasting w =
      let r = (fetch_token env a w).0 in
      inr (
        fetch_token-sent w,
        elim (Result-cases r) [
          | inl (tok, e) ↦ inr (lasting w tok e)
          | inr (inl (x, e)) ↦ inl (rw e refl)
          | inr (inr (p, e)) ↦ inl (rw e refl)
        ],
      )

  locked_token-Locked : Lasting → (w : World) → Locked w (locked_token env a w)
  unfolding Locked locked_token
  locked_token-Locked lasting w =
      let (looks, same) = cached-sent w in
      elim looks [
        | inl e ↦ rw e (rw (← same) (fetch_token-Locked lasting (cached env w).1))
        | inr e ↦ rw e (inl (refl, same))
      ]

  -- What holds of the requests sent, from `s` to `t`.
  Flight : Crowd → Crowd → Type 0
  Flight s t =
      (Fresh env t.world
        × (sent_requests t.world + failures s.callers
            ≤ sent_requests s.world + 1 + failures t.callers))
      ⊎ (sent_requests t.world + failures s.callers ≤ sent_requests s.world + failures t.callers)

  failure-looked : (w : World) → failure (looked env a (cached env w).0) ≡ 0
  failure-looked w =
      let (looks, same) = cached-sent w in elim looks [ inl e ↦ rw e refl | inr e ↦ rw e refl ]

  Flight-look :
      (s t u : Crowd)
      → Flight s t
      → u.world ≡ (cached env t.world).1
      → failures u.callers ≡ failures t.callers + 0
      → Flight s u
  unfolding Flight
  Flight-look s t u (inl (fresh, h)) e f =
      let (gave, quiet, kept) = cached-Fresh env a t.world fresh in
      let same = (cached-sent t.world).1 in
      inl (
        rw e (still_Fresh env a t.world (cached env t.world).1 kept fresh),
        rw e (omega (arith, same, f, h)),
      )
  Flight-look s t u (inr h) e f =
      let same = (cached-sent t.world).1 in inr (rw e (omega (arith, same, f, h)))

  Flight-lock :
      Lasting
      → (s t u : Crowd) → Flight s t
      → u.world ≡ (locked_token env a t.world).1
      → failures u.callers ≡ failures t.callers + failure (done (locked_token env a t.world).0)
      → Flight s u
  unfolding Flight Locked sent_requests
  Flight-lock lasting s t u (inl (fresh, h)) e f =
      let (gave, quiet, kept) = locked_token-Fresh env a t.world fresh in
      let none_failed = ap (λ r. failure (done r)) gave in
      let same = ap length quiet in
      inl (
        rw e (still_Fresh env a t.world (locked_token env a t.world).1 kept fresh),
        rw e (omega (arith, same, f, h, none_failed)),
      )
  Flight-lock lasting s t u (inr h) e f = elim (locked_token-Locked lasting t.world) [
    | inl (none_failed, same) ↦ inr (rw e (omega (arith, same, f, h, none_failed)))
    | inr (one, inl failed) ↦ inr (rw e (omega (arith, one, f, h, failed)))
    | inr (one, inr fresh) ↦ inl (rw e fresh, rw e (omega (arith, one, f, h)))
  ]

  Run-Flight : Lasting → (s t : Crowd) → Run env a s t → Flight s t
  unfolding Flight
  Run-Flight lasting s t begin = inr (omega arith)
  Run-Flight lasting s u (later {t} r (look before after e f)) =
      Flight-look s t u (Run-Flight lasting s t r) (ap (λ c. c.world) f) (
        failures-step before after looking _ e (ap (λ c. c.callers) f) refl
        ∙ ap (λ n. failures t.callers + n) (failure-looked t.world))
  Run-Flight lasting s u (later {t} r (lock before after e f)) =
      Flight-lock lasting s t u (Run-Flight lasting s t r) (ap (λ c. c.world) f)
        (failures-step before after waiting _ e (ap (λ c. c.callers) f) refl)

  -- Where a token that is fetched stays fresh, any number of calls at the same time, in any order of
  -- their steps, send together at most one request for a token, besides one for each call that
  -- failed.
  pub single_flight :
      Lasting
      → (s t : Crowd) → Run env a s t
      → sent_requests t.world + failures s.callers ≤ sent_requests s.world + 1 + failures t.callers
  unfolding Flight
  single_flight lasting s t r = elim (Run-Flight lasting s t r) [
    | inl (fresh, h) ↦ h
    | inr h ↦ omega (arith, h)
  ]
