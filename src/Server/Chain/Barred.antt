-- ===== src/Server/Chain/Barred.antt =====
-- What a client gets that no entry of the allow-list names.
use mathlib.Core.List.{Memᴰ}
use Prim.Native.String.{◌++◌}
use vault_secrets_broker.Prelude.{
  ℕ, String, ◌≡◌, refl, ◌⊎◌, inl, inr, ◌&&◌, ◌||◌, some, List, [], ◌∷◌, ltb, arith, eq_iff, ◌==◌,
  string_eq, lookup, Bool-cases, All, true, false,
}
use vault_secrets_broker.Exec.{Result, Result-cases, ok}
use vault_secrets_broker.Net.{World, Env, Event, sent, vault_written, vault_read}
use vault_secrets_broker.Vault.{Base64}
use vault_secrets_broker.Server.{Request, Response}
use vault_secrets_broker.Server.Handlers
use vault_secrets_broker.Server.Handlers.{Handlers}
use vault_secrets_broker.Server.Authz.{
  Handler, Allowlist, key_of, client_cert_cn, forbidden, denied, audit, cert_authz, request_logger,
}
use vault_secrets_broker.Server.Authz.Laws.{cert_authz_entry}
use vault_secrets_broker.Server.Routes.{Server, mux}
use vault_secrets_broker.Server.Chain.{overloaded, concurrency_limiter, serve}

-- What went to a provider or to Vault, the newest first.
unfoldable pub outgoing : List Event → List Event
outgoing [] = []
outgoing (sent r ∷ es) = sent r ∷ outgoing es
outgoing (vault_written token path d ∷ es) = vault_written token path d ∷ outgoing es
outgoing (vault_read token path ∷ es) = vault_read token path ∷ outgoing es
outgoing (_ ∷ es) = outgoing es

abbrev pub credential_keys : List String
credential_keys =
    "POST /v1/credentials/rotate" ∷ "POST /v1/credentials/revoke" ∷ "GET /v1/credentials/status"
    ∷ "HEAD /v1/credentials/status" ∷ []

abbrev pub Bars : Allowlist → (cn : String) → (key : String) → Type 0
Bars l cn key = (allowed : List String) × (lookup key l ≡ some allowed) × ¬ Memᴰ cn allowed

-- Nothing was sent, and no goroutine was started.
abbrev pub Quiet : World → Result Response × World → Type 0
Quiet w (r, u) = (outgoing u.trace ≡ outgoing w.trace) × (u.pending ≡ w.pending)

All-mem : (P : String → Type 0) (xs : List String) (x : String) → All P xs → Memᴰ x xs → P x
All-mem P [] x h m = elim m [ ]
All-mem P (y ∷ ys) x h (Memᴰ.head e) = rw e (h.0)
All-mem P (y ∷ ys) x h (Memᴰ.tail m) = All-mem P ys x (h.1) m

matched-key :
    (r : Request) (path method : String)
    → (r.path == path && r.method == method) ≡ true
    → key_of r ≡ method ++ " " ++ path
matched-key r path method e =
    let same_path : r.path ≡ path = (eq_iff r.path path).0 (ground arith) in
    let same_method : r.method ≡ method = (eq_iff r.method method).0 (ground arith) in
    rw (same_path, same_method) refl

health-Quiet : (r : Request) (w : World) → Quiet w (Handlers.health r w)
unfolding Handlers.health
health-Quiet r w = (refl, refl)

-- A client that the entry of its request does not name.
cert_authz-barred :
    (l : Allowlist) (next : Handler) (r : Request) (w : World)
    → Bars l (client_cert_cn r) (key_of r)
    → cert_authz l next r w ≡ denied r w
cert_authz-barred l next r w (allowed, found, absent) =
    (cert_authz_entry l next r allowed w found).1 absent

cert_authz-cases :
    (l : Allowlist) (next : Handler) (r : Request) (w : World)
    → (cert_authz l next r w ≡ next r w) ⊎ (cert_authz l next r w ≡ denied r w)
unfolding cert_authz
cert_authz-cases [] next r w = inl refl
cert_authz-cases (e ∷ l) next r w = ground arith

module _ (env : Env) (base64 : Base64) (unmatched : Handler) (h : Handlers) where
  unrouted :
      (r : Request)
      → (r.path == "/v1/credentials/rotate" && r.method == "POST") ≡ false
      → (r.path == "/v1/credentials/revoke" && r.method == "POST") ≡ false
      → (r.path == "/v1/credentials/status" && (r.method == "GET" || r.method == "HEAD")) ≡ false
      → (mux env base64 unmatched h r ≡ Handlers.health r)
        ⊎ (mux env base64 unmatched h r ≡ unmatched r)
  unfolding mux
  unrouted r e f g =
      elim (Bool-cases (r.path == "/healthz" && (r.method == "GET" || r.method == "HEAD"))) [
        | inl k ↦ inl (rw (e, f, g, k) refl)
        | inr k ↦ inr (rw (e, f, g, k) refl)
      ]

  -- A request is one of the credentials' routes, or is not handled by them.
  mux-cases :
      (r : Request)
      → Memᴰ (key_of r) credential_keys
        ⊎ ((mux env base64 unmatched h r ≡ Handlers.health r)
            ⊎ (mux env base64 unmatched h r ≡ unmatched r))
  unfolding mux
  mux-cases r = elim (Bool-cases (r.path == "/v1/credentials/rotate" && r.method == "POST")) [
    | inl e ↦ inl (Memᴰ.head (matched-key r _ _ e))
    | inr e ↦ elim (Bool-cases (r.path == "/v1/credentials/revoke" && r.method == "POST")) [
      | inl f ↦ inl (Memᴰ.tail (Memᴰ.head (matched-key r _ _ f)))
      | inr f ↦ elim (Bool-cases (r.path == "/v1/credentials/status" && r.method == "GET")) [
        | inl g ↦ inl (Memᴰ.tail (Memᴰ.tail (Memᴰ.head (matched-key r _ _ g))))
        | inr g ↦ elim (Bool-cases (r.path == "/v1/credentials/status" && r.method == "HEAD")) [
          | inl k ↦ inl (Memᴰ.tail (Memᴰ.tail (Memᴰ.tail (Memᴰ.head (matched-key r _ _ k)))))
          | inr k ↦ inr (unrouted r e f (ground arith))
        ]
      ]
    ]
  ]

  cert_authz-Quiet :
      (l : Allowlist) (r : Request) (w : World)
      → ((q : Request) (v : World) → Quiet v (unmatched q v))
      → All (Bars l (client_cert_cn r)) credential_keys
      → Quiet w (cert_authz l (mux env base64 unmatched h) r w)
  unfolding outgoing
  cert_authz-Quiet l r w quiet bars =
      let next = mux env base64 unmatched h in
      elim (mux-cases r) [
        | inl m ↦
            rw
              (cert_authz-barred l next r w
                (All-mem (Bars l (client_cert_cn r)) credential_keys (key_of r) bars m))
              (refl, refl)
        | inr other ↦ elim (cert_authz-cases l next r w) [
          | inl e ↦ rw e (elim other [ inl f ↦ rw f (health-Quiet r w) | inr f ↦ rw f (quiet r w) ])
          | inr e ↦ rw e (refl, refl)
        ]
      ]

-- The answer is 403 or 503, and the newest event is the audit line with it.
abbrev pub Refused : Request → Result Response × World → Type 0
Refused r (res, u) =
    (resp : Response) × (before : List Event) × (res ≡ ok resp)
    × ((resp.code ≡ 403) ⊎ (resp.code ≡ 503))
    × (u.trace ≡ audit r resp ∷ before)

audited-Quiet :
    (next : Handler) (r : Request) (w : World)
    → Quiet w (next r w)
    → Quiet w (request_logger next r w)
unfolding request_logger outgoing
audited-Quiet next r w h = elim (Result-cases (next r w).0) [
  | inl (resp, e) ↦ rw e h
  | inr (inl (x, e)) ↦ rw e h
  | inr (inr (p, e)) ↦ rw e h
]

limited-Quiet :
    (limit n : ℕ) (next : Handler) (r : Request) (w : World)
    → Quiet w (next r w)
    → Quiet w (concurrency_limiter limit n next r w)
unfolding concurrency_limiter outgoing
limited-Quiet limit n next r w h = ground arith

denied-Refused :
    (limit n : ℕ) (next : Handler) (r : Request) (w : World)
    → next r w ≡ denied r w
    → Refused r (request_logger (concurrency_limiter limit n next) r w)
unfolding request_logger concurrency_limiter
denied-Refused limit n next r w e = elim (Bool-cases (ltb limit n)) [
  | inl f ↦ rw f (overloaded, _, refl, inr refl, refl)
  | inr f ↦ rw (f, e) (forbidden, _, refl, inl refl, refl)
]

module _ (env : Env) (base64 : Base64) (unmatched : Handler) where
  -- Where the allow-list has an entry for each of the credentials' routes, with HEAD for the status,
  -- and none of them names the client: nothing that the client asks for sends anything to a provider
  -- or to Vault, or starts a deletion; and a request to one of those routes is answered with 403 or
  -- 503 and audited with that answer. What `http.ServeMux` answers by itself sends nothing.
  pub serve-barred :
      (s : Server) (n : ℕ) (r : Request) (w : World)
      → ((q : Request) (v : World) → Quiet v (unmatched q v))
      → All (Bars s.allowlist (client_cert_cn r)) credential_keys
      → Quiet w (serve env base64 unmatched s n r w)
        × (Memᴰ (key_of r) credential_keys → Refused r (serve env base64 unmatched s n r w))
  unfolding serve
  serve-barred s n r w quiet bars =
      let routes = mux env base64 unmatched s.handlers in
      let next = cert_authz s.allowlist routes in
      (
        audited-Quiet (concurrency_limiter s.limit n next) r w (
            limited-Quiet s.limit n next r w
              (cert_authz-Quiet env base64 unmatched s.handlers s.allowlist r w quiet bars)),
        λ m. denied-Refused s.limit n next r w (
            cert_authz-barred s.allowlist routes r w
              (All-mem (Bars s.allowlist (client_cert_cn r)) credential_keys (key_of r) bars m)),
      )
