-- ===== src/Adapter/Shared/Provider.antt =====
-- A provider as its documentation describes it: what of it follows from the requests that it was
-- sent and from its answers, and what an adapter may conclude.
use vault_secrets_broker.Prelude.{
  String, Bool, lookup, none, some, true, false, ◌&&◌, ◌||◌, ◌≡◌, List, [], ◌∷◌, ◌++◌, ◌==◌, nat_eq,
  string_eq, if◌then◌else◌, All, arith,
}
use vault_secrets_broker.Exec.{ok}
use vault_secrets_broker.Net.{
  Env, Event, sent, logged, World, HttpRequest, HttpResponse, Reply, response, refused,
}
use vault_secrets_broker.Adapter.{Adapter, RevokeRequest, CredentialStatus}

-- The answers by which a provider says that a resource is not there any more.
unfoldable pub says_gone : Reply → Bool
says_gone (response resp) = resp.status == 200 || resp.status == 204 || resp.status == 404
says_gone (refused e) = false

-- The resource at this URL was deleted, and nothing was created after that.
unfoldable pub deleted : Env → (url : String) → List Event → Bool
unfolding says_gone
deleted env url [] = false
deleted env url (sent r ∷ es) =
    let before = deleted env url es in
    if r.method == "POST"
    then false
    else if r.method == "DELETE" && r.url == url
    then says_gone (env.respond es r) || before
    else before
deleted env url (_ ∷ es) = deleted env url es

-- A line of the log has an error, and this argument.
unfoldable pub reported : (key value : String) → List Event → Bool
unfolding lookup
reported key value [] = false
reported key value (logged level message args (some e) ∷ es) =
    let before = reported key value es in
    elim (lookup key args) [ none ↦ before | some v ↦ v == value || before ]
reported key value (_ ∷ es) = reported key value es

-- A provider that answers no GET of a deleted resource but with 404.
abbrev pub Forgets : Env → Type 0
Forgets env =
    (es : List Event) (r : HttpRequest) (resp : HttpResponse)
    → r.method ≡ "GET"
    → deleted env r.url es ≡ true
    → env.respond es r ≡ response resp
    → resp.status ≡ 404

abbrev pub NoCreation : Event → Type 0
NoCreation (sent r) = (r.method == "POST") ≡ false
NoCreation _ = Unit {0}

pub deleted-append :
    (env : Env) (url : String) (later es : List Event)
    → All NoCreation later
    → deleted env url es ≡ true
    → deleted env url (later ++ es) ≡ true
unfolding deleted
deleted-append env url [] es h d = d
deleted-append env url (sent r ∷ later) es (h, hs) d =
    ground (arith, deleted-append env url later es hs d)
deleted-append env url (Event.vault_written t p f ∷ later) es (h, hs) d =
    deleted-append env url later es hs d
deleted-append env url (e ∷ later) es (h, hs) d = deleted-append env url later es hs d

-- An adapter whose credentials are resources of their own, each at a URL.
pub record Resources (env : Env) (a : Adapter) : Type 0 where
  pub url : String → String
  pub revoke-deleted :
      (req : RevokeRequest) (w : World)
      → (a.revoke req w).0 ≡ ok tt
      → deleted env (url req.credential_id) (a.revoke req w).1.trace ≡ true
  pub status-deleted :
      (id : String) (w : World) (s : CredentialStatus)
      → Forgets env
      → deleted env (url id) w.trace ≡ true
      → (a.status id w).0 ≡ ok s
      → s.active ≡ false

-- A credential that was revoked is never reported as active, until something is created.
pub status-revoke :
    (env : Env) (a : Adapter)
    → Resources env a
    → Forgets env
    → (req : RevokeRequest) (w u : World) (later : List Event) (s : CredentialStatus)
    → (a.revoke req w).0 ≡ ok tt
    → u.trace ≡ later ++ (a.revoke req w).1.trace
    → All NoCreation later
    → (a.status req.credential_id u).0 ≡ ok s
    → s.active ≡ false
status-revoke env a p forgets req w u later s revoked_ok e none_created given =
    let still : deleted env (p.url req.credential_id) u.trace ≡ true = rw e (
      deleted-append env (p.url req.credential_id) later _ none_created
        (p.revoke-deleted req w revoked_ok)) in
    p.status-deleted req.credential_id u s forgets still given
