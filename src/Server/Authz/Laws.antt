-- ===== src/Server/Authz/Laws.antt =====
-- Who gets past the allow-list, and what the audit line misses.
use mathlib.Core.List.{Memᴰ}
use vault_secrets_broker.Prelude.{
  String, ◌≡◌, refl, sym, true, false, none, some, List, [], ◌∷◌, arith, eq_iff, ◌==◌, string_eq,
  lookup, Bool-cases, inl, inr,
}
use vault_secrets_broker.Exec.{ok}
use vault_secrets_broker.Net.{World, logged, record_event}
use vault_secrets_broker.Server.{Request}
use vault_secrets_broker.Server.Authz.{
  client_cert_cn, Handler, Allowlist, key_of, forbidden, is_listed, cert_authz,
}

is_listed→mem : (cn : String) (l : List String) → is_listed cn l ≡ true → Memᴰ cn l
unfolding is_listed
is_listed→mem cn [] h = cc
is_listed→mem cn (a ∷ l) h = elim (Bool-cases (a == cn)) [
  | inl e ↦ Memᴰ.head (sym ((eq_iff a cn).0 e))
  | inr e ↦ Memᴰ.tail (is_listed→mem cn l (ground arith))
]

mem→is_listed : (cn : String) (l : List String) → Memᴰ cn l → is_listed cn l ≡ true
unfolding is_listed
mem→is_listed cn [] m = elim m [ ]
mem→is_listed cn (a ∷ l) (Memᴰ.head e) = rw ((eq_iff a cn).1 (sym e), is_listed) refl
mem→is_listed cn (a ∷ l) (Memᴰ.tail m) = ground (arith, mem→is_listed cn l m)

not-mem→is_listed : (cn : String) (l : List String) → ¬ Memᴰ cn l → is_listed cn l ≡ false
not-mem→is_listed cn l n = elim (Bool-cases (is_listed cn l)) [
  | inl e ↦ absurd (n (is_listed→mem cn l e))
  | inr e ↦ e
]

-- With an entry for the method and path of the request, the handler runs exactly as if there were
-- no allow-list when the client's Common Name is in the entry, and otherwise the answer is 403, the
-- handler does not run, and one warning is logged.
pub cert_authz_entry :
    (l : Allowlist) (next : Handler) (r : Request) (allowed : List String) (w : World)
    → lookup (key_of r) l ≡ some allowed
    → (Memᴰ (client_cert_cn r) allowed → cert_authz l next r w ≡ next r w)
      × (¬ Memᴰ (client_cert_cn r) allowed
          → cert_authz l next r w ≡ (
            ok forbidden,
            record_event
                (logged "WARN" "cert authz denied"
                  (("path", r.path) ∷ ("cert_cn", client_cert_cn r) ∷ [])
                  none)
                w,
          ))
cert_authz_entry [] next r allowed w h = absurd (unfold lookup in cc h)
cert_authz_entry (e ∷ l) next r allowed w h = (
  λ m. unfold cert_authz in rw (h, cert_authz, mem→is_listed _ _ m),
  λ n. unfold cert_authz in rw (h, cert_authz, not-mem→is_listed _ _ n),
)

-- With no entry for the method and path, whatever the certificate, the handler runs.
pub cert_authz_open :
    (l : Allowlist) (next : Handler) (r : Request) (w : World)
    → lookup (key_of r) l ≡ none
    → cert_authz l next r w ≡ next r w
unfolding cert_authz
cert_authz_open [] next r w h = refl
cert_authz_open (e ∷ l) next r w h = rw (h, cert_authz)
