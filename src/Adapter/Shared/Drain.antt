-- ===== src/Adapter/Shared/Drain.antt =====
-- What `Drain` waits for.
use vault_secrets_broker.Prelude.{
  ℕ, zero, suc, ◌≤◌, ◌<◌, String, ◌≡◌, ◌≢◌, refl, ap, inl, inr, none, some, List, [], ◌∷◌, arith,
  ◌==◌, string_eq, if◌then◌else◌, Option-cases,
}
use vault_secrets_broker.Exec.{msg, ok, err, panic, Exec}
use vault_secrets_broker.Net.{World, Cleanup}
use vault_secrets_broker.Adapter.Shared.{next_pending, drain_within}

-- How many goroutines of the adapter are pending.
unfoldable pub count : String → List Cleanup → ℕ
count name [] = 0
count name (c ∷ cs) = if c.adapter == name then suc (count name cs) else count name cs

-- Those of the other adapters.
unfoldable pub others : String → List Cleanup → List Cleanup
others name [] = []
others name (c ∷ cs) = if c.adapter == name then others name cs else c ∷ others name cs

next_pending-none :
    (name : String) (cs : List Cleanup)
    → next_pending name cs ≡ none
    → (count name cs ≡ 0) × (others name cs ≡ cs)
unfolding next_pending count others
next_pending-none name [] e = (refl, refl)
next_pending-none name (c ∷ cs) e = elim (Option-cases (next_pending name cs)) [
  | inl f ↦ ground (arith, next_pending-none name cs f)
  | inr (x, f) ↦ ground arith
]

pub next_pending-some :
    (name : String) (cs : List Cleanup) (d : Cleanup) (ds : List Cleanup)
    → next_pending name cs ≡ some (d, ds)
    → (count name cs ≡ suc (count name ds)) × (others name ds ≡ others name cs)
unfolding next_pending count others
next_pending-some name [] d ds e = cc
next_pending-some name (c ∷ cs) d ds e = elim (Option-cases (next_pending name cs)) [
  | inl f ↦ ground arith
  | inr (x, f) ↦ ground (arith, next_pending-some name cs x.0 x.1 f)
]

module _ (name : String) (cleanup : Cleanup → Exec World Unit)
    (quiet : (c : Cleanup) (w : World) → (cleanup c w).1.pending ≡ w.pending) where
  -- Where enough goroutines end before the context does, the adapter's are all run, and those of the
  -- other adapters stay.
  drain_within_complete :
      (k : ℕ) (w : World)
      → count name w.pending ≤ k
      → ((drain_within name cleanup k w).0 ≡ ok tt)
        × ((drain_within name cleanup k w).1.pending ≡ others name w.pending)
  unfolding drain_within
  drain_within_complete zero w h = elim (Option-cases (next_pending name w.pending)) [
    | inl e ↦ ground (arith, next_pending-none name w.pending e)
    | inr ((c, cs), e) ↦ absurd (omega (arith, next_pending-some name w.pending c cs e))
  ]
  drain_within_complete (suc k) w h = elim (Option-cases (next_pending name w.pending)) [
    | inl e ↦ ground (arith, next_pending-none name w.pending e)
    | inr ((c, cs), e) ↦
        let u = (cleanup c (record w { pending = cs })).1 in
        let q = quiet c (record w { pending = cs }) in
        let s = next_pending-some name w.pending c cs e in
        ground (arith, drain_within_complete k u (rw q (omega (arith, s.0))), s, ap (others name) q)
  ]

  -- Where the context ends first, `Drain` reports it.
  drain_within_timeout :
      (k : ℕ) (w : World)
      → k < count name w.pending
      → (drain_within name cleanup k w).0 ≡ err (msg "context deadline exceeded")
  unfolding drain_within
  drain_within_timeout zero w h = elim (Option-cases (next_pending name w.pending)) [
    | inl e ↦ absurd (omega (arith, next_pending-none name w.pending e))
    | inr ((c, cs), e) ↦ ground arith
  ]
  drain_within_timeout (suc k) w h = elim (Option-cases (next_pending name w.pending)) [
    | inl e ↦ absurd (omega (arith, next_pending-none name w.pending e))
    | inr ((c, cs), e) ↦
        let u = (cleanup c (record w { pending = cs })).1 in
        let q = quiet c (record w { pending = cs }) in
        let s = next_pending-some name w.pending c cs e in
        ground (arith, drain_within_timeout k u (rw q (omega (arith, s.0))))
  ]

-- `Drain` ends, or reports the end of the context.
pub drain_within-no_panic :
    (name : String) (cleanup : Cleanup → Exec World Unit) (k : ℕ) (w : World) (p : String)
    → (drain_within name cleanup k w).0 ≢ panic p
unfolding drain_within
drain_within-no_panic name cleanup zero w p e = elim (Option-cases (next_pending name w.pending)) [
  | inl f ↦ absurd (ground arith)
  | inr (x, f) ↦ absurd (ground arith)
]
drain_within-no_panic name cleanup (suc k) w p e =
    elim (Option-cases (next_pending name w.pending)) [
      | inl f ↦ absurd (ground arith)
      | inr ((c, cs), f) ↦
          drain_within-no_panic name cleanup k (cleanup c (record w { pending = cs })).1 p
            (ground arith)
    ]
