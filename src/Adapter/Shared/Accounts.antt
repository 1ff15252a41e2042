-- ===== src/Adapter/Shared/Accounts.antt =====
-- What a `Drain` that is not cut short leaves of each goroutine that was pending.
use mathlib.Core.Path.{subst}
use vault_secrets_broker.Prelude.{
  ℕ, zero, suc, ◌≤◌, String, true, ◌≡◌, refl, ap, inl, inr, none, some, List, [], ◌∷◌, arith, ◌==◌,
  string_eq, Option-cases, Bool-cases, All, lookup_nonempty, eq_iff, ◌∙◌,
}
use vault_secrets_broker.Exec.{Result, ok, err, panic, Exec}
use vault_secrets_broker.Adapter.{RotateRequest, Rotated}
use vault_secrets_broker.Adapter.Shared.Contract.{IsRotation, launched}
use vault_secrets_broker.Net.{World, Cleanup, Event}
use vault_secrets_broker.Adapter.Shared.{next_pending, drain_within}
use vault_secrets_broker.Adapter.Shared.Drain.{count, next_pending-some}

-- A goroutine of this adapter has this property.
abbrev pub Of : (name : String) → (Cleanup → Type 0) → Cleanup → Type 0
Of name Q c = (c.adapter == name) ≡ true → Q c

module _ (name : String) (Q : Cleanup → Type 0) where
  All-Of-none : (cs : List Cleanup) → next_pending name cs ≡ none → All (Of name Q) cs
  unfolding next_pending
  All-Of-none [] e = tt
  All-Of-none (c ∷ cs) e = elim (Option-cases (next_pending name cs)) [
    | inl f ↦ ((λ g. absurd (ground arith)), All-Of-none cs f)
    | inr (x, f) ↦ ((λ g. absurd (ground arith)), absurd (ground arith))
  ]

  All-Of-some :
      (cs : List Cleanup) (d : Cleanup) (ds : List Cleanup)
      → next_pending name cs ≡ some (d, ds)
      → Q d
      → All (Of name Q) ds
      → All (Of name Q) cs
  unfolding next_pending
  All-Of-some [] d ds e q h = cc
  All-Of-some (c ∷ cs) d ds e q h = elim (Bool-cases (c.adapter == name)) [
    | inl f ↦
        let same : c ≡ d = ground arith in
        let rest : cs ≡ ds = ground arith in (λ g. rw same q, rw rest h)
    | inr f ↦ elim (Option-cases (next_pending name cs)) [
      | inl g ↦ absurd (ground arith)
      | inr ((x, xs), g) ↦
          let found : next_pending name cs ≡ some (d, xs) = ground arith in
          let rest : ds ≡ c ∷ xs = ground arith in
          let (own, others) : All (Of name Q) (c ∷ xs) = subst (λ l. All (Of name Q) l) rest h in
          (own, All-Of-some cs d xs found q others)
    ]
  ]

-- `P c es` says of the trace `es` what became of the goroutine `c`; it stays true.
module _ (name : String) (cleanup : Cleanup → Exec World Unit) (P : Cleanup → List Event → Type 0)
    (quiet : (c : Cleanup) (w : World) → (cleanup c w).1.pending ≡ w.pending)
    (ends : (c : Cleanup) (w : World) → P c (cleanup c w).1.trace)
    (stays : (c d : Cleanup) (w : World) → P d w.trace → P d (cleanup c w).1.trace) where
  drain_within-stays :
      (k : ℕ) (d : Cleanup) (w : World) → P d w.trace → P d (drain_within name cleanup k w).1.trace
  unfolding drain_within
  drain_within-stays zero d w h = elim (Option-cases (next_pending name w.pending)) [
    | inl e ↦ rw (e, drain_within) h
    | inr (x, e) ↦ rw (e, drain_within) h
  ]
  drain_within-stays (suc k) d w h = elim (Option-cases (next_pending name w.pending)) [
    | inl e ↦ rw (e, drain_within) h
    | inr ((c, cs), e) ↦
        rw (e, drain_within)
          (drain_within-stays k d (cleanup c (record w { pending = cs })).1
            (stays c d (record w { pending = cs }) h))
  ]

  -- Where enough goroutines end before the context does, each of the adapter's is accounted for.
  pub drain_within-each :
      (k : ℕ) (w : World)
      → count name w.pending ≤ k
      → All (Of name (λ c. P c (drain_within name cleanup k w).1.trace)) w.pending
  unfolding drain_within
  drain_within-each zero w h = elim (Option-cases (next_pending name w.pending)) [
    | inl e ↦ All-Of-none name _ w.pending e
    | inr ((c, cs), e) ↦ absurd (omega (arith, next_pending-some name w.pending c cs e))
  ]
  drain_within-each (suc k) w h = elim (Option-cases (next_pending name w.pending)) [
    | inl e ↦ All-Of-none name _ w.pending e
    | inr ((c, cs), e) ↦
        let v = record w { pending = cs } in
        let u = (cleanup c v).1 in
        let s = next_pending-some name w.pending c cs e in
        let same : u.pending ≡ cs = quiet c v in
        let rest = drain_within-each k u (rw same (omega (arith, s.0))) in
        let final = (drain_within name cleanup k u).1.trace in
        let others = subst (λ l. All (Of name (λ d. P d final)) l) same rest in
        rw (e, drain_within)
          (All-Of-some name (λ d. P d final) w.pending c cs e (drain_within-stays k c u (ends c v))
            others)
  ]

-- A rotation that succeeds has launched the deletion of the old credential that its request names.
rotation-pending :
    (name old_key : String) (req : RotateRequest) (w : World) (res : Result Rotated) (u : World)
    (old : String) (r : Rotated)
    → IsRotation name old_key req w (res, u)
    → res ≡ ok r
    → lookup_nonempty old_key req.meta ≡ some old
    → u.pending ≡ record { adapter = name; provider_id = req.provider_id; old_id = old } ∷ w.pending
rotation-pending name old_key req w (ok x) u old r (balanced, outcome) e named =
    outcome.2 ∙ ap (λ o. launched name req.provider_id o w.pending) named
rotation-pending name old_key req w (err x) u old r h e named = cc
rotation-pending name old_key req w (panic x) u old r h e named = cc

-- What holds of each of the adapter's goroutines holds of that one.
pub rotation-old :
    (Q : Cleanup → Type 0) (name old_key : String) (req : RotateRequest) (w : World)
    (m : Result Rotated × World) (old : String) (r : Rotated)
    → IsRotation name old_key req w m
    → m.0 ≡ ok r
    → lookup_nonempty old_key req.meta ≡ some old
    → All (Of name Q) m.1.pending
    → Q (record { adapter = name; provider_id = req.provider_id; old_id = old })
rotation-old Q name old_key req w (res, u) old r h e named each =
    (subst (λ cs. All (Of name Q) cs) (rotation-pending name old_key req w res u old r h e named)
        each).0
      ((eq_iff name name).1 refl)
