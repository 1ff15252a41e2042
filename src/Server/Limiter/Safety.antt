-- ===== src/Server/Limiter/Safety.antt =====
-- What holds of the limiter in every reachable state.
use vault_secrets_broker.Prelude.{
  ℕ, zero, suc, ◌+◌, ◌-◌, ◌≤◌, ◌<◌, ◌≡◌, refl, ◌↔◌, List, [], ◌∷◌, ◌++◌, arith, All, dec_lt, count,
  count-middle,
}
use vault_secrets_broker.Server.Limiter.{
  Phase, idle, rejecting, serving, rejected, served, Gate, admit, Step, arrive, reject, finish,
  Reach, new, later, all_idle, opened,
}

abbrev pub is_serving : Phase → ℕ
is_serving serving = 1
is_serving _ = 0

abbrev pub is_rejecting : Phase → ℕ
is_rejecting rejecting = 1
is_rejecting _ = 0

-- The counter is the number of requests between their two atomic operations, and no more than the
-- limit are in the handler.
pub record Inv (limit : ℕ) (s : Gate) : Type 0 where
  pub counted : s.in_flight ≡ count is_serving s.requests + count is_rejecting s.requests
  pub bounded : count is_serving s.requests ≤ limit

module _ (limit : ℕ) (before after : List Phase) where
  -- One request goes from `p` to `q`, the others stay.
  abbrev At : (p : Phase) (n : ℕ) → Type 0
  At p n = Inv limit (record { in_flight = n; requests = before ++ p ∷ after })

  Inv-move :
      (p q : Phase) (n m : ℕ)
      → At p n
      → m + is_serving p + is_rejecting p ≡ n + is_serving q + is_rejecting q
      → (is_serving p < is_serving q → m ≤ limit)
      → At q m
  Inv-move p q n m inv moved room = record {
    counted = omega (
      arith,
      inv.counted,
      count-middle is_serving before p after,
      count-middle is_serving before q after,
      count-middle is_rejecting before p after,
      count-middle is_rejecting before q after,
    );
    bounded = elim (dec_lt (is_serving p) (is_serving q)) [
      | yes more ↦ omega (
        arith,
        room more,
        inv.counted,
        count-middle is_serving before p after,
        count-middle is_serving before q after,
        count-middle is_rejecting before p after,
      )
      | no same ↦ omega (
        arith,
        inv.bounded,
        count-middle is_serving before p after,
        count-middle is_serving before q after,
      )
    ];
  }

  Inv-arrive : (n : ℕ) → At idle n → At (admit limit (n + 1)) (n + 1)
  Inv-arrive n inv =
      Inv-move idle (admit limit (n + 1)) n (n + 1) inv (unfold admit in ground arith)
        (unfold admit in ground arith)

  Inv-reject : (n : ℕ) → At rejecting n → At rejected (n - 1)
  Inv-reject n inv =
      Inv-move rejecting rejected n (n - 1) inv
        (omega (arith, inv.counted, count-middle is_rejecting before rejecting after))
        (λ h. absurd (omega arith))

  Inv-finish : (n : ℕ) → At serving n → At served (n - 1)
  Inv-finish n inv =
      Inv-move serving served n (n - 1) inv
        (omega (arith, inv.counted, count-middle is_serving before serving after))
        (λ h. absurd (omega arith))

Step-Inv : {limit : ℕ} {s t : Gate} → Step limit s t → Inv limit s → Inv limit t
Step-Inv {limit} {s} (arrive before after e f) inv =
    rw f (Inv-arrive limit before after s.in_flight (rw (← e) inv))
Step-Inv {limit} {s} (reject before after e f) inv =
    rw f (Inv-reject limit before after s.in_flight (rw (← e) inv))
Step-Inv {limit} {s} (finish before after e f) inv =
    rw f (Inv-finish limit before after s.in_flight (rw (← e) inv))

count-all_idle :
    (n : ℕ) → (count is_serving (all_idle n) ≡ 0) × (count is_rejecting (all_idle n) ≡ 0)
unfolding count
count-all_idle zero = (refl, refl)
count-all_idle (suc n) = omega (arith, count-all_idle n)

Inv-opened : (limit n : ℕ) → Inv limit (opened n)
Inv-opened limit n = omega (arith, (count-all_idle n).0, (count-all_idle n).1)

-- Whatever the number of requests and however their steps interleave, the counter is the number of
-- requests that are in the handler or on their way out with 503, and at most the limit are in the
-- handler.
pub Reach-Inv : {limit n : ℕ} {s : Gate} → Reach limit n s → Inv limit s
Reach-Inv {limit} {n} new = Inv-opened limit n
Reach-Inv (later r st) = Step-Inv st (Reach-Inv r)

abbrev pub IsAnswered : Phase → Type 0
IsAnswered rejected = Unit
IsAnswered served = Unit
IsAnswered _ = ⊥

count-answered :
    (ps : List Phase) → All IsAnswered ps → (count is_serving ps ≡ 0) × (count is_rejecting ps ≡ 0)
unfolding count
count-answered [] h = (refl, refl)
count-answered (rejected ∷ ps) (_, h) = omega (arith, count-answered ps h)
count-answered (served ∷ ps) (_, h) = omega (arith, count-answered ps h)
count-answered (idle ∷ ps) (a, h) = absurd a
count-answered (serving ∷ ps) (a, h) = absurd a
count-answered (rejecting ∷ ps) (a, h) = absurd a

-- Once every request has been answered, the counter is 0: no slot leaks.
in_flight-released :
    {limit n : ℕ} {s : Gate} → Reach limit n s → All IsAnswered s.requests → s.in_flight ≡ 0
in_flight-released {s} r h =
    omega (
      arith,
      (Reach-Inv r).counted,
      (count-answered s.requests h).0,
      (count-answered s.requests h).1,
    )

-- A request that arrives in a reachable state is turned away exactly when the requests in the handler
-- and those on their way out with 503 are together at least the limit.
admit-rejecting_iff :
    {limit n : ℕ} {s : Gate}
    → Reach limit n s
    → (admit limit (s.in_flight + 1) ≡ rejecting)
      ↔ (limit ≤ count is_serving s.requests + count is_rejecting s.requests)
unfolding admit
admit-rejecting_iff {limit} {s} r =
    (λ h. ground (arith, (Reach-Inv r).counted), λ h. ground (arith, (Reach-Inv r).counted))
