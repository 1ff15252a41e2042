-- ===== src/Chaos/Counters.antt =====
-- The counters of the mock provider.
use vault_secrets_broker.Prelude.{
  ℕ, ◌+◌, ◌≡◌, refl, Bool, List, ◌∷◌, ◌++◌, arith, count, count-middle, Option-cases, inl, inr, ◌⊎◌,
}
use vault_secrets_broker.Chaos.{
  Faults, Phase, counted, blocked, rolling, timed_out, rejected429, server_error, success,
  MockProvider, new_mock_provider, entered, count_outcome, outcome, control, Control, Step, arrive,
  enter, released, context_done, answered, controlled, Reach, begin, later, set_latency,
  set_err_rate, set_rate429, block, unblock, reset, latency_set, err_rate_set, rate429_set,
  blocked_all, unblocked_all, cleared,
}

module _ {F : Type 0} where
  -- a request that is not yet answered
  abbrev pub is_open : Phase F → ℕ
  is_open counted = 1
  is_open (blocked ch f) = 1
  is_open (rolling f) = 1
  is_open _ = 0

  abbrev pub is_timed_out : Phase F → ℕ
  is_timed_out timed_out = 1
  is_timed_out _ = 0

  abbrev pub is_rejected : Phase F → ℕ
  is_rejected rejected429 = 1
  is_rejected _ = 0

  abbrev pub is_error : Phase F → ℕ
  is_error server_error = 1
  is_error _ = 0

  abbrev pub is_success : Phase F → ℕ
  is_success success = 1
  is_success _ = 0

  -- Each counter is the number of the requests that it counts.
  pub record Accounts (mp : MockProvider F) : Type 0 where
    pub total :
        mp.total_requests
        ≡ count is_open mp.requests
          + count is_timed_out mp.requests
          + mp.rejected
          + mp.server_errors
          + mp.success_responses
    pub rejections : mp.rejected ≡ count is_rejected mp.requests
    pub errors : mp.server_errors ≡ count is_error mp.requests
    pub successes : mp.success_responses ≡ count is_success mp.requests

  -- One request goes from `p` to `q`.
  module _ (before after : List (Phase F)) (p q : Phase F) where
    moved :
        (f : Phase F → ℕ)
        → count f (before ++ q ∷ after) + f p ≡ count f (before ++ p ∷ after) + f q
    moved f = omega (arith, count-middle f before p after, count-middle f before q after)

    move-Accounts :
        (mp nx : MockProvider F)
        → mp.requests ≡ before ++ p ∷ after
        → nx.requests ≡ before ++ q ∷ after
        → nx.total_requests ≡ mp.total_requests
        → is_open p ≡ 1
        → is_timed_out p + is_rejected p + is_error p + is_success p ≡ 0
        → is_open q + is_timed_out q + is_rejected q + is_error q + is_success q ≡ 1
        → nx.rejected ≡ mp.rejected + is_rejected q
        → nx.server_errors ≡ mp.server_errors + is_error q
        → nx.success_responses ≡ mp.success_responses + is_success q
        → Accounts mp
        → Accounts nx
    move-Accounts mp nx e f same was none_of one_of g h k inv = record {
      total = rw f (omega (arith, moved is_open, moved is_timed_out, all));
      rejections = rw f (omega (arith, moved is_rejected, all));
      errors = rw f (omega (arith, moved is_error, all));
      successes = rw f (omega (arith, moved is_success, all));
    }
      where
        all : Accounts (record mp { requests = before ++ p ∷ after })
        all = rw (← e) inv

  entered-open :
      (mp : MockProvider F)
      → (is_open (entered mp) ≡ 1)
        × (is_timed_out (entered mp)
              + is_rejected (entered mp)
              + is_error (entered mp)
              + is_success (entered mp)
            ≡ 0)
  unfolding entered
  entered-open mp = elim (Option-cases mp.block_ch) [
    | inl e ↦ rw e (refl, refl)
    | inr (ch, e) ↦ rw e (refl, refl)
  ]

-- The parts of the state that the counters are about.
abbrev Tally : {F : Type 0} → MockProvider F → MockProvider F → Type 0
Tally mp nx =
    (nx.requests ≡ mp.requests)
    × (nx.total_requests ≡ mp.total_requests)
    × (nx.rejected ≡ mp.rejected)
    × (nx.server_errors ≡ mp.server_errors)
    × (nx.success_responses ≡ mp.success_responses)

Tally-Accounts : {F : Type 0} (mp nx : MockProvider F) → Tally mp nx → Accounts mp → Accounts nx
Tally-Accounts mp nx (a, b, c, d, e) inv = record {
  total = rw a (omega (arith, inv.total));
  rejections = rw a (omega (arith, inv.rejections));
  errors = rw a (omega (arith, inv.errors));
  successes = rw a (omega (arith, inv.successes));
}

unblock-Tally : {F : Type 0} (mp : MockProvider F) → Tally mp (unblock mp)
unfolding unblock
unblock-Tally mp = elim (Option-cases mp.block_ch) [
  | inl e ↦ rw e (refl, refl, refl, refl, refl)
  | inr (ch, e) ↦ rw e (refl, refl, refl, refl, refl)
]

module _ {F : Type 0} (zero_rate : F) (below : F → F → Bool) (plus : F → F → F) where
  control-Tally :
      (c : Control F) (mp : MockProvider F) → Tally mp (control zero_rate below plus c mp)
  unfolding control set_latency set_err_rate set_rate429 block reset
  control-Tally (latency_set d) mp = (refl, refl, refl, refl, refl)
  control-Tally (err_rate_set r) mp = (refl, refl, refl, refl, refl)
  control-Tally (rate429_set r) mp = (refl, refl, refl, refl, refl)
  control-Tally blocked_all mp = (refl, refl, refl, refl, refl)
  control-Tally unblocked_all mp = unblock-Tally mp
  control-Tally cleared mp = unblock-Tally _

  outcome-cases :
      (roll : F) (f : Faults F)
      → (outcome zero_rate below plus roll f ≡ rejected429)
        ⊎ ((outcome zero_rate below plus roll f ≡ server_error)
            ⊎ (outcome zero_rate below plus roll f ≡ success))
  unfolding outcome
  outcome-cases roll f = ground arith

  answer-Accounts :
      (mp : MockProvider F) (before after : List (Phase F)) (f : Faults F) (roll : F)
      → mp.requests ≡ before ++ rolling f ∷ after
      → Accounts mp
      → Accounts (
          count_outcome
            (outcome zero_rate below plus roll f)
            (record mp { requests = before ++ outcome zero_rate below plus roll f ∷ after }))
  unfolding count_outcome
  answer-Accounts mp before after f roll e inv = elim (outcome-cases roll f) [
    | inl o ↦ rw o (
        move-Accounts before after (rolling f) rejected429 mp _ e refl refl refl refl refl refl
          (omega arith) (omega arith) inv)
    | inr (inl o) ↦ rw o (
        move-Accounts before after (rolling f) server_error mp _ e refl refl refl refl refl
          (omega arith) refl (omega arith) inv)
    | inr (inr o) ↦ rw o (
        move-Accounts before after (rolling f) success mp _ e refl refl refl refl refl (omega arith)
          (omega arith) refl inv)
  ]

  Step-Accounts : {s t : MockProvider F} → Step zero_rate below plus s t → Accounts s → Accounts t
  unfolding count
  Step-Accounts (arrive e) inv = rw e (record {
    total = omega (arith, inv.total);
    rejections = omega (arith, inv.rejections);
    errors = omega (arith, inv.errors);
    successes = omega (arith, inv.successes);
  })
  Step-Accounts {s} (enter before after e f) inv =
      let (opened, other) = entered-open s in
      rw f (
        move-Accounts before after counted (entered s) s _ e refl refl refl refl
          (omega (arith, opened, other)) (omega (arith, other)) (omega (arith, other))
          (omega (arith, other)) inv)
  Step-Accounts {s} (released before after ch g e c f) inv = rw f (
      move-Accounts before after (blocked ch g) (rolling g) s _ e refl refl refl refl refl
        (omega arith) (omega arith) (omega arith) inv)
  Step-Accounts {s} (context_done before after ch g e f) inv = rw f (
      move-Accounts before after (blocked ch g) timed_out s _ e refl refl refl refl refl
        (omega arith) (omega arith) (omega arith) inv)
  Step-Accounts {s} (answered before after g roll e f) inv =
      rw f (answer-Accounts s before after g roll e inv)
  Step-Accounts {s} (controlled c f) inv = rw f (Tally-Accounts s _ (control-Tally c s) inv)

  Reach-from : {s t : MockProvider F} → Reach zero_rate below plus s t → Accounts s → Accounts t
  Reach-from begin inv = inv
  Reach-from (later r step) inv = Step-Accounts step (Reach-from r inv)

  -- From a new provider, however requests, their answers and calls of its methods interleave: each
  -- counter is the number of the requests that it counts, and every request counted in TotalRequests
  -- is still open, has timed out, or is counted once in one of the other three.
  pub Reach-Accounts :
      {t : MockProvider F} → Reach zero_rate below plus (new_mock_provider zero_rate) t → Accounts t
  unfolding new_mock_provider count
  Reach-Accounts r =
      Reach-from r (record { total = refl; rejections = refl; errors = refl; successes = refl })
