-- ===== src/Chaos/Stranded.antt =====
-- A second call of Block before Unblock.
use vault_secrets_broker.Prelude.{
  ℕ, ◌<◌, ◌≡◌, ◌≢◌, ◌⊎◌, inl, inr, refl, List, ◌∷◌, ◌++◌, length, ◌==◌, Bool, Bool-cases, false,
  some, arith, nat_eq,
}
use mathlib.Core.Path.{subst}
use vault_secrets_broker.Chaos.Requests.{
  request_at, request_at-lt, request_at-append, request_at-others,
}
use vault_secrets_broker.Chaos.{
  Faults, blocked, timed_out, entered, Phase, MockProvider, is_closed, control, Control,
  count_outcome, outcome, Step, arrive, enter, released, context_done, answered, controlled, Reach,
  begin, later, set_latency, set_err_rate, set_rate429, block, unblock, reset, latency_set,
  err_rate_set, rate429_set, blocked_all, unblocked_all, cleared,
}

-- A channel that is open, and that the provider does not know any more.
abbrev pub Stranded : {F : Type 0} → ℕ → MockProvider F → Type 0
Stranded ch mp = (ch < mp.next) × (mp.block_ch ≢ some ch) × (is_closed ch mp.closed ≡ false)

module _ {F : Type 0} where
  unblock-Stranded : (ch : ℕ) (mp : MockProvider F) → Stranded ch mp → Stranded ch (unblock mp)
  unfolding unblock is_closed
  unblock-Stranded ch mp (a, b, c) = ground arith

  block-Stranded : (ch : ℕ) (mp : MockProvider F) → Stranded ch mp → Stranded ch (block mp)
  unfolding block
  block-Stranded ch mp (a, b, c) = ground arith

  count_outcome-Stranded :
      (ch : ℕ) (p : Phase F) (mp : MockProvider F)
      → Stranded ch mp
      → Stranded ch (count_outcome p mp)
  unfolding count_outcome
  count_outcome-Stranded ch Phase.counted mp h = h
  count_outcome-Stranded ch (Phase.blocked c f) mp h = h
  count_outcome-Stranded ch (Phase.rolling f) mp h = h
  count_outcome-Stranded ch Phase.timed_out mp h = h
  count_outcome-Stranded ch Phase.rejected429 mp h = h
  count_outcome-Stranded ch Phase.server_error mp h = h
  count_outcome-Stranded ch Phase.success mp h = h

  count_outcome-requests :
      (p : Phase F) (mp : MockProvider F) → (count_outcome p mp).requests ≡ mp.requests
  unfolding count_outcome
  count_outcome-requests Phase.counted mp = refl
  count_outcome-requests (Phase.blocked c f) mp = refl
  count_outcome-requests (Phase.rolling f) mp = refl
  count_outcome-requests Phase.timed_out mp = refl
  count_outcome-requests Phase.rejected429 mp = refl
  count_outcome-requests Phase.server_error mp = refl
  count_outcome-requests Phase.success mp = refl

module _ {F : Type 0} (zero_rate : F) (below : F → F → Bool) (plus : F → F → F) where
  control-Stranded :
      (ch : ℕ) (c : Control F) (mp : MockProvider F)
      → Stranded ch mp
      → Stranded ch (control zero_rate below plus c mp)
  unfolding control set_latency set_err_rate set_rate429 reset
  control-Stranded ch (latency_set d) mp h = h
  control-Stranded ch (err_rate_set r) mp h = h
  control-Stranded ch (rate429_set r) mp h = h
  control-Stranded ch blocked_all mp h = block-Stranded ch mp h
  control-Stranded ch unblocked_all mp h = unblock-Stranded ch mp h
  control-Stranded ch cleared mp h = unblock-Stranded ch _ h

  Step-Stranded :
      {s t : MockProvider F} (ch : ℕ)
      → Step zero_rate below plus s t
      → Stranded ch s
      → Stranded ch t
  Step-Stranded ch (arrive e) h = rw e h
  Step-Stranded ch (enter before after e f) h = rw f h
  Step-Stranded ch (released before after c g e o f) h = rw f h
  Step-Stranded ch (context_done before after c g e f) h = rw f h
  Step-Stranded ch (answered before after g roll e f) h =
      rw f (count_outcome-Stranded ch (outcome zero_rate below plus roll g) _ h)
  Step-Stranded {s} ch (controlled c f) h = rw f (control-Stranded ch c s h)

  Reach-Stranded :
      {s t : MockProvider F} (ch : ℕ)
      → Reach zero_rate below plus s t
      → Stranded ch s
      → Stranded ch t
  Reach-Stranded ch begin h = h
  Reach-Stranded ch (later r step) h = Step-Stranded ch step (Reach-Stranded ch r h)

  control-requests :
      (c : Control F) (mp : MockProvider F)
      → (control zero_rate below plus c mp).requests ≡ mp.requests
  unfolding control set_latency set_err_rate set_rate429 block unblock reset
  control-requests (latency_set d) mp = refl
  control-requests (err_rate_set r) mp = refl
  control-requests (rate429_set r) mp = refl
  control-requests blocked_all mp = refl
  control-requests unblocked_all mp = ground arith
  control-requests cleared mp = ground arith

  -- The request waits on the channel, or it was answered when its context ended.
  abbrev pub Waiting : (k ch : ℕ) (f : Faults F) → List (Phase F) → Type 0
  Waiting k ch f ps = (request_at k ps ≡ some (blocked ch f)) ⊎ (request_at k ps ≡ some timed_out)

  -- Where some other phase is replaced, it is that of another request.
  Waiting-others :
      (k ch : ℕ) (f : Faults F) (before after : List (Phase F)) (p q : Phase F)
      → p ≢ blocked ch f
      → p ≢ timed_out
      → Waiting k ch f (before ++ p ∷ after)
      → Waiting k ch f (before ++ q ∷ after)
  Waiting-others k ch f before after p q not_blocked not_out h =
      elim (Bool-cases (length after == k)) [
        | inl e ↦
            let own : request_at k (before ++ p ∷ after) ≡ some p =
              ground (arith, request_at-append before after p) in
            absurd (elim h [ inl g ↦ not_blocked (ground arith) | inr g ↦ not_out (ground arith) ])
        | inr e ↦
            let same : request_at k (before ++ q ∷ after) ≡ request_at k (before ++ p ∷ after) =
              request_at-others k before after p q (ground arith) in
            rw same h
      ]

  Waiting-out :
      (k ch c : ℕ) (f g : Faults F) (before after : List (Phase F))
      → Waiting k ch f (before ++ blocked c g ∷ after)
      → Waiting k ch f (before ++ timed_out ∷ after)
  Waiting-out k ch c f g before after h = elim (Bool-cases (length after == k)) [
    | inl e ↦ inr (ground (arith, request_at-append before after timed_out))
    | inr e ↦
        let same : request_at k (before ++ timed_out ∷ after)
            ≡ request_at k (before ++ blocked c g ∷ after) =
          request_at-others k before after (blocked c g) timed_out (ground arith) in
        rw same h
  ]

  Waiting-arrive :
      (k ch : ℕ) (f : Faults F) (ps : List (Phase F))
      → Waiting k ch f ps
      → Waiting k ch f (Phase.counted ∷ ps)
  unfolding request_at
  Waiting-arrive k ch f ps (inl e) = inl (ground (arith, request_at-lt k ps (blocked ch f) e))
  Waiting-arrive k ch f ps (inr e) = inr (ground (arith, request_at-lt k ps timed_out e))

  Step-Waiting :
      {s t : MockProvider F} (k ch : ℕ) (f : Faults F)
      → Step zero_rate below plus s t
      → Stranded ch s
      → Waiting k ch f s.requests
      → Waiting k ch f t.requests
  Step-Waiting {s} k ch f (arrive e) lost h = rw e (Waiting-arrive k ch f s.requests h)
  Step-Waiting {s} k ch f (enter before after e g) lost h = rw g (
      Waiting-others k ch f before after Phase.counted (entered s) (λ x. cc x) (λ x. cc x)
        (subst (Waiting k ch f) e h))
  Step-Waiting k ch f (released before after c g e is_open i) lost h = rw i (
      Waiting-others k ch f before after (blocked c g) (Phase.rolling g) (λ x. ground arith)
        (λ x. cc x) (subst (Waiting k ch f) e h))
  Step-Waiting k ch f (context_done before after c g e i) lost h =
      rw i (Waiting-out k ch c f g before after (subst (Waiting k ch f) e h))
  Step-Waiting k ch f (answered before after g roll e i) lost h =
      rw (i, count_outcome-requests (outcome zero_rate below plus roll g) _)
        (Waiting-others k ch f before after (Phase.rolling g) (outcome zero_rate below plus roll g)
          (λ x. cc x) (λ x. cc x) (subst (Waiting k ch f) e h))
  Step-Waiting {s} k ch f (controlled c i) lost h = rw (i, control-requests c s) h

  Reach-Waiting :
      {s t : MockProvider F} (k ch : ℕ) (f : Faults F)
      → Reach zero_rate below plus s t
      → Stranded ch s
      → Waiting k ch f s.requests
      → Waiting k ch f t.requests
  Reach-Waiting k ch f begin lost h = h
  Reach-Waiting k ch f (later r step) lost h =
      Step-Waiting k ch f step (Reach-Stranded ch r lost) (Reach-Waiting k ch f r lost h)

  -- If Block is called while a request waits on the open channel that the provider holds, and then
  -- Unblock, then nothing ever lets that request go on to an answer of the server: after any further
  -- steps, calls of Unblock and Reset among them, its channel is not closed, and it still waits on it,
  -- or it was given up when its own context ended.
  pub unblock-block :
      (mp t : MockProvider F) (k ch : ℕ) (f : Faults F)
      → mp.block_ch ≡ some ch
      → ch < mp.next
      → is_closed ch mp.closed ≡ false
      → request_at k mp.requests ≡ some (blocked ch f)
      → Reach zero_rate below plus (unblock (block mp)) t
      → (is_closed ch t.closed ≡ false)
        × ((request_at k t.requests ≡ some (blocked ch f))
            ⊎ (request_at k t.requests ≡ some timed_out))
  unfolding block
  unblock-block mp t k ch f e new is_open waits r =
      let lost = unblock-Stranded ch (block mp) (omega arith, ground arith, is_open) in
      ((Reach-Stranded ch r lost).2, Reach-Waiting k ch f r lost (inl (unfold unblock in waits)))
