-- ===== src/Adapter/Shared/Contract.antt =====
-- What the server relies on when it calls `Rotate` of an adapter that cleans up in the background.
use vault_secrets_broker.Prelude.{
  ℕ, String, ◌≡◌, refl, ◌≢◌, ◌⊎◌, inl, inr, Option, none, some, List, [], ◌∷◌, arith,
  lookup_nonempty, ap, ◌∙◌, Option-cases,
}
use vault_secrets_broker.Exec.{
  Error, Result, ok, err, panic, Exec, continue, map_err, ◌>>=◌, finally, context, pure, ◌>>◌,
}
use vault_secrets_broker.Net.{
  Time, time_now, Event, clock_read, slot_taken, slot_released, Cleanup, World, Env, record_event,
  acquire_slot, release_slot,
}
use vault_secrets_broker.Adapter.{RotateRequest, Rotated}
use vault_secrets_broker.Adapter.Shared.{random_hex, launch_for}

-- The uses of the semaphores, newest first.
unfoldable pub slot_events : List Event → List Event
slot_events [] = []
slot_events (slot_taken n ∷ es) = slot_taken n ∷ slot_events es
slot_events (slot_released n ∷ es) = slot_released n ∷ slot_events es
slot_events (_ ∷ es) = slot_events es

-- Nothing is launched, and no semaphore is used.
abbrev pub Quiet : (before after : World) → Type 0
Quiet w w' = (w'.pending ≡ w.pending) × (slot_events w'.trace ≡ slot_events w.trace)

abbrev pub launched : (name provider_id : String) → Option String → List Cleanup → List Cleanup
launched name provider_id none cs = cs
launched name provider_id (some old) cs =
    record { adapter = name; provider_id = provider_id; old_id = old } ∷ cs

-- The semaphore is not used at all, or one slot is taken and then given back.
abbrev pub Balanced : (name : String) (before after : World) → Type 0
Balanced name w w' =
    (slot_events w'.trace ≡ slot_events w.trace)
    ⊎ (slot_events w'.trace ≡ slot_released name ∷ slot_taken name ∷ slot_events w.trace)

-- What one call of `Rotate` may leave behind.
abbrev pub Outcome :
    (name old_key : String) → RotateRequest → (before after : World) → Result Rotated → Type 0
Outcome name old_key req w w' (ok r) =
    (r.provider_id ≡ req.provider_id)
    × (r.credential ≢ "")
    × (w'.pending ≡ launched name req.provider_id (lookup_nonempty old_key req.meta) w.pending)
Outcome name old_key req w w' (err e) = w'.pending ≡ w.pending
Outcome name old_key req w w' (panic p) = w'.pending ≡ w.pending

-- A rotation gives a credential that is not empty for the entity that was asked for, and only then
-- launches the deletion of the old one, if the request names one; a failed rotation launches nothing.
-- On every path the slot that was taken is given back.
abbrev pub IsRotation :
    (name old_key : String) → RotateRequest → (before : World) → Result Rotated × World → Type 0
IsRotation name old_key req w (r, w') = Balanced name w w' × Outcome name old_key req w w' r

-- The same of the part of `Rotate` that runs while it holds a slot, which uses no other.
abbrev pub Held : (name old_key : String) → RotateRequest → World → Result Rotated × World → Type 0
Held name old_key req w (r, w') =
    (slot_events w'.trace ≡ slot_events w.trace) × Outcome name old_key req w w' r

pub Quiet-trans : (u v w : World) → Quiet u v → Quiet v w → Quiet u w
Quiet-trans u v w p q = (q.0 ∙ p.0, q.1 ∙ p.1)

Held-continue :
    (name old_key : String) (req : RotateRequest) (w : World) {A : Type 0} (r : Result A)
    (g : Error → Error) (f : A → Exec World Rotated) (s : World)
    → Quiet w s
    → ((a : A) → r ≡ ok a → Held name old_key req w (f a s))
    → Held name old_key req w (continue (map_err g r) f s)
Held-continue name old_key req w (ok a) g f s q k = k a refl
Held-continue name old_key req w (err e) g f s q k = (q.1, q.0)
Held-continue name old_key req w (panic p) g f s q k = (q.1, q.0)

-- A step that may fail, and launches nothing.
pub Held-bind :
    (name old_key : String) (req : RotateRequest) (w : World) {A : Type 0} (m : Exec World A)
    (g : Error → Error) (f : A → Exec World Rotated) (s : World)
    → ((v : World) → Quiet v (m v).1)
    → Quiet w s
    → ((a : A) (u : World) → Quiet w u → (m s).0 ≡ ok a → Held name old_key req w (f a u))
    → Held name old_key req w ((context g m >>= f) s)
Held-bind name old_key req w m g f s q p k =
    let p' = Quiet-trans w s (m s).1 p (q s) in
    Held-continue name old_key req w (m s).0 g f (m s).1 p' (λ a e. k a (m s).1 p' e)

-- The clock.
pub Held-clock :
    (env : Env) (name old_key : String) (req : RotateRequest) (w : World)
    (f : Time → Exec World Rotated) (s : World)
    → Quiet w s
    → ((t : Time) (u : World) → Quiet w u → Held name old_key req w (f t u))
    → Held name old_key req w ((time_now env >>= f) s)
unfolding slot_events
Held-clock env name old_key req w f s q k = k (env.now s.trace) (record_event clock_read s) q

pub random_hex-Quiet : (env : Env) (n : ℕ) (w : World) → Quiet w (random_hex env n w).1
unfolding random_hex slot_events
random_hex-Quiet env n w = ground arith

-- The launch, the reading of the clock, and the end.
pub Held-launch :
    (env : Env) (name old_key : String) (req : RotateRequest) (w : World) (o : Option String)
    (f : Time → Rotated) (s : World)
    → Quiet w s
    → o ≡ lookup_nonempty old_key req.meta
    → ((t : Time) → ((f t).provider_id ≡ req.provider_id) × ((f t).credential ≢ ""))
    → Held name old_key req w
        ((launch_for name req.provider_id o >>= λ _. time_now env >>= λ t. pure (f t)) s)
unfolding slot_events
Held-launch env name old_key req w none f s q e h =
    let (p, c) = h (env.now s.trace) in
    (q.1, (p, c, q.0 ∙ ap (λ o. launched name req.provider_id o w.pending) e))
Held-launch env name old_key req w (some old) f s q e h =
    let (p, c) = h (env.now s.trace) in
    (
      q.1,
      (
        p,
        c,
        ap (launched name req.provider_id (some old)) q.0
            ∙ ap (λ o. launched name req.provider_id o w.pending) e,
      ),
    )

Released :
    (name old_key : String) (req : RotateRequest) (w : World) (r : Result Rotated) (s : World)
    → Held name old_key req (record_event (slot_taken name) w) (r, s)
    → IsRotation name old_key req w (r, record_event (slot_released name) s)
unfolding slot_events
Released name old_key req w (ok r) s h = (inr (ap (λ es. slot_released name ∷ es) h.0), h.1)
Released name old_key req w (err e) s h = (inr (ap (λ es. slot_released name ∷ es) h.0), h.1)
Released name old_key req w (panic p) s h = (inr (ap (λ es. slot_released name ∷ es) h.0), h.1)

-- The slot around it.
pub IsRotation-Held :
    (env : Env) (name old_key : String) (g : Error → Error)
    (held : RotateRequest → Exec World Rotated)
    → ((req : RotateRequest) (w : World) → Held name old_key req w (held req w))
    → (req : RotateRequest) (w : World)
    → IsRotation name old_key req w
        ((context g (acquire_slot env name) >>= λ _. finally (held req) (release_slot name)) w)
unfolding slot_events
IsRotation-Held env name old_key g held h req w = elim (Option-cases (env.acquire w.trace name)) [
  | inr (x, e) ↦ rw (e, acquire_slot) (inl refl, refl)
  | inl e ↦
      rw (e, acquire_slot)
        (let u = record_event (slot_taken name) w in
          Released name old_key req w (held req u).0 (held req u).1 (h req u))
]

-- The form that `Rotate` has in these adapters: `create` asks the provider for a credential under a
-- name made of the time and of a random suffix, and `result` is what is returned.
module _ {A : Type 0} (env : Env) (name old_key : String)
    (slot suffix_error created : Error → Error)
    (create : RotateRequest → String → Time → Exec World A)
    (result : RotateRequest → String → Time → A → Time → Rotated) where
  abbrev after_create : RotateRequest → String → Time → A → Exec World Rotated
  after_create req suffix t v = do
    launch_for name req.provider_id (lookup_nonempty old_key req.meta)
    t' ← time_now env
    pure (result req suffix t v t')

  abbrev after_clock : RotateRequest → String → Time → Exec World Rotated
  after_clock req suffix t = do
    v ← context created (create req suffix t)
    after_create req suffix t v

  abbrev after_suffix : RotateRequest → String → Exec World Rotated
  after_suffix req suffix = do t ← time_now env; after_clock req suffix t

  abbrev pub rotation_held : RotateRequest → Exec World Rotated
  rotation_held req = do suffix ← context suffix_error (random_hex env 2); after_suffix req suffix

  abbrev pub rotation : RotateRequest → Exec World Rotated
  rotation req = do
    context slot (acquire_slot env name)
    finally (rotation_held req) (release_slot name)

  pub rotation-IsRotation :
      ((req : RotateRequest) (s : String) (t : Time) (w : World) → Quiet w (create req s t w).1)
      → ((req : RotateRequest) (s : String) (t : Time) (w : World) (v : A)
          → (create req s t w).0 ≡ ok v
          → (t' : Time)
          → ((result req s t v t').provider_id ≡ req.provider_id)
            × ((result req s t v t').credential ≢ ""))
      → (req : RotateRequest) (w : World) → IsRotation name old_key req w (rotation req w)
  rotation-IsRotation quiet good = IsRotation-Held env name old_key slot rotation_held (λ req w.
      Held-bind name old_key req w (random_hex env 2) suffix_error (after_suffix req) w
        (random_hex-Quiet env 2) (refl, refl)
        (λ s u q e. Held-clock env name old_key req w (after_clock req s) u q (λ t u' q'.
          Held-bind name old_key req w (create req s t) created (after_create req s t) u'
            (quiet req s t) q'
            (λ v u'' q'' e'.
              Held-launch env name old_key req w (lookup_nonempty old_key req.meta)
                (result req s t v) u'' q'' refl (good req s t u' v e')))))
