-- ===== src/Server/Lifetime.antt =====
-- `Shutdown` of cred-rotation-api/server/server.go while requests, rotations and deletions of old
-- credentials run: a step is one of theirs, in any order. `http.Server.Shutdown` closes the listener,
-- and returns once no handler runs; `Drain` returns once the adapter's wait group is empty; either
-- returns with an error where the context ends first.
pub mod Stopped
use mathlib.Core.List.{Memᴰ}
use vault_secrets_broker.Prelude.{String, ◌≡◌, ◌≢◌, Bool, true, false, List, [], ◌∷◌, ◌++◌, All}

-- A request in a handler that rotates: before the `go` statement of `Rotate`, and after it.
pub data Job : Type 0 where
  rotating : (adapter : String) → Job
  launched : (adapter : String) → Job

-- Where `Shutdown` stands; in the loop over the adapters, and after it, whether every `Drain` so far
-- returned no error.
pub data Stage : Type 0 where
  up : Stage
  closing : Stage
  draining : (rest : List String) → (complete : Bool) → Stage
  stopped : (complete : Bool) → Stage
  failed : Stage

-- `cleanups` has the adapter of each goroutine that deletes an old credential.
pub record Process : Type 0 where
  pub accepting : Bool
  pub jobs : List Job
  pub cleanups : List String
  pub stage : Stage

-- `order` is the order of the registry's names in `Names`.
module _ (order : List String) where
  abbrev pub started : Process
  started = record { accepting = true; jobs = []; cleanups = []; stage = up }

  pub data Step (s t : Process) : Type 0 where
    accept :
        (name : String)
        → s.accepting ≡ true
        → Memᴰ name order
        → t ≡ record s { jobs = rotating name ∷ s.jobs }
        → Step s t
    launch :
        (before after : List Job) (name : String)
        → s.jobs ≡ before ++ rotating name ∷ after
        → t ≡ record s { jobs = before ++ launched name ∷ after; cleanups = name ∷ s.cleanups }
        → Step s t
    answer :
        (before after : List Job) (job : Job)
        → s.jobs ≡ before ++ job ∷ after
        → t ≡ record s { jobs = before ++ after }
        → Step s t
    clean :
        (before after : List String) (name : String)
        → s.cleanups ≡ before ++ name ∷ after
        → t ≡ record s { cleanups = before ++ after }
        → Step s t
    close : s.stage ≡ up → t ≡ record s { accepting = false; stage = closing } → Step s t
    closed :
        s.stage ≡ closing → s.jobs ≡ [] → t ≡ record s { stage = draining order true } → Step s t
    close_timeout : s.stage ≡ closing → t ≡ record s { stage = failed } → Step s t
    drained :
        (name : String) (rest : List String) (complete : Bool)
        → s.stage ≡ draining (name ∷ rest) complete
        → All (λ c. c ≢ name) s.cleanups
        → t ≡ record s { stage = draining rest complete }
        → Step s t
    drain_timeout :
        (name : String) (rest : List String) (complete : Bool)
        → s.stage ≡ draining (name ∷ rest) complete
        → t ≡ record s { stage = draining rest false }
        → Step s t
    stop :
        (complete : Bool)
        → s.stage ≡ draining [] complete
        → t ≡ record s { stage = stopped complete }
        → Step s t

  -- Every order of the steps.
  pub data Reach : Process → Type 0 where
    begin : Reach started
    later : {s t : Process} → Reach s → Step s t → Reach t
