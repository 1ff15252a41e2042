-- ===== src/Server/Lifetime/Stopped.antt =====
-- What runs when `Shutdown` has returned.
use mathlib.Core.List.{Memᴰ}
use mathlib.Core.Path.{subst}
use vault_secrets_broker.Prelude.{
  String, ◌≡◌, ◌≢◌, refl, Bool, true, false, List, [], ◌∷◌, ◌++◌, All, All-replace,
}
use vault_secrets_broker.Server.Lifetime.{
  Job, rotating, launched, Stage, up, closing, draining, stopped, failed, Process, Step, accept,
  launch, answer, clean, close, closed, close_timeout, drained, drain_timeout, stop, Reach, begin,
  later,
}

abbrev adapter_of : Job → String
adapter_of (rotating name) = name
adapter_of (launched name) = name

-- What the stage says of the listener, of the handlers and of the goroutines.
abbrev Holds : (accepting : Bool) → List Job → (cleanups : List String) → Stage → Type 0
Holds accepting js cs up = Unit
Holds accepting js cs closing = accepting ≡ false
Holds accepting js cs (draining rest true) =
    (accepting ≡ false) × (js ≡ []) × All (λ c. Memᴰ c rest) cs
Holds accepting js cs (draining rest false) = (accepting ≡ false) × (js ≡ [])
Holds accepting js cs (stopped true) = (accepting ≡ false) × (js ≡ []) × (cs ≡ [])
Holds accepting js cs (stopped false) = (accepting ≡ false) × (js ≡ [])
Holds accepting js cs failed = accepting ≡ false

record Inv (order : List String) (s : Process) : Type 0 where
  known_jobs : All (λ j. Memᴰ (adapter_of j) order) s.jobs
  known_cleanups : All (λ c. Memᴰ c order) s.cleanups
  stage_holds : Holds s.accepting s.jobs s.cleanups s.stage

All-remove :
    {A : Type 0} (P : A → Type 0) (before : List A) (x : A) (after : List A)
    → All P (before ++ x ∷ after)
    → All P (before ++ after)
All-remove P [] x after h = h.1
All-remove P (y ∷ before) x after h = (h.0, All-remove P before x after (h.1))

All-at :
    {A : Type 0} (P : A → Type 0) (before : List A) (x : A) (after : List A)
    → All P (before ++ x ∷ after)
    → P x
All-at P [] x after h = h.0
All-at P (y ∷ before) x after h = All-at P before x after (h.1)

-- Of names in `name ∷ rest`, those that are not `name` are in `rest`.
All-rest :
    (name : String) (rest cs : List String)
    → All (λ c. Memᴰ c (name ∷ rest)) cs
    → All (λ c. c ≢ name) cs
    → All (λ c. Memᴰ c rest) cs
All-rest name rest [] h k = tt
All-rest name rest (c ∷ cs) (Memᴰ.head e, h) (n, k) = absurd (n e)
All-rest name rest (c ∷ cs) (Memᴰ.tail m, h) (n, k) = (m, All-rest name rest cs h k)

none_in-nil : (cs : List String) → All (λ c. Memᴰ {A = String} c []) cs → cs ≡ []
none_in-nil [] h = refl
none_in-nil (c ∷ cs) (m, h) = elim m [ ]

append-ne-nil : {A : Type 0} (before : List A) (x : A) (after : List A) → before ++ x ∷ after ≢ []
append-ne-nil [] x after e = cc
append-ne-nil (y ∷ before) x after e = cc

-- A listener that is open.
Holds-accept :
    (st : Stage) (acc : Bool) (js ks : List Job) (cs : List String)
    → acc ≡ true
    → Holds acc js cs st
    → Holds acc ks cs st
Holds-accept up acc js ks cs e h = tt
Holds-accept closing acc js ks cs e h = h
Holds-accept (draining rest true) acc js ks cs e (a, j, h) = absurd (cc a)
Holds-accept (draining rest false) acc js ks cs e (a, j) = absurd (cc a)
Holds-accept (stopped true) acc js ks cs e (a, j, h) = absurd (cc a)
Holds-accept (stopped false) acc js ks cs e (a, j) = absurd (cc a)
Holds-accept failed acc js ks cs e h = h

-- A handler that still runs.
Holds-busy :
    (st : Stage) (acc : Bool) (js ks : List Job) (cs ds : List String)
    → js ≢ []
    → Holds acc js cs st
    → Holds acc ks ds st
Holds-busy up acc js ks cs ds n h = tt
Holds-busy closing acc js ks cs ds n h = h
Holds-busy (draining rest true) acc js ks cs ds n (a, e, h) = absurd (n e)
Holds-busy (draining rest false) acc js ks cs ds n (a, e) = absurd (n e)
Holds-busy (stopped true) acc js ks cs ds n (a, e, h) = absurd (n e)
Holds-busy (stopped false) acc js ks cs ds n (a, e) = absurd (n e)
Holds-busy failed acc js ks cs ds n h = h

-- A goroutine that ends.
Holds-clean :
    (st : Stage) (acc : Bool) (js : List Job) (before : List String) (name : String)
    (after : List String)
    → Holds acc js (before ++ name ∷ after) st
    → Holds acc js (before ++ after) st
Holds-clean up acc js before name after h = tt
Holds-clean closing acc js before name after h = h
Holds-clean (draining rest true) acc js before name after (a, e, h) =
    (a, e, All-remove (λ c. Memᴰ c rest) before name after h)
Holds-clean (draining rest false) acc js before name after h = h
Holds-clean (stopped true) acc js before name after (a, e, h) =
    absurd (append-ne-nil before name after h)
Holds-clean (stopped false) acc js before name after h = h
Holds-clean failed acc js before name after h = h

All-launched :
    (order : List String) (before after : List Job) (name : String)
    → All (λ j. Memᴰ (adapter_of j) order) (before ++ rotating name ∷ after)
    → All (λ j. Memᴰ (adapter_of j) order) (before ++ launched name ∷ after)
All-launched order before after name h =
    All-replace (λ j. Memᴰ (adapter_of j) order) before after (rotating name) (launched name) h
      (All-at (λ j. Memᴰ (adapter_of j) order) before (rotating name) after h)

Holds-drained :
    (complete acc : Bool) (js : List Job) (cs rest : List String) (name : String)
    → Holds acc js cs (draining (name ∷ rest) complete)
    → All (λ c. c ≢ name) cs
    → Holds acc js cs (draining rest complete)
Holds-drained true acc js cs rest name (a, j, h) n = (a, j, All-rest name rest cs h n)
Holds-drained false acc js cs rest name h n = h

Holds-timeout :
    (complete acc : Bool) (js : List Job) (cs rest : List String) (name : String)
    → Holds acc js cs (draining (name ∷ rest) complete)
    → Holds acc js cs (draining rest false)
Holds-timeout true acc js cs rest name (a, j, h) = (a, j)
Holds-timeout false acc js cs rest name h = h

Holds-stop :
    (complete acc : Bool) (js : List Job) (cs : List String)
    → Holds acc js cs (draining [] complete)
    → Holds acc js cs (stopped complete)
Holds-stop true acc js cs (a, j, h) = (a, j, none_in-nil cs h)
Holds-stop false acc js cs h = h

module _ (order : List String) where
  abbrev Known : Job → Type 0
  Known j = Memᴰ (adapter_of j) order

  -- What holds at the stage where the step starts.
  at_stage :
      {s : Process} (st : Stage)
      → s.stage ≡ st
      → Inv order s
      → Holds s.accepting s.jobs s.cleanups st
  at_stage {s} st e inv = subst (λ x. Holds s.accepting s.jobs s.cleanups x) e inv.stage_holds

  Step-Inv : {s t : Process} → Step order s t → Inv order s → Inv order t
  Step-Inv {s} (accept name e m f) inv = rw f (record {
    known_jobs = (m, inv.known_jobs);
    known_cleanups = inv.known_cleanups;
    stage_holds =
        Holds-accept s.stage s.accepting s.jobs (rotating name ∷ s.jobs) s.cleanups e
          inv.stage_holds;
  })
  Step-Inv {s} (launch before after name e f) inv =
      let known = subst (λ js. All Known js) e inv.known_jobs in
      let busy : s.jobs ≢ [] = rw e (append-ne-nil before (rotating name) after) in
      rw f (record {
        known_jobs = All-launched order before after name known;
        known_cleanups = (All-at Known before (rotating name) after known, inv.known_cleanups);
        stage_holds =
            Holds-busy s.stage s.accepting s.jobs (before ++ launched name ∷ after) s.cleanups
              (name ∷ s.cleanups) busy inv.stage_holds;
      })
  Step-Inv {s} (answer before after job e f) inv =
      let busy : s.jobs ≢ [] = rw e (append-ne-nil before job after) in
      rw f (record {
        known_jobs =
            All-remove Known before job after (subst (λ js. All Known js) e inv.known_jobs);
        known_cleanups = inv.known_cleanups;
        stage_holds =
            Holds-busy s.stage s.accepting s.jobs (before ++ after) s.cleanups s.cleanups busy
              inv.stage_holds;
      })
  Step-Inv {s} (clean before after name e f) inv = rw f (record {
    known_jobs = inv.known_jobs;
    known_cleanups =
        All-remove (λ c. Memᴰ c order) before name after
          (subst (λ cs. All (λ c. Memᴰ c order) cs) e inv.known_cleanups);
    stage_holds =
        Holds-clean s.stage s.accepting s.jobs before name after
          (subst (λ cs. Holds s.accepting s.jobs cs s.stage) e inv.stage_holds);
  })
  Step-Inv {s} (close e f) inv = rw f (record {
    known_jobs = inv.known_jobs;
    known_cleanups = inv.known_cleanups;
    stage_holds = refl;
  })
  Step-Inv {s} (closed e j f) inv = rw f (record {
    known_jobs = inv.known_jobs;
    known_cleanups = inv.known_cleanups;
    stage_holds = (at_stage closing e inv, j, inv.known_cleanups);
  })
  Step-Inv {s} (close_timeout e f) inv = rw f (record {
    known_jobs = inv.known_jobs;
    known_cleanups = inv.known_cleanups;
    stage_holds = at_stage closing e inv;
  })
  Step-Inv {s} (drained name rest complete e n f) inv = rw f (record {
    known_jobs = inv.known_jobs;
    known_cleanups = inv.known_cleanups;
    stage_holds =
        Holds-drained complete s.accepting s.jobs s.cleanups rest name
          (at_stage (draining (name ∷ rest) complete) e inv) n;
  })
  Step-Inv {s} (drain_timeout name rest complete e f) inv = rw f (record {
    known_jobs = inv.known_jobs;
    known_cleanups = inv.known_cleanups;
    stage_holds =
        Holds-timeout complete s.accepting s.jobs s.cleanups rest name
          (at_stage (draining (name ∷ rest) complete) e inv);
  })
  Step-Inv {s} (stop complete e f) inv = rw f (record {
    known_jobs = inv.known_jobs;
    known_cleanups = inv.known_cleanups;
    stage_holds =
        Holds-stop complete s.accepting s.jobs s.cleanups (at_stage (draining [] complete) e inv);
  })

  Reach-Inv : {s : Process} → Reach order s → Inv order s
  Reach-Inv begin = record { known_jobs = tt; known_cleanups = tt; stage_holds = tt }
  Reach-Inv (later r step) = Step-Inv step (Reach-Inv r)

  -- Whatever the order in which requests come and go, rotations launch deletions and these end: when
  -- `Shutdown` has returned and no `Drain` was cut short by the context, the listener is closed, no
  -- handler runs, and no deletion of an old credential is left running.
  pub stopped-quiet :
      (s : Process)
      → Reach order s
      → s.stage ≡ stopped true
      → (s.accepting ≡ false) × (s.jobs ≡ []) × (s.cleanups ≡ [])
  stopped-quiet s r e = at_stage (stopped true) e (Reach-Inv r)
