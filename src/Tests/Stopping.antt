-- ===== src/Tests/Stopping.antt =====
-- A shutdown while a deletion still runs.
use mathlib.Core.List.{Memᴰ}
use vault_secrets_broker.Prelude.{String, ◌≡◌, refl, true, false, List, [], ◌∷◌}
use vault_secrets_broker.Server.Lifetime.{
  Process, launched, stopped, accept, launch, answer, clean, close, closed, drained, stop, Reach,
  begin, later,
}
use vault_secrets_broker.Server.Lifetime.Stopped.{stopped-quiet}

abbrev splunk_only : List String
splunk_only = "splunk" ∷ []

abbrev all_stopped : Process
all_stopped = record { accepting = false; jobs = []; cleanups = []; stage = stopped true }

-- A rotation launches a deletion and is answered; the deletion ends while `Shutdown` waits.
abbrev all_stopped-Reach : Reach splunk_only all_stopped
all_stopped-Reach =
    let accepted = later begin (accept "splunk" refl (Memᴰ.head refl) refl) in
    let deleting = later accepted (launch [] [] "splunk" refl refl) in
    let answered = later deleting (answer [] [] (launched "splunk") refl refl) in
    let closing = later (later answered (close refl refl)) (closed refl refl refl) in
    let cleaned = later closing (clean [] [] "splunk" refl refl) in
    later (later cleaned (drained "splunk" [] true refl tt refl)) (stop true refl refl)

stopped-quiet_example :
    (all_stopped.accepting ≡ false) × (all_stopped.jobs ≡ []) × (all_stopped.cleanups ≡ [])
stopped-quiet_example = stopped-quiet splunk_only all_stopped all_stopped-Reach refl
