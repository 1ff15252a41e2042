-- ===== src/Tests/Faults.antt =====
-- The mock provider on small examples, with numbers for rates.
use vault_secrets_broker.Prelude.{ℕ, ◌+◌, ◌≡◌, refl, false, [], some, ◌⊎◌, ◌∷◌, ltb, arith, nat_eq}
use vault_secrets_broker.Chaos.Requests.{request_at}
use vault_secrets_broker.Chaos.{
  blocked, timed_out, no_faults, MockProvider, counted, new_mock_provider, is_closed, block,
  unblock, Reach, begin, later, arrive, controlled, unblocked_all, control,
}
use vault_secrets_broker.Chaos.Counters.{Accounts, Reach-Accounts}
use vault_secrets_broker.Chaos.Stranded.{unblock-block}

abbrev new_mock : MockProvider ℕ
new_mock = new_mock_provider 0

abbrev one_in : MockProvider ℕ
one_in = record new_mock {
  total_requests = new_mock.total_requests + 1;
  requests = counted ∷ new_mock.requests;
}

one_in-Reach : Reach 0 ltb (λ a b. a + b) new_mock one_in
one_in-Reach = later begin (arrive refl)

Reach-Accounts_example : Accounts one_in
Reach-Accounts_example = Reach-Accounts 0 ltb (λ a b. a + b) one_in-Reach

-- One request waits on channel 0.
abbrev blocking : MockProvider ℕ
blocking = record (block new_mock) { requests = blocked 0 (no_faults 0) ∷ [] }

abbrev twice : MockProvider ℕ
twice = unblock (block blocking)

unblock-block_example :
    (is_closed 0 (unblock twice).closed ≡ false)
    × ((request_at 0 (unblock twice).requests ≡ some (blocked 0 (no_faults 0)))
        ⊎ (request_at 0 (unblock twice).requests ≡ some timed_out))
unfolding block new_mock_provider is_closed control request_at
unblock-block_example =
    unblock-block 0 ltb (λ a b. a + b) blocking (unblock twice) 0 0 (no_faults 0) refl (omega arith)
      refl refl (later begin (controlled unblocked_all refl))
