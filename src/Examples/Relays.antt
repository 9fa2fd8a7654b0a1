-- ===== src/Examples/Relays.antt =====
-- A run of the relay on two messages.
use tiber.Prelude.{◌≤◌, [], ◌∷◌, some, none, true, refl, arith}
use tiber.Outbox.{OutboxRow, Relay, intake, dispatch, settled, relay_available}
use tiber.Outbox.Sound.{IsBounded, Settles, settled-Settles}
use tiber.Outbox.Batch.{IsTable, relay_available-IsTable}
use tiber.Examples.{store}

abbrev relay : Relay
relay = record {
  max_attempts = 10;
  retry_base_seconds = 1;
  retry_max_seconds = 300;
  publish_intake = λ id. true;
  publish_notification = λ n. true;
}

abbrev announced : OutboxRow
announced = record {
  id = 1;
  kind = intake;
  aggregate_id = 3;
  project_id = none;
  priority = 1;
  available_at = 100;
  attempts = 0;
  published_at = none;
  dead_lettered_at = none;
}

abbrev missing : OutboxRow
missing = record announced { id = 2; kind = dispatch; project_id = some 9 }

missing-IsBounded : IsBounded 10 missing
missing-IsBounded = ground arith

settled-Settles_example :
    IsBounded 10 (settled relay store 200 missing missing)
    × Settles relay store 200 missing (settled relay store 200 missing missing)
settled-Settles_example =
    settled-Settles relay store 200 missing (omega arith) (omega arith) refl missing-IsBounded

rows-IsTable : IsTable 10 (missing ∷ announced ∷ [])
rows-IsTable = ground arith

relay_available-IsTable_example :
    ((relay_available 5 relay store (λ i. 200) (missing ∷ announced ∷ [])).0 ≤ 5)
    × IsTable 10 (relay_available 5 relay store (λ i. 200) (missing ∷ announced ∷ [])).1
relay_available-IsTable_example =
    relay_available-IsTable relay store (omega arith) (omega arith) 5 (λ i. 200)
      (missing ∷ announced ∷ []) rows-IsTable
