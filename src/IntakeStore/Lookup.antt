-- ===== src/IntakeStore/Lookup.antt =====
-- What the queries of the intake repository find after `add` and `save`.
use tiber.Prelude.{◌≡◌, refl, arith, ℕ, String, [], ◌∷◌, some, true, ◌≢◌}
use tiber.Prelude.Eq.{nat_eq, nat_beq_iff, ==-refl, string_eq}
use tiber.Result.{ok, err, intake_already_exists}
use tiber.Intake.Record.{NotificationIntake}
use tiber.Json.{Codec, IsFaithful}
use tiber.IntakeStore.Parts.{ordered_intake}
use tiber.IntakeStore.Rows.{
  Row, Table, row_where, merge, has_id, has_key, values, entity_of, add, save, get_for_update,
  get_by_idempotency_key,
}
use tiber.IntakeStore.Roundtrip.{IsStorable, to_entity-values}

row_where-merge : (r : Row) (rows : Table) → row_where (has_id r.id) (merge r rows) ≡ some r
unfolding merge
row_where-merge r [] = ground (arith, nat_beq_iff r.id r.id)
row_where-merge r (r' ∷ rows) = ground (arith, row_where-merge r rows, nat_beq_iff r.id r.id)

row_where-merge_other :
    (r : Row) (id : ℕ) (rows : Table)
    → r.id ≢ id
    → row_where (has_id id) (merge r rows) ≡ row_where (has_id id) rows
unfolding merge
row_where-merge_other r id [] ne = ground (arith, nat_beq_iff r.id id)
row_where-merge_other r id (r' ∷ rows) ne =
    ground (arith, row_where-merge_other r id rows ne, nat_beq_iff r'.id r.id, nat_beq_iff r'.id id)

module _ (c : Codec) where
  -- In a faithful codec an intake that is storable is found as it was saved, its sets in sorted
  -- order, and every other row is found as before.
  get_for_update-save :
      (i : NotificationIntake) (rows : Table)
      → IsFaithful c
      → IsStorable c i
      → (get_for_update c i.id (save c i rows) ≡ ok (some (ordered_intake i)))
        × ((id : ℕ) → i.id ≢ id → get_for_update c id (save c i rows) ≡ get_for_update c id rows)
  unfolding get_for_update save entity_of
  get_for_update-save i rows faithful storable = (
    rw (row_where-merge (values c i) rows, to_entity-values c faithful i storable) refl,
    λ id ne. rw (row_where-merge_other (values c i) id rows ne) refl,
  )

  pub add-eq_ok :
      (i : NotificationIntake) (rows rows' : Table)
      → add c i rows ≡ ok rows'
      → rows' ≡ values c i ∷ rows
  unfolding add
  add-eq_ok i rows rows' added = ground arith

  own_key-values :
      (i : NotificationIntake) (key : String)
      → i.idempotency_key ≡ some key
      → has_key i.project_id (some key) (values c i) ≡ true
  unfolding values
  own_key-values i key keyed = rw (keyed, ==-refl i.project_id, ==-refl key) refl

  has_key-values :
      (i j : NotificationIntake) (key : String)
      → j.project_id ≡ i.project_id
      → j.idempotency_key ≡ some key
      → i.idempotency_key ≡ some key
      → has_key j.project_id j.idempotency_key (values c i) ≡ true
  unfolding values
  has_key-values i j key same keyed keyed' =
      rw (keyed, keyed', same, ==-refl i.project_id, ==-refl key) refl

  -- In a faithful codec a storable intake that was added under an idempotency key is found under
  -- that key, its sets in sorted order, and a further intake of the project under that key is
  -- refused with `IntakeAlreadyExistsError`.
  pub get_by_idempotency_key-add :
      (i : NotificationIntake) (key : String) (rows rows' : Table)
      → IsFaithful c
      → IsStorable c i
      → i.idempotency_key ≡ some key
      → add c i rows ≡ ok rows'
      → (get_by_idempotency_key c i.project_id key rows' ≡ ok (some (ordered_intake i)))
        × ((j : NotificationIntake)
            → j.project_id ≡ i.project_id
            → j.idempotency_key ≡ some key
            → add c j rows' ≡ err intake_already_exists)
  unfolding get_by_idempotency_key add entity_of
  get_by_idempotency_key-add i key rows rows' faithful storable keyed added =
      let own : has_key i.project_id (some key) (values c i) ≡ true = own_key-values i key keyed in
      (
        rw (add-eq_ok i rows rows' added, own, to_entity-values c faithful i storable) refl,
        λ j same keyed'.
            rw (add-eq_ok i rows rows' added, has_key-values i j key same keyed' keyed) refl,
      )
