-- ===== src/Repository/Laws/Stages.antt =====
-- The stages that the tables go through in `CreateRecord` of record.go.
use concrnt_playground.Prelude.{
  String, Bool, true, false, ◌≡◌, refl, subst, Option, none, some, ◌==◌, string_eq, if◌then◌else◌,
}
use concrnt_playground.Store.{
  Db, CommitLog, CommitOwner, Record, RecordKey, add_commit, add_owner, add_record, add_key,
  upsert_key, flag_gc, drop_record, apply, find_commit, find_record, find_key,
}
use concrnt_playground.Store.Tx.{◌>>=◌, pure, write}
use concrnt_playground.Store.Keeps.{Keeps, Keeps-pure, Keeps-bind, Keeps-write}
use concrnt_playground.Repository.Create.{retire, retire_record}
use concrnt_playground.Repository.Laws.Stored.{
  On, On-IsStable, On-push, Agrees, HasCommit, HasRecord, HasKey, Agrees-add_commit, Agrees-flag_gc,
  HasCommit-add_commit, HasCommit-flag_gc, HasRecord-add_record, HasRecord-drop_record,
  HasKey-upsert_key, HasKey-drop_record,
}

module _ (document proof key id uri : String) where
  -- Nothing contradicts the document, and then its commit, its record and its key are there.
  abbrev pub Clear : Db → Type 0
  Clear db = Agrees document proof key db × Agrees document proof id db

  abbrev pub Filed : Db → Type 0
  Filed db = Clear db × HasCommit id db

  abbrev pub Recorded : Db → Type 0
  Recorded db = Filed db × HasRecord id db

  abbrev pub Placed : Db → Type 0
  Placed db = Recorded db × HasKey id uri db

  pub Filed-owner : (o : CommitOwner) (db : Db) → Filed db → Filed (apply (add_owner o) db)
  unfolding apply find_commit
  Filed-owner o db h = h

  pub Recorded-key : (k : RecordKey) (db : Db) → Recorded db → Recorded (apply (add_key k) db)
  unfolding apply find_commit find_record
  Recorded-key k db h = h

  pub Clear-commit :
      (c : CommitLog) (db : Db)
      → c.id ≡ id
      → c.document ≡ document
      → c.proof ≡ proof
      → Clear db
      → Filed (apply (add_commit c) db)
  Clear-commit c db i d p (a, b) = (
    (
      Agrees-add_commit document proof key c db d p a,
      Agrees-add_commit document proof id c db d p b,
    ),
    subst (λ s. HasCommit s (apply (add_commit c) db)) i (HasCommit-add_commit c db),
  )

  pub Filed-record :
      (r : Record) (db : Db) → r.document_id ≡ id → Filed db → Recorded (apply (add_record r) db)
  unfolding apply find_commit
  Filed-record r db i h =
      (h, subst (λ s. HasRecord s (apply (add_record r) db)) i (HasRecord-add_record r db))

  pub Recorded-upsert :
      (k : RecordKey) (db : Db)
      → k.uri ≡ uri
      → k.record_id ≡ some id
      → Recorded db
      → Placed (apply (upsert_key k) db)
  unfolding apply find_commit find_record
  Recorded-upsert k db u i h =
      (h, subst (λ s. HasKey id s (apply (upsert_key k) db)) u (HasKey-upsert_key id k db i))

  Placed-flag : (r : String) (db : Db) → Placed db → Placed (apply (flag_gc r) db)
  unfolding apply find_record find_key
  Placed-flag r db (((((a, b), c), d), e)) = (
    (
      (
        (Agrees-flag_gc document proof key r db a, Agrees-flag_gc document proof id r db b),
        HasCommit-flag_gc id r db c,
      ),
      d,
    ),
    e,
  )

  Placed-drop :
      (r : String) (db : Db) → (r == id) ≡ false → Placed db → Placed (apply (drop_record r) db)
  unfolding apply find_commit
  Placed-drop r db ne ((f, d), e) =
      ((f, HasRecord-drop_record id r db ne d), HasKey-drop_record id uri r db ne e)

  pub retire-Keeps : (k : Option RecordKey) → Keeps (On Placed) (retire id k)
  retire-Keeps none = Keeps-pure tt
  retire-Keeps (some k) = points k.record_id
    where
      two :
          (r : String) (b : Bool)
          → (r == id) ≡ b
          → Keeps
              (On Placed)
              (if b then pure tt else (write (flag_gc r) >>= λ _. write (drop_record r)))
      two r true h = Keeps-pure tt
      two r false h =
          Keeps-bind _ _
            (Keeps-write (On-IsStable Placed) _ (On-push Placed Placed _ (Placed-flag r)))
            λ _.
              Keeps-write (On-IsStable Placed) _
                (On-push Placed Placed _ (λ db. Placed-drop r db h))

      points : (r : Option String) → Keeps (On Placed) (retire_record id r)
      points none = Keeps-pure tt
      points (some r) = two r (r == id) refl
