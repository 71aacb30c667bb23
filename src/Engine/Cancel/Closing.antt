-- ===== src/Engine/Cancel/Closing.antt =====
-- A relation that the steps of a cancellation keep is kept by the cascade, however it ends.
use flow_speckit.Prelude.{
  ℕ, zero, suc, ◌≡◌, inl, inr, Bool, false, some, List, [], ◌∷◌, Bool-cases, Option-cases, Text,
}
use flow_speckit.Base.{Uuid, is_terminal}
use flow_speckit.Errors.{raised, suspended, cancelled_run, crashed, ok, Outcome}
use flow_speckit.Storage.{Db, RunRow, find_run}
use flow_speckit.Action.{modify, Action, continue, ◌>>=◌}
use flow_speckit.Engine.Settle.{settle_parent}
use flow_speckit.Engine.Cancel.{
  cancel_each, cancel_with, cancel_on_session, mark_cancelled, child_reason, live_children,
}

module _ (R : Db → Db → Type 0) (reflexive : (d : Db) → R d d)
    (transitive : (a b c : Db) → R a b → R b c → R a c) where
  module _ {A B : Type 0} where
    continue-closed :
        (o : Outcome A) (f : A → Action Db B) (db : Db)
        → ((a : A) (d : Db) → R d (f a d).1)
        → R db (continue o f db).1
    continue-closed (ok a) f db h = h a db
    continue-closed (raised e) f db h = reflexive db
    continue-closed (suspended r) f db h = reflexive db
    continue-closed (cancelled_run k) f db h = reflexive db
    continue-closed crashed f db h = reflexive db

    >>=-closed :
        (m : Action Db A) (f : A → Action Db B) (db : Db)
        → R db (m db).1
        → ((a : A) (d : Db) → R d (f a d).1)
        → R db ((m >>= f) db).1
    unfolding ◌>>=◌
    >>=-closed m f db h k = transitive db (m db).1 _ h (continue-closed (m db).0 f (m db).1 k)

  cancel_each-closed :
      (cancel : Uuid → Action Db (Unit {0})) (children : List Uuid) (db : Db)
      → ((child : Uuid) (d : Db) → R d (cancel child d).1)
      → R db (cancel_each cancel children db).1
  unfolding cancel_each
  cancel_each-closed cancel [] db h = reflexive db
  cancel_each-closed cancel (child ∷ children) db h =
      >>=-closed _ _ db (h child db) (λ _ d. cancel_each-closed cancel children d h)

  module _ (child_run_id : Uuid → Text → Uuid) (notify : Bool)
      (marks : (run_id : Uuid) (actor reason : Text) (d : Db)
        → R d (mark_cancelled run_id actor reason d))
      (settles : (run_id : Uuid) (d : Db) → R d (settle_parent child_run_id notify run_id d)) where
    -- What follows the mark of a live run: its children, and its parent.
    pub cancel_with-marked :
        (cancel : Uuid → Text → Action Db (Unit {0})) (run_id : Uuid) (actor reason : Text)
        (db : Db) (row : RunRow)
        → ((child : Uuid) (why : Text) (d : Db) → R d (cancel child why d).1)
        → find_run run_id db ≡ some row
        → is_terminal row.status ≡ false
        → R
            (mark_cancelled run_id actor reason db)
            (cancel_with child_run_id notify cancel run_id actor reason db).1
    unfolding cancel_with ◌>>=◌
    cancel_with-marked cancel run_id actor reason db row h found live =
        let db1 = mark_cancelled run_id actor reason db in
        rw (found, cancel_with)
          (rw live (
            >>=-closed
              (cancel_each (λ child. cancel child (child_reason run_id reason))
                (live_children run_id db1))
              (λ _. modify (settle_parent child_run_id notify run_id)) db1
              (cancel_each-closed (λ child. cancel child (child_reason run_id reason))
                (live_children run_id db1) db1 (λ child. h child (child_reason run_id reason)))
              (λ _ d2. settles run_id d2)))

    cancel_with-closed :
        (cancel : Uuid → Text → Action Db (Unit {0})) (run_id : Uuid) (actor reason : Text)
        (db : Db)
        → ((child : Uuid) (why : Text) (d : Db) → R d (cancel child why d).1)
        → R db (cancel_with child_run_id notify cancel run_id actor reason db).1
    unfolding cancel_with
    cancel_with-closed cancel run_id actor reason db h = elim (Option-cases (find_run run_id db)) [
      | inl missing ↦ rw (missing, cancel_with) (reflexive db)
      | inr (row, found) ↦ elim (Bool-cases (is_terminal row.status)) [
        | inl over ↦ rw (found, cancel_with) (rw over (reflexive db))
        | inr live ↦
            transitive db (mark_cancelled run_id actor reason db) _ (marks run_id actor reason db)
              (cancel_with-marked cancel run_id actor reason db row h found live)
      ]
    ]

    pub cancel_on_session-closed :
        (fuel : ℕ) (run_id : Uuid) (actor reason : Text) (db : Db)
        → R db (cancel_on_session fuel child_run_id notify run_id actor reason db).1
    unfolding cancel_on_session
    cancel_on_session-closed zero run_id actor reason db = reflexive db
    cancel_on_session-closed (suc fuel) run_id actor reason db =
        cancel_with-closed (λ child why. cancel_on_session fuel child_run_id notify child actor why)
          run_id actor reason db (λ child why d. cancel_on_session-closed fuel child actor why d)
