-- ===== src/Engine/Cancel/Depth.antt =====
-- The depth that `cancel_run` gives to its cascade is enough.
use flow_speckit.Prelude.{
  ℕ, zero, suc, ◌+◌, ◌<◌, ◌≡◌, refl, ap, ◌∙◌, inl, inr, Bool, false, some, List, [], ◌∷◌, arith,
  ◌==◌, Bool-cases, Option-cases, update_where, Text,
}
use flow_speckit.Base.{Uuid, is_terminal, RunStatus, Instant}
use flow_speckit.Storage.{RunRow, Db, find_run, update_run, delete_run_timers, delete_queue_row}
use flow_speckit.Storage.Log.{append}
use flow_speckit.Storage.Recording.{record_event, apply_event_to_run_row, event_values}
use flow_speckit.Action.{continue, Action, ◌>>=◌, continue, modify}
use flow_speckit.Engine.Cancel.{
  cancel_each, cancel_with, cancel_on_session, mark_cancelled, live_runs, child_reason, cancel_run,
  live_children, ignore_invalid,
}
use flow_speckit.Engine.Cancel.Closing.{cancel_on_session-closed}
use flow_speckit.Engine.Cancel.Counting.{
  count_where-ended_one, IsUnique-update_where, count_where-ended, IsUnique,
}
use flow_speckit.Engine.Cancel.Shrinking.{
  Shrinks, Shrinks-runs, Shrinks-settle_parent, Shrinks-trans,
}
use flow_speckit.Errors.{raised, suspended, cancelled_run, crashed, Outcome, ok}
use flow_speckit.Engine.Settle.{settle_parent}

abbrev end_row : Instant → RunRow → RunRow
end_row now r = record r { status = RunStatus.cancelled; updated_at = now }

runs-mark_cancelled :
    (run_id : Uuid) (actor reason : Text) (db : Db)
    → (mark_cancelled run_id actor reason db).workflow_runs
      ≡ update_where (λ r. r.run_id == run_id) (end_row db.clock) db.workflow_runs
unfolding mark_cancelled record_event apply_event_to_run_row event_values update_run append
    delete_run_timers delete_queue_row
runs-mark_cancelled run_id actor reason db = refl

Shrinks-mark_cancelled :
    (run_id : Uuid) (actor reason : Text) (db : Db)
    → Shrinks db (mark_cancelled run_id actor reason db)
Shrinks-mark_cancelled run_id actor reason db = record {
  at = λ u. rw (runs-mark_cancelled run_id actor reason db) (
    IsUnique-update_where (λ x. x.run_id == run_id) (end_row db.clock) db.workflow_runs (λ x. refl)
        u,
    count_where-ended (λ x. x.run_id == run_id) (end_row db.clock) db.workflow_runs (λ x. refl),
  );
}

live_runs-mark_cancelled :
    (run_id : Uuid) (actor reason : Text) (db : Db) (row : RunRow)
    → find_run run_id db ≡ some row
    → is_terminal row.status ≡ false
    → live_runs (mark_cancelled run_id actor reason db) < live_runs db
unfolding find_run
live_runs-mark_cancelled run_id actor reason db row found live =
    rw (runs-mark_cancelled run_id actor reason db) (
      count_where-ended_one (λ x. x.run_id == run_id) (end_row db.clock) db.workflow_runs row
        (λ x. refl) found (ground (arith, live)))

continue-same :
    (o : Outcome (Unit {0})) (f g : Unit {0} → Action Db (Unit {0})) (db : Db)
    → ((t : Unit {0}) → f t db ≡ g t db)
    → continue o f db ≡ continue o g db
continue-same (ok t) f g db h = h t
continue-same (raised e) f g db h = refl
continue-same (suspended r) f g db h = refl
continue-same (cancelled_run k) f g db h = refl
continue-same crashed f g db h = refl

module _ (child_run_id : Uuid → Text → Uuid) (notify : Bool) where
  Shrinks-cancel_on_session :
      (fuel : ℕ) (run_id : Uuid) (actor reason : Text) (db : Db)
      → Shrinks db (cancel_on_session fuel child_run_id notify run_id actor reason db).1
  Shrinks-cancel_on_session =
      cancel_on_session-closed Shrinks (λ d. Shrinks-runs refl) (λ a b c h k. Shrinks-trans h k)
        child_run_id notify Shrinks-mark_cancelled (Shrinks-settle_parent child_run_id notify)

  -- Two cascades that agree wherever fewer than `n` runs are live.
  abbrev Agree :
      ℕ → (Uuid → Text → Action Db (Unit {0})) → (Uuid → Text → Action Db (Unit {0})) → Type 0
  Agree n c c' =
      (child : Uuid) (why : Text) (d : Db)
      → IsUnique d.workflow_runs
      → live_runs d < n
      → c child why d ≡ c' child why d

  cancel_each-Agree :
      (n : ℕ) (c c' : Uuid → Text → Action Db (Unit {0})) (why : Text) (children : List Uuid)
      (db : Db)
      → Agree n c c'
      → ((child : Uuid) (why : Text) (d : Db) → Shrinks d (c child why d).1)
      → IsUnique db.workflow_runs
      → live_runs db < n
      → cancel_each (λ child. c child why) children db
        ≡ cancel_each (λ child. c' child why) children db
  unfolding cancel_each ◌>>=◌
  cancel_each-Agree n c c' why [] db agree shrinks u less = refl
  cancel_each-Agree n c c' why (child ∷ children) db agree shrinks u less =
      let d1 = (c child why db).1 in
      let (v, fewer) = (shrinks child why db).at u in
      continue-same (ignore_invalid (c child why db).0)
        (λ _. cancel_each (λ child. c child why) children)
        (λ _. cancel_each (λ child. c' child why) children) d1
        (λ _. cancel_each-Agree n c c' why children d1 agree shrinks v (omega (arith, fewer, less)))
      ∙ ap
          (λ (p : Outcome (Unit {0}) × Db).
            continue (ignore_invalid p.0) (λ _. cancel_each (λ child. c' child why) children) p.1)
          (agree child why db u less)

  cancel_with-Agree :
      (n : ℕ) (c c' : Uuid → Text → Action Db (Unit {0})) (run_id : Uuid) (actor reason : Text)
      (db : Db)
      → Agree n c c'
      → ((child : Uuid) (why : Text) (d : Db) → Shrinks d (c child why d).1)
      → IsUnique db.workflow_runs
      → live_runs db < suc n
      → cancel_with child_run_id notify c run_id actor reason db
        ≡ cancel_with child_run_id notify c' run_id actor reason db
  unfolding cancel_with ◌>>=◌
  cancel_with-Agree n c c' run_id actor reason db agree shrinks u less =
      elim (Option-cases (find_run run_id db)) [
        | inl missing ↦ rw (missing, cancel_with) refl
        | inr (row, found) ↦
            rw (found, cancel_with)
              (elim (Bool-cases (is_terminal row.status)) [
                | inl over ↦ rw over refl
                | inr live ↦
                    let db1 = mark_cancelled run_id actor reason db in
                    let fewer = live_runs-mark_cancelled run_id actor reason db row found live in
                    rw live (
                      ap
                        (λ (p : Outcome (Unit {0}) × Db).
                          continue p.0 (λ _. modify (settle_parent child_run_id notify run_id)) p.1)
                        (cancel_each-Agree n c c' (child_reason run_id reason)
                          (live_children run_id db1) db1 agree shrinks
                          ((Shrinks-mark_cancelled run_id actor reason db).at u).0
                          (omega (arith, fewer, less))))
              ])
      ]

  -- One more level changes nothing where fewer runs are live than there are levels.
  cancel_on_session-suc :
      (fuel : ℕ) (run_id : Uuid) (actor reason : Text) (db : Db)
      → IsUnique db.workflow_runs
      → live_runs db < fuel
      → cancel_on_session (suc fuel) child_run_id notify run_id actor reason db
        ≡ cancel_on_session fuel child_run_id notify run_id actor reason db
  unfolding cancel_on_session
  cancel_on_session-suc zero run_id actor reason db u less = absurd (omega (arith, less))
  cancel_on_session-suc (suc fuel) run_id actor reason db u less =
      cancel_with-Agree fuel
        (λ child why. cancel_on_session (suc fuel) child_run_id notify child actor why)
        (λ child why. cancel_on_session fuel child_run_id notify child actor why) run_id actor
        reason db (λ child why d v few. cancel_on_session-suc fuel child actor why d v few)
        (λ child why d. Shrinks-cancel_on_session (suc fuel) child actor why d) u less

-- Where run ids are unique, a cascade of any greater depth gives what `cancel_run` gives: it
-- never ends for want of depth.
pub cancel_on_session-cancel_run :
    (child_run_id : Uuid → Text → Uuid) (notify : Bool) (more : ℕ) (run_id : Uuid)
    (actor reason : Text) (db : Db)
    → IsUnique db.workflow_runs
    → cancel_on_session (live_runs db + 1 + more) child_run_id notify run_id actor reason db
      ≡ cancel_run child_run_id notify run_id actor reason db
unfolding cancel_run
cancel_on_session-cancel_run child_run_id notify zero run_id actor reason db u =
    ap (λ n. cancel_on_session n child_run_id notify run_id actor reason db) (omega arith)
cancel_on_session-cancel_run child_run_id notify (suc more) run_id actor reason db u =
    let one_more : live_runs db + 1 + suc more ≡ suc (live_runs db + 1 + more) = (omega arith) in
    ap (λ n. cancel_on_session n child_run_id notify run_id actor reason db) one_more
    ∙ (cancel_on_session-suc child_run_id notify (live_runs db + 1 + more) run_id actor reason db u
          (omega arith)
        ∙ cancel_on_session-cancel_run child_run_id notify more run_id actor reason db u)
