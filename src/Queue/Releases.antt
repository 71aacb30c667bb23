-- ===== src/Queue/Releases.antt =====
-- A scoped release deletes its own worker's claim and cannot eat a wake; a reaped claim can be
-- claimed again.
use flow_speckit.Prelude.{
  ◌≡◌, refl, inl, inr, true, false, none, some, List, [], ◌∷◌, arith, ◌==◌, Bool-cases,
  Bool-disjoint, All, All-append, All-map, delete_where, exists_where, All-update_where,
  All-anything, All-not_exists, Text,
}
use flow_speckit.Base.{Uuid}
use flow_speckit.Storage.{QueueRow, Db, upsert_task_queue}
use flow_speckit.Queue.{releases, release}

-- Every row of the run is unclaimed.
abbrev IsFree : Uuid → List QueueRow → Type 0
IsFree r rows = All (λ x. (x.run_id == r) ≡ true → x.claimed_by ≡ none) rows

IsFree-exists :
    (r : Uuid) (rows : List QueueRow)
    → exists_where (λ q. q.run_id == r) rows ≡ false
    → IsFree r rows
IsFree-exists r rows h =
    All-map rows (λ x miss hit. Bool-disjoint hit miss)
      (All-not_exists (λ (q : QueueRow). q.run_id == r) rows h)

-- A wake leaves the run's rows unclaimed.
upsert-IsFree : (r : Uuid) (db : Db) → IsFree r (upsert_task_queue r db).task_queue
unfolding upsert_task_queue
upsert-IsFree r db = elim (Bool-cases (exists_where (λ q. q.run_id == r) db.task_queue)) [
  | inl there ↦ rw there (
      All-update_where (λ _. Unit {0})
        (λ (x : QueueRow). (x.run_id == r) ≡ true → x.claimed_by ≡ none) (λ x. x.run_id == r) _
        db.task_queue (λ x hit _ _. refl) (λ x miss _ hit. Bool-disjoint hit miss)
        (All-anything db.task_queue))
  | inr absent ↦ rw absent (
      All-append (λ (x : QueueRow). (x.run_id == r) ≡ true → x.claimed_by ≡ none) db.task_queue _
        (IsFree-exists r db.task_queue absent) (λ _. refl, tt))
]

release-IsFree :
    (r : Uuid) (w : Text) (rows : List QueueRow)
    → IsFree r rows
    → (exists_where (releases r (some w)) rows ≡ false)
      × (delete_where (releases r (some w)) rows ≡ rows)
unfolding exists_where delete_where releases
release-IsFree r w [] h = (refl, refl)
release-IsFree r w (x ∷ rows) h =
    let (none_there, same) = release-IsFree r w rows h.1 in
    (ground (arith, h.0), ground (arith, h.0))

-- After a wake has re-enqueued a run, a release of that run by any worker, under its own id,
-- reports no claim and deletes nothing.
pub release-upsert :
    (r : Uuid) (w : Text) (db : Db)
    → release r (some w) (upsert_task_queue r db) ≡ (false, upsert_task_queue r db)
unfolding release
release-upsert r w db =
    let (none_there, same) =
      release-IsFree r w (upsert_task_queue r db).task_queue (upsert-IsFree r db) in
    λ i. (none_there i, record (upsert_task_queue r db) { task_queue = same i })
