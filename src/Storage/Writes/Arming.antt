-- ===== src/Storage/Writes/Arming.antt =====
-- A timer that was deleted stays deleted, since new timers get new ids.
use flow_speckit.Prelude.{
  ◌≤◌, ◌<◌, ◌≡◌, refl, Bool, false, List, [], ◌∷◌, arith, ◌==◌, All, All-append, All-map,
  delete_where, exists_where, exists_where-append, All-delete_where, Text,
}
use flow_speckit.Storage.Log.{append}
use flow_speckit.Storage.{insert_timer, TimerRow, Db}
use flow_speckit.Base.{Uuid, TimerKind, Instant}
use flow_speckit.Storage.Writes.{Untouched, Writes, untouched, appended, armed, disarmed, followed}

-- Every timer's id was taken before.
pub record IsFresh (db : Db) : Type 0 where
  pub below : All (λ t. t.timer_id < db.fresh) db.timers

unfoldable pub has_timer : Uuid → Db → Bool
has_timer timer_id db = exists_where (λ t. t.timer_id == timer_id) db.timers

IsFresh-Untouched : {a b : Db} → Untouched a b → IsFresh a → IsFresh b
IsFresh-Untouched {a} h f = record {
  below = rw h.timers (All-map a.timers (λ t lt. omega (arith, h.fresh, lt)) f.below);
}

IsFresh-insert_timer :
    (run_id : Uuid) (kind : TimerKind) (key : Text) (fire_at : Instant) (db : Db)
    → IsFresh db
    → IsFresh (insert_timer run_id kind key fire_at db)
unfolding insert_timer
IsFresh-insert_timer run_id kind key fire_at db f = record {
  below =
      All-append _ db.timers _ (All-map db.timers (λ t lt. omega (arith, lt)) f.below)
        (omega arith, tt);
}

pub Writes-IsFresh : {a b : Db} → Writes a b → IsFresh a → IsFresh b
unfolding append
Writes-IsFresh (untouched h) f = IsFresh-Untouched h f
Writes-IsFresh (appended run_id e h) f = IsFresh-Untouched h (record { below = f.below })
Writes-IsFresh (armed {a} run_id kind key fire_at h) f =
    IsFresh-Untouched h (IsFresh-insert_timer run_id kind key fire_at a f)
Writes-IsFresh (disarmed {a} p h) f =
    IsFresh-Untouched h (record { below = All-delete_where _ p a.timers f.below })
Writes-IsFresh (followed h k) f = Writes-IsFresh k (Writes-IsFresh h f)

pub Writes-fresh : {a b : Db} → Writes a b → a.fresh ≤ b.fresh
unfolding append insert_timer
Writes-fresh (untouched h) = h.fresh
Writes-fresh (appended run_id e h) = h.fresh
Writes-fresh (armed run_id kind key fire_at h) = omega (arith, h.fresh)
Writes-fresh (disarmed p h) = h.fresh
Writes-fresh (followed h k) = omega (arith, Writes-fresh h, Writes-fresh k)

has_timer-insert_timer :
    (run_id : Uuid) (kind : TimerKind) (key : Text) (fire_at : Instant) (timer_id : Uuid) (db : Db)
    → timer_id < db.fresh
    → has_timer timer_id db ≡ false
    → has_timer timer_id (insert_timer run_id kind key fire_at db) ≡ false
unfolding has_timer insert_timer exists_where
has_timer-insert_timer run_id kind key fire_at timer_id db lt gone =
    rw (exists_where-append (λ (t : TimerRow). t.timer_id == timer_id) db.timers _)
      (rw gone (ground arith))

exists-delete_where :
    (p q : TimerRow → Bool) (rows : List TimerRow)
    → exists_where q rows ≡ false
    → exists_where q (delete_where p rows) ≡ false
unfolding exists_where delete_where
exists-delete_where p q [] h = refl
exists-delete_where p q (t ∷ ts) h = ground (arith, exists-delete_where p q ts)

pub Writes-gone :
    {a b : Db} (timer_id : Uuid)
    → Writes a b
    → timer_id < a.fresh
    → has_timer timer_id a ≡ false
    → has_timer timer_id b ≡ false
unfolding has_timer append
Writes-gone timer_id (untouched h) lt gone = rw h.timers gone
Writes-gone timer_id (appended run_id e h) lt gone = rw h.timers gone
Writes-gone timer_id (armed {a} run_id kind key fire_at h) lt gone =
    rw h.timers (has_timer-insert_timer run_id kind key fire_at timer_id a lt gone)
Writes-gone timer_id (disarmed {a} p h) lt gone =
    rw h.timers (exists-delete_where p (λ t. t.timer_id == timer_id) a.timers gone)
Writes-gone timer_id (followed h k) lt gone =
    Writes-gone timer_id k (omega (arith, lt, Writes-fresh h)) (Writes-gone timer_id h lt gone)
