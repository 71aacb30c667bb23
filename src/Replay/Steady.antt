-- ===== src/Replay/Steady.antt =====
-- Actions that leave the memo and the step keys alone, and those that commit one step.
use flow_speckit.Prelude.{
  ◌≡◌, refl, ap, ◌∙◌, ◌≢◌, Bool, true, false, none, if◌then◌else◌, Text, dict_get, dict_put,
}
use flow_speckit.Json.{Json}
use flow_speckit.Errors.{Exception, SuspendRun, Outcome, ok}
use flow_speckit.Action.{Action, raise, suspend, crash, ◌>>=◌}
use flow_speckit.Action.Post.{>>=-eq-ok}
use flow_speckit.Context.{Context, Pass}
use flow_speckit.Replay.Tracking.{PassTracks}

-- An action that never returns a value.
pub record Never {A : Type 0} (m : Action Pass A) : Type 0 where
  pub at : (s t : Pass) (a : A) → m s ≢ (ok a, t)

-- The parts of the context that the answers of replay depend on.
pub record SameKeys (s t : Context) : Type 0 where
  pub run_id : t.run_id ≡ s.run_id
  pub ordinals : t.ordinals ≡ s.ordinals
  pub requested : t.requested ≡ s.requested
  pub sealed : t.sealed ≡ s.sealed

pub record Quiet (s t : Pass) : Type 0 where
  pub keys : SameKeys s.ctx t.ctx
  pub memoized : t.ctx.memoized ≡ s.ctx.memoized
  pub resolved : t.ctx.gates_resolved ≡ s.ctx.gates_resolved
  pub tracks : PassTracks s → PassTracks t

-- The step `key` ended with `v`, in the memo and in the log.
pub record Committed (key : Text) (v : Json) (s t : Pass) : Type 0 where
  pub keys : SameKeys s.ctx t.ctx
  pub memoized : t.ctx.memoized ≡ dict_put key v s.ctx.memoized
  pub resolved : t.ctx.gates_resolved ≡ s.ctx.gates_resolved
  pub tracks : PassTracks s → PassTracks t

pub SameKeys-trans : {a b c : Context} → SameKeys a b → SameKeys b c → SameKeys a c
SameKeys-trans h k = record {
  run_id = k.run_id ∙ h.run_id;
  ordinals = k.ordinals ∙ h.ordinals;
  requested = k.requested ∙ h.requested;
  sealed = k.sealed ∙ h.sealed;
}

pub SameKeys-refl : (a : Context) → SameKeys a a
SameKeys-refl a = record { run_id = refl; ordinals = refl; requested = refl; sealed = refl }

pub Quiet-refl : (s : Pass) → Quiet s s
Quiet-refl s = record {
  keys = SameKeys-refl s.ctx;
  memoized = refl;
  resolved = refl;
  tracks = λ t. t;
}

pub Quiet-trans : {s t u : Pass} → Quiet s t → Quiet t u → Quiet s u
Quiet-trans h k = record {
  keys = SameKeys-trans h.keys k.keys;
  memoized = k.memoized ∙ h.memoized;
  resolved = k.resolved ∙ h.resolved;
  tracks = λ t. k.tracks (h.tracks t);
}

pub Quiet-Committed :
    (key : Text) (v : Json) {s t u : Pass} → Quiet s t → Committed key v t u → Committed key v s u
Quiet-Committed key v h k = record {
  keys = SameKeys-trans h.keys k.keys;
  memoized = k.memoized ∙ ap (dict_put key v) h.memoized;
  resolved = k.resolved ∙ h.resolved;
  tracks = λ t. k.tracks (h.tracks t);
}

pub record Steady {A : Type 0} (m : Action Pass A) : Type 0 where
  pub at : (s t : Pass) (a : A) → m s ≡ (ok a, t) → Quiet s t

pub record Commits (key : Text) (m : Action Pass Json) : Type 0 where
  pub at :
      (s t : Pass) (a : Json)
      → dict_get key s.ctx.memoized ≡ none
      → PassTracks s
      → m s ≡ (ok a, t)
      → Committed key a s t

pub Steady-bind :
    {A B : Type 0} (m : Action Pass A) (f : A → Action Pass B)
    → Steady m
    → ((a : A) → Steady (f a))
    → Steady (m >>= f)
Steady-bind m f hm hf = record {
  at = λ s u b e.
      let (a, t, first, rest) = >>=-eq-ok m f s e in
      Quiet-trans (hm.at s t a first) ((hf a).at t u b rest);
}

pub Commits-bind :
    {A : Type 0} (key : Text) (m : Action Pass A) (f : A → Action Pass Json)
    → Steady m
    → ((a : A) → Commits key (f a))
    → Commits key (m >>= f)
Commits-bind key m f hm hf = record {
  at = λ s u b miss tr e.
      let (a, t, first, rest) = >>=-eq-ok m f s e in
      let quiet = hm.at s t a first in
      Quiet-Committed key b quiet
        ((hf a).at t u b (ap (dict_get key) quiet.memoized ∙ miss) (quiet.tracks tr) rest);
}

pub Never-bind :
    {A B : Type 0} (m : Action Pass A) (f : A → Action Pass B)
    → ((a : A) → Never (f a))
    → Never (m >>= f)
Never-bind m f hf = record {
  at = λ s u b e. let (a, t, first, rest) = >>=-eq-ok m f s e in (hf a).at t u b rest;
}

pub Never-raise : (e : Exception) → Never {A = Json} (raise e)
Never-raise e = record { at = λ s t a h. cc (ap (λ (p : Outcome Json × Pass). p.0) h) }

pub Never-suspend : (r : SuspendRun) → Never {A = Json} (suspend r)
Never-suspend r = record { at = λ s t a h. cc (ap (λ (p : Outcome Json × Pass). p.0) h) }

pub Never-crash : Never {A = Json} crash
Never-crash = record { at = λ s t a h. cc (ap (λ (p : Outcome Json × Pass). p.0) h) }

pub Commits-of_Never : (key : Text) {m : Action Pass Json} → Never m → Commits key m
Commits-of_Never key never = record { at = λ s t a _ _ h. absurd (never.at s t a h) }

pub Commits-if :
    (key : Text) (b : Bool) (m n : Action Pass Json)
    → Commits key m
    → Commits key n
    → Commits key (if b then m else n)
Commits-if key true m n hm hn = hm
Commits-if key false m n hm hn = hn
