-- ===== src/Replay/Waiting.antt =====
-- Gates, sleeps and children: what they leave behind when they return a value.
use flow_speckit.Prelude.{
  ℕ, ◌+◌, ◌≡◌, refl, sym, ap, ◌∙◌, subst, inl, inr, Bool, true, false, Option, none, some, arith,
  Option-cases, Text, dict_get, dict_put,
}
use flow_speckit.Base.{Uuid, TimerKind}
use flow_speckit.Errors.{Outcome, ok}
use flow_speckit.Events.{GateOpened, GateResolved, gate_resolved}
use flow_speckit.Workflow.{GateDecision, decision_from_event}
use flow_speckit.Action.{Action, pure, ◌>>=◌, ◌>>◌}
use flow_speckit.Action.Post.{>>=-eq-ok}
use flow_speckit.Context.{Pass}
use flow_speckit.Context.Keys.{require_live}
use flow_speckit.Context.Steps.{append_event, raise_if_cancelled}
use flow_speckit.Context.Waits.{
  GateRequest, artifact_id_of, remember_opened, open_gate, await_gate, find_or_open, run_gate,
  arm_timeout, auto_resolution,
}
use flow_speckit.Replay.Tracking.{Tracks-resolved}
use flow_speckit.Replay.Steady.{Quiet, Quiet-refl, Steady, Steady-bind}
use flow_speckit.Replay.Checkpoints.{
  Steady-require_live, Steady-raise_if_cancelled, Steady-append_event, Steady-add_timer,
}
use flow_speckit.Replay.Answers.{Grows, Grows-refl, put-keeps, put-finds, Quiet-Grows}
use flow_speckit.Storage.Recording.{record_event}

-- What a gate that returned a decision leaves behind.
pub record GateAnswer (key : Text) (d : GateDecision) (s t : Pass) : Type 0 where
  pub grows : Grows s t
  pub resolution : GateResolved
  pub found : dict_get key t.ctx.gates_resolved ≡ some resolution
  pub decides : d ≡ decision_from_event resolution

Steady-artifact_id_of : (o : Option Uuid) → Steady (artifact_id_of o)
unfolding artifact_id_of
Steady-artifact_id_of none = record {
  at = λ s t a h. absurd (cc (ap (λ (p : Outcome Uuid × Pass). p.0) h));
}
Steady-artifact_id_of (some u) = record {
  at = λ s t a h. subst (Quiet s) (ap (λ (p : Outcome Uuid × Pass). p.1) h) (Quiet-refl s);
}

Steady-remember_opened : (e : GateOpened) → Steady (remember_opened e)
unfolding remember_opened
Steady-remember_opened e = record {
  at = λ s t a h. subst (Quiet s) (ap (λ (p : Outcome Unit × Pass). p.1) h) (record {
    keys = record { run_id = refl; ordinals = refl; requested = refl; sealed = refl };
    memoized = refl;
    resolved = refl;
    tracks = λ t. t;
  });
}

Steady-pure : {A : Type 0} (x : A) → Steady (pure x)
Steady-pure {A} x = record {
  at = λ s t a h. subst (Quiet s) (ap (λ (p : Outcome A × Pass). p.1) h) (Quiet-refl s);
}

Steady-arm_timeout : (auto : Bool) (key : Text) (t : Option ℕ) → Steady (arm_timeout auto key t)
Steady-arm_timeout auto key none = Steady-pure tt
Steady-arm_timeout true key (some t) = Steady-pure tt
Steady-arm_timeout false key (some t) = record {
  at = λ s. (Steady-add_timer TimerKind.gate_timeout key (s.db.clock + t)).at s;
}

Steady-open_gate :
    (auto : Bool) (key label : Text) (g : GateRequest) → Steady (open_gate auto key label g)
unfolding open_gate
Steady-open_gate auto key label g = record {
  at = λ s.
      (Steady-bind _ _ (Steady-artifact_id_of g.artifact) λ artifact.
          Steady-bind _ _ (Steady-append_event _ refl) λ _.
            Steady-bind _ _ (Steady-append_event _ refl) λ _.
              Steady-bind _ _ (Steady-remember_opened _)
                λ _. Steady-bind _ _ (Steady-arm_timeout auto key g.timeout) λ _. Steady-pure _).at
        s;
}

find_or_open_hit :
    (auto : Bool) (key label : Text) (g : GateRequest) (s : Pass) (opened : GateOpened)
    → dict_get key s.ctx.gates_opened ≡ some opened
    → find_or_open auto key label g s ≡ (ok opened, s)
unfolding find_or_open
find_or_open_hit auto key label g s opened hit = rw (hit, find_or_open)

find_or_open_miss :
    (auto : Bool) (key label : Text) (g : GateRequest) (s : Pass)
    → dict_get key s.ctx.gates_opened ≡ none
    → find_or_open auto key label g s ≡ open_gate auto key label g s
unfolding find_or_open open_gate
find_or_open_miss auto key label g s miss = rw (miss, find_or_open)

Steady-find_or_open :
    (auto : Bool) (key label : Text) (g : GateRequest) → Steady (find_or_open auto key label g)
Steady-find_or_open auto key label g = record {
  at = λ s t a h. elim (Option-cases (dict_get key s.ctx.gates_opened)) [
    | inl miss ↦
        (Steady-open_gate auto key label g).at s t a
          (sym (find_or_open_miss auto key label g s miss) ∙ h)
    | inr (opened, hit) ↦
        subst (Quiet s)
          (ap (λ (p : Outcome GateOpened × Pass). p.1)
            (sym (find_or_open_hit auto key label g s opened hit) ∙ h))
          (Quiet-refl s)
  ];
}

-- The resolution that `auto_approve` appends, in the log and in the context.
await_gate_state :
    (auto : Bool) (key : Text) (opened : GateOpened) (s t : Pass) (d : GateDecision)
    → await_gate auto key opened s ≡ (ok d, t)
    → (decision_from_event (auto_resolution opened key s.db.clock) ≡ d)
      × (record s {
        db = record_event s.ctx.run_id (gate_resolved (auto_resolution opened key s.db.clock)) s.db;
        ctx = record s.ctx {
          gates_resolved =
              dict_put key (auto_resolution opened key s.db.clock) s.ctx.gates_resolved;
        };
      }
          ≡ t)
unfolding await_gate ◌>>=◌ append_event
await_gate_state auto key opened s t d h = (ground arith, ground arith)

GateAnswer-await_gate :
    (auto : Bool) (key : Text) (opened : GateOpened) (s t : Pass) (d : GateDecision)
    → dict_get key s.ctx.gates_resolved ≡ none
    → await_gate auto key opened s ≡ (ok d, t)
    → GateAnswer key d s t
GateAnswer-await_gate auto key opened s t d miss h =
    let (same, state) = await_gate_state auto key opened s t d h in
    subst (GateAnswer key d s) state (record {
      grows = record {
        keys = record { run_id = refl; ordinals = refl; requested = refl; sealed = refl };
        memo = λ k v e. e;
        gates = λ k e f. put-keeps key k _ e s.ctx.gates_resolved miss f;
        tracks = λ t. Tracks-resolved s.ctx.run_id s.db t (auto_resolution opened key s.db.clock);
      };
      resolution = auto_resolution opened key s.db.clock;
      found = put-finds key _ s.ctx.gates_resolved;
      decides = sym same;
    })

Quiet-GateAnswer :
    (key : Text) (d : GateDecision) {s t u : Pass}
    → Quiet s t
    → GateAnswer key d t u
    → GateAnswer key d s u
Quiet-GateAnswer key d q a = record {
  grows = Quiet-Grows q a.grows;
  resolution = a.resolution;
  found = a.found;
  decides = a.decides;
}

pub run_gate_hit :
    (auto : Bool) (key label : Text) (g : GateRequest) (s : Pass) (e : GateResolved)
    → dict_get key s.ctx.gates_resolved ≡ some e
    → run_gate auto key label g s ≡ (ok (decision_from_event e), s)
unfolding run_gate decision_from_event
run_gate_hit auto key label g s e hit = rw (hit, run_gate)

run_gate_miss :
    (auto : Bool) (key label : Text) (g : GateRequest) (s : Pass)
    → dict_get key s.ctx.gates_resolved ≡ none
    → run_gate auto key label g s
      ≡ (do
        require_live key
        raise_if_cancelled key
        opened ← find_or_open auto key label g
        await_gate auto key opened)
          s
unfolding run_gate ◌>>=◌
run_gate_miss auto key label g s miss = rw (miss, run_gate)

-- An action that returns a decision only with the resolution remembered.
record Decides (key : Text) (m : Action Pass GateDecision) : Type 0 where
  at :
      (s t : Pass) (d : GateDecision)
      → dict_get key s.ctx.gates_resolved ≡ none
      → m s ≡ (ok d, t)
      → GateAnswer key d s t

Decides-bind :
    {A : Type 0} (key : Text) (m : Action Pass A) (f : A → Action Pass GateDecision)
    → Steady m
    → ((a : A) → Decides key (f a))
    → Decides key (m >>= f)
Decides-bind key m f hm hf = record {
  at = λ s u d miss e.
      let (a, t, first, rest) = >>=-eq-ok m f s e in
      let quiet = hm.at s t a first in
      Quiet-GateAnswer key d quiet ((hf a).at t u d (ap (dict_get key) quiet.resolved ∙ miss) rest);
}

Decides-live_gate :
    (auto : Bool) (key label : Text) (g : GateRequest)
    → Decides key (do
      require_live key
      raise_if_cancelled key
      opened ← find_or_open auto key label g
      await_gate auto key opened)
Decides-live_gate auto key label g = Decides-bind key _ _ (Steady-require_live key) λ _.
    Decides-bind key _ _ (Steady-raise_if_cancelled key) λ _.
      Decides-bind key _ _ (Steady-find_or_open auto key label g)
        λ opened. record { at = λ s t d miss h. GateAnswer-await_gate auto key opened s t d miss h }

pub GateAnswer-run_gate :
    (auto : Bool) (key label : Text) (g : GateRequest) (s t : Pass) (d : GateDecision)
    → run_gate auto key label g s ≡ (ok d, t)
    → GateAnswer key d s t
GateAnswer-run_gate auto key label g s t d h =
    elim (Option-cases (dict_get key s.ctx.gates_resolved)) [
      | inl miss ↦
          (Decides-live_gate auto key label g).at s t d miss
            (sym (run_gate_miss auto key label g s miss) ∙ h)
      | inr (e, hit) ↦
          let same = sym (run_gate_hit auto key label g s e hit) ∙ h in
          subst (GateAnswer key d s) (ap (λ (p : Outcome GateDecision × Pass). p.1) same)
            (record { grows = Grows-refl s; resolution = e; found = hit; decides = ground arith })
    ]
