-- ===== src/Scenarios/Commanding.antt =====
-- The commands on the draft run, and an inbox with two open gates of one key.
use flow_speckit.Prelude.{◌≡◌, refl, none, List, [], ◌∷◌, if◌then◌else◌, Text, codes, text_eq}
use flow_speckit.Base.{OnTimeout, DecisionLiteral}
use flow_speckit.Events.{GateOpened, WorkflowEvent, gate_opened, gate_resolved}
use flow_speckit.Engine.Execute.{last_where}
use flow_speckit.Gates.{open_gate}
use flow_speckit.Commands.{fold_open_gates}
use flow_speckit.Commands.Inbox.{open_gate-fold_open_gates}

abbrev first_review : GateOpened
first_review = record {
  step_key = codes "review";
  gate_key = codes "review";
  artifact_id = 4;
  approvers = [];
  timeout_at = none;
  timeout_s = none;
  on_timeout = OnTimeout.fail;
  escalate_to = none;
}

abbrev second_review : GateOpened
second_review = record first_review { step_key = codes "review#2"; artifact_id = 5 }

abbrev release : GateOpened
release = record first_review { step_key = codes "release"; gate_key = codes "release" }

abbrev reviews : List WorkflowEvent
reviews =
    gate_opened first_review
    ∷ gate_opened release
    ∷ gate_opened second_review
    ∷ gate_resolved (record {
      step_key = codes "release";
      gate_key = codes "release";
      decision = DecisionLiteral.approved;
      actor = codes "ana";
      comment = none;
      resolved_at = none;
    })
    ∷ []

abbrev key_of : Text → Text
key_of step_key = if text_eq step_key (codes "release") then codes "release" else codes "review"

open_gate-fold_open_gates_example :
    open_gate reviews (codes "review")
    ≡ last_where (λ g. text_eq g.gate_key (codes "review")) (fold_open_gates reviews)
unfolding text_eq
open_gate-fold_open_gates_example =
    open_gate-fold_open_gates key_of (codes "review") reviews (refl, (refl, (refl, (tt, tt))))
