-- ===== src/Base.antt =====
-- The identifiers, instants and closed string sets that the program's parts share
-- (workflows/events.py, artifacts/models.py, storage/schema.py).
use flow_speckit.Prelude.{ℕ, Bool, true, false}

-- A UUID is its 128-bit integer, an instant a number of clock ticks, a duration a number of them.
abbrev pub Uuid : Type 0
Uuid = ℕ

abbrev pub Instant : Type 0
Instant = ℕ

pub data RunStatus : Type 0 where
  pending running waiting_gate waiting_timer completed failed cancelled : RunStatus

-- `status in TERMINAL_STATUSES` of workflows/engine.py.
abbrev pub is_terminal : RunStatus → Bool
is_terminal completed = true
is_terminal failed = true
is_terminal cancelled = true
is_terminal _ = false

pub data StepKind : Type 0 where
  skill execute gate sleep child intrinsic : StepKind

pub data DecisionLiteral : Type 0 where
  approved rejected : DecisionLiteral

pub data OnTimeout : Type 0 where
  fail approve escalate : OnTimeout

pub data TimerKind : Type 0 where
  gate_timeout sleep retry : TimerKind

pub data Status : Type 0 where
  draft proposed approved rejected superseded : Status

pub data Relation : Type 0 where
  derived_from supersedes informs implements reviews : Relation

-- The handler kinds of `_HANDLER_SUBSYSTEMS` (workflows/context.py).
pub data HandlerKind : Type 0 where
  skill execute open_pr : HandlerKind
