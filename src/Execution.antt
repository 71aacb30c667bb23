-- ===== src/Execution.antt =====
-- execution/base.py: the port of the execution backends, whose adapters are other packages.
pub mod Backends
use flow_speckit.Prelude.{ℕ, Bool, false, Option, none, List, Text}
use flow_speckit.Errors.{Called}

pub record BackendHealth : Type 0 where
  pub available : Bool
  pub message : Text

-- `no_network` is `network == "none"`; an amount is a number of millionths of a dollar.
pub record ExecutionConstraints : Type 0 where
  pub timeout_s : ℕ
  pub max_cost_usd : ℕ
  pub allowed_paths : Option (List Text)
  pub no_network : Bool

abbrev pub default_constraints : ExecutionConstraints
default_constraints = record {
  timeout_s = 600;
  max_cost_usd = 100000000;
  allowed_paths = none;
  no_network = false;
}

pub record Workspace : Type 0 where
  pub path : Text
  pub repo : Text
  pub base_branch : Text
  pub target_branch : Text

pub record ExecutionTask : Type 0 where
  pub instructions : Text
  pub task_plan_ref : Text
  pub constraints : ExecutionConstraints

pub record CommitInfo : Type 0 where
  pub sha : Text
  pub message : Text
  pub author : Text

pub record CostReport : Type 0 where
  pub tokens_in : ℕ
  pub tokens_out : ℕ
  pub usd : ℕ

pub data ExecutionStatus : Type 0 where
  completed failed partial : ExecutionStatus

pub record ExecutionResult : Type 0 where
  pub status : ExecutionStatus
  pub summary : Text
  pub commits : List CommitInfo
  pub diff_ref : Text
  pub cost : CostReport

-- A backend may answer differently at each side effect.
pub record ExecutionBackend : Type 0 where
  pub name : Text
  pub check_available : ℕ → Called BackendHealth
  pub execute : ℕ → ExecutionTask → Workspace → Called ExecutionResult
