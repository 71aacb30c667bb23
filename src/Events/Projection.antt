-- ===== src/Events/Projection.antt =====
-- `project_run` as a fold: one more event, and what the last terminal event leaves.
use flow_speckit.Prelude.{◌≡◌, refl, List, [], ◌∷◌, ◌++◌}
use flow_speckit.Base.{Uuid}
use flow_speckit.Events.{
  WorkflowEvent, RunProjection, project_event, project_from, project_run, empty_projection,
}

pub project_from-append :
    (p : RunProjection) (xs ys : List WorkflowEvent)
    → project_from p (xs ++ ys) ≡ project_from (project_from p xs) ys
unfolding project_from
project_from-append p [] ys = refl
project_from-append p (x ∷ xs) ys = project_from-append (project_event p x) xs ys

-- Appending one event to the log applies one step of the fold to the projection.
pub project_run-append :
    (run_id : Uuid) (events : List WorkflowEvent) (e : WorkflowEvent)
    → project_run run_id (events ++ e ∷ []) ≡ project_event (project_run run_id events) e
unfolding project_run project_from
project_run-append run_id events e = project_from-append (empty_projection run_id) events (e ∷ [])
