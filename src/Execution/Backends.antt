-- ===== src/Execution/Backends.antt =====
-- `BackendRegistry` of execution/backend_registry.py. The entry points are a parameter: what each
-- of them loads, with `none` where `discover` skips it.
use flow_speckit.Prelude.{Option, none, some, List, [], ◌∷◌, map, Text, Dict, dict_get, dict_put}
use flow_speckit.Errors.{ok, raised, no_backend}
use flow_speckit.Action.{Action}
use flow_speckit.Execution.{ExecutionBackend}

abbrev pub BackendRegistry : Type 0
BackendRegistry = Dict ExecutionBackend

module _ (local : ExecutionBackend) (entry_points : List (Option ExecutionBackend)) where
  load : List (Option ExecutionBackend) → BackendRegistry → BackendRegistry
  load [] backends = backends
  load (none ∷ entries) backends = load entries backends
  load (some backend ∷ entries) backends = load entries (dict_put backend.name backend backends)

  unfoldable pub discover : BackendRegistry → BackendRegistry
  unfolding load
  discover backends = load entry_points (dict_put local.name local backends)

  -- `if not self._backends: self.discover()`.
  abbrev pub discovered : BackendRegistry → BackendRegistry
  discovered [] = discover []
  discovered (b ∷ backends) = b ∷ backends

  find_backend : Text → Action BackendRegistry ExecutionBackend
  find_backend name backends = elim (dict_get name backends) [
    | none ↦ (raised (no_backend name (map (λ entry. entry.0) backends)), backends)
    | some backend ↦ (ok backend, backends)
  ]

  unfoldable pub get_backend : Text → Action BackendRegistry ExecutionBackend
  unfolding find_backend discover
  get_backend name backends = find_backend name (discovered backends)

  unfoldable pub list_backends : Action BackendRegistry (List ExecutionBackend)
  unfolding discover
  list_backends backends = (ok (map (λ entry. entry.1) (discovered backends)), discovered backends)
