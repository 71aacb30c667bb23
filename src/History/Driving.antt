-- ===== src/History/Driving.antt =====
-- The commands that drive a run without a worker, as sequences of the engine's operations.
use flow_speckit.Engine.Execute.{World}
use flow_speckit.Commands.{Driven}
use flow_speckit.History.Steps.{Reach}
use flow_speckit.Json.{Json}

-- What goes on does no more than steps either.
abbrev Goes : (World → Driven) → Type 0
Goes again = (w : World) → Reach w.db (again w).1.db
