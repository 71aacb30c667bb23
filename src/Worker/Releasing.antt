-- ===== src/Worker/Releasing.antt =====
-- A worker keeps no claim on a run that it has finished with.
