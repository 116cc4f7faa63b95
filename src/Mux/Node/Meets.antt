-- ===== src/Mux/Node/Meets.antt =====
-- services/mux: a node and its bridge on the two ends of a connection.
use jocasta.Prelude.{false, some, [], ◌∷◌}
use jocasta.Go.Io.{Bytes}
use jocasta.Through.{rep_success, version}
use jocasta.Mux.Bridge.{Bridge, Outcome}

-- The reply of a bridge that takes a node in.
abbrev pub welcome : Bytes
welcome = rep_success ∷ version ∷ []

abbrev pub success : Outcome
success = record { status = some rep_success; closes = false }
