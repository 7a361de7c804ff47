-- ===== src/App/Program/Exit.antt =====
-- How src/main.cpp ends.
use spout_relay.Base.{Outcome, done, fault, uncaught_exception, none, some, String, ◌≡◌}
use spout_relay.Config.Json.{threw_other, Json}
use spout_relay.App.Supervisor.State.{Platform, Supervisor, EncodeThread}
use spout_relay.App.Supervisor.State
use spout_relay.App.Supervisor.Ownership.Shutdown.{IsAtRest}
use spout_relay.App.Program.{World, Ended}

-- How the process exits: a run of the supervisor ends at rest and with exit code 0; without one the code is 0 or 1.
pub data IsExit : Ended → Type 0 where
  told_usage : IsExit (0, none)
  refused : IsExit (1, none)
  rested : {s : Supervisor} → IsAtRest s → IsExit (0, some s)

module _ (pf : Platform) (J : Json) (w : World J) where
  -- The exit, or the one way in which the process is terminated instead.
  pub data HasEnded : Outcome Ended → Type 0 where
    exited : {e : Ended} → IsExit e → HasEnded (done e)
    terminated :
        {path : String} → w.file path ≡ some threw_other → HasEnded (fault uncaught_exception)
