-- ===== src/Common/Control.antt =====
-- internal/common/scan_runner.go: Start, Stop and IsRunning, the hold that a server has on a scan's
-- goroutine. The channels `stop` and `done` are whether they are closed.
use ska_low_station_beam_sim.Prelude.{Bool, true, false, not, ◌&&◌}

pub record Control : Type 0 where
  pub started : Bool
  pub stop : Bool
  pub done : Bool

-- The fields that NewScanRunner sets.
abbrev pub idle : Control
idle = record { started = false; stop = false; done = false }

-- Start
unfoldable pub start : Control → Control
start c = record c { started = true }

-- IsRunning
unfoldable pub is_running : Control → Bool
is_running c = c.started && not c.done

-- Stop, which closes `stop` unless it is closed; the time that it waits for the goroutine to end is
-- between this step and the next.
unfoldable pub stop_scan_loop : Control → Control
stop_scan_loop c = record c { stop = true }

-- The end of run(), which closes `done`.
unfoldable pub finish : Control → Control
finish c = record c { done = true }
