-- ===== src/Sh/Run/Wiring/Sound.antt =====
-- sh.c, runcmd: every program that a command starts has the descriptors that the command gives it.
use jyyos.Prelude.{◌≢◌}
use jyyos.Prelude.{none}
use jyyos.Sh.Parse.Ensures.{Ensures}
use jyyos.Sh.Run.Wiring.{Table}

-- 0 and 1 are open.
abbrev pub IsOpen : Table → Type 0
IsOpen t = (t 0 ≢ none) × (t 1 ≢ none)
