-- ===== src/Web/Sessions/RoundTrip.antt =====
-- A session that has been saved is found again.
use contest_sync.World.Prog.{World}
