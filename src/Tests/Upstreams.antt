-- ===== src/Tests/Upstreams.antt =====
-- Backends at concrete calls.
use palisade.Prelude.{true, false}
use palisade.Text.{codes}
use palisade.Upstream.{UpstreamState, ValidatedUpstream, new, record_failure}
use palisade.Tests.World.{http}

abbrev pub fresh : UpstreamState http
fresh = record {
  uri = (codes "http", codes "a", codes "/");
  weight = 2;
  consecutive_failures = 0;
  consecutive_successes = 0;
  healthy = true;
  created = 0;
  cooldown_ms = 5000;
  cooldown_until_ms = 0;
}

abbrev pub ejected : UpstreamState http
ejected = record fresh { healthy = false; consecutive_failures = 1; cooldown_until_ms = 5000 }

abbrev backend : ValidatedUpstream http
backend = record { uri = (codes "http", codes "a", codes "/"); weight = 2 }

-- One failure below the threshold, and one that ejects.
abbrev failed_twice : UpstreamState http
failed_twice = (record_failure 8 2 (record_failure 7 2 (new backend 5_000_000_000 0)).0).0
