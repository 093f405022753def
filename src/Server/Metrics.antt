-- ===== src/Server/Metrics.antt =====
-- crates/server/src/metrics.rs and config.rs. `fetch_add` on an `AtomicU64` wraps.
use zoocooker.Base.{ℕ, ◌+◌, ◌%◌, ◌^◌}
use zoocooker.Protocol.Types.{incr64}
use zoocooker.Server.Session.{Duration}

pub record MetricsSnapshot : Type 0 where
  pub reads : ℕ
  pub writes : ℕ
  pub watch_registrations : ℕ
  pub watch_rejections : ℕ
  pub session_cleanups : ℕ

abbrev pub default_metrics : MetricsSnapshot
default_metrics = record {
  reads = 0;
  writes = 0;
  watch_registrations = 0;
  watch_rejections = 0;
  session_cleanups = 0;
}

abbrev pub inc_reads : MetricsSnapshot → MetricsSnapshot
inc_reads m = record m { reads = incr64 m.reads }

abbrev pub inc_writes : MetricsSnapshot → MetricsSnapshot
inc_writes m = record m { writes = incr64 m.writes }

abbrev pub inc_watch_registrations : MetricsSnapshot → MetricsSnapshot
inc_watch_registrations m = record m { watch_registrations = incr64 m.watch_registrations }

abbrev pub inc_watch_rejections : MetricsSnapshot → MetricsSnapshot
inc_watch_rejections m = record m { watch_rejections = incr64 m.watch_rejections }

abbrev pub inc_session_cleanups : ℕ → MetricsSnapshot → MetricsSnapshot
inc_session_cleanups count m = record m { session_cleanups = (m.session_cleanups + count) % 2 ^ 64 }

-- milliseconds
pub record ServerConfig : Type 0 where
  pub session_ttl : Duration
  pub watch_channel_capacity : ℕ
  pub max_watches : ℕ

abbrev pub default_config : ServerConfig
default_config = record { session_ttl = 10_000; watch_channel_capacity = 32; max_watches = 10_000 }
