-- ===== src/Server/Requests/Sound/State.antt =====
-- The invariant of a server, over any consensus, kept by the parts of its handlers.
use zoocooker.Base.{ℕ, ◌≡◌, refl, ◌∙◌, Bool, inl, inr, Text, List, [], ◌∷◌, arith, nat_eq}
use zoocooker.Base.Dict
use zoocooker.Base.Exec.{Result}
use zoocooker.Protocol.Types.{
  Command, ApplyResult, WatchEvent, WatchKind, data_watch, children_watch,
}
use zoocooker.Consensus.Interface.{Consensus, Keeps}
use zoocooker.Server.Watch.{
  WatchRegistry, Sender, register, sweep_closed, take_event, take_matching, served, without,
}
use zoocooker.Server.Watch.Capacity.{IsCounted, take_matching-IsCounted}
use zoocooker.Server.Metrics.{MetricsSnapshot}
use zoocooker.Server.Service.{Service, Status, Texts, notify, write}
use zoocooker.Server.Service.Writes.{submitted, write-cases}

-- `P` holds of the consensus' state; the count of watchers is exact, and within the configured limit;
-- no session is listed twice; the TTL of the sessions is the configured one.
pub record IsSound {S : Type 0} (P : S → Type 0) (s : Service S) : Type 0 where
  pub kept : P s.consensus
  pub counted : IsCounted s.watches
  pub distinct : Dict.NodupKeys s.sessions.sessions
  pub ttl : s.sessions.ttl ≡ s.config.session_ttl
  pub limit : s.watches.max_watches ≡ s.config.max_watches

max-take_event :
    (event : WatchEvent) (r : WatchRegistry) → (take_event event r).1.max_watches ≡ r.max_watches
unfolding take_event
max-take_event event r = go (served event.kind)
  where
    go : (kind : WatchKind) → (without kind event.path r).max_watches ≡ r.max_watches
    go data_watch = refl
    go children_watch = refl

max-take_matching :
    (events : List WatchEvent) (r : WatchRegistry)
    → (take_matching events r).1.max_watches ≡ r.max_watches
unfolding take_matching
max-take_matching [] r = refl
max-take_matching (event ∷ events) r =
    max-take_matching events (take_event event r).1 ∙ max-take_event event r

pub max-register :
    (limit_text : ℕ → Text) (closed : Sender → Bool) (path : Text) (kind : WatchKind) (tx : Sender)
    (r : WatchRegistry)
    → (register limit_text closed path kind tx r).1.max_watches ≡ r.max_watches
unfolding register sweep_closed
max-register limit_text closed path data_watch tx r = ground arith
max-register limit_text closed path children_watch tx r = ground arith

module _ {S : Type 0} {impl : Consensus S} {P : S → Type 0} (keeps : Keeps impl P)
    (texts : Texts) where
  pub notify-IsSound :
      (events : List WatchEvent) (s : Service S)
      → IsSound P s
      → IsSound P (notify impl texts events s)
  unfolding notify
  notify-IsSound events s v = record {
    kept = v.kept;
    counted = take_matching-IsCounted events s.watches v.counted;
    distinct = v.distinct;
    ttl = v.ttl;
    limit = max-take_matching events s.watches ∙ v.limit;
  }

  pub submitted-IsSound :
      (c : Command) (s : Service S) → IsSound P s → IsSound P (submitted impl texts c s)
  submitted-IsSound c s v = record {
    kept = keeps.submit c s.consensus v.kept;
    counted = v.counted;
    distinct = v.distinct;
    ttl = v.ttl;
    limit = v.limit;
  }

  -- the counters play no part
  pub metrics-IsSound :
      (s : Service S) (m : MetricsSnapshot) → IsSound P s → IsSound P (record s { metrics = m })
  metrics-IsSound s m v = record {
    kept = v.kept;
    counted = v.counted;
    distinct = v.distinct;
    ttl = v.ttl;
    limit = v.limit;
  }

  pub write-IsSound :
      {A : Type 0} (c : Command) (pick : ApplyResult → Result Status A) (s : Service S)
      → IsSound P s
      → IsSound P (write impl texts c pick s).1
  write-IsSound c pick s v = elim (write-cases impl texts c pick s) [
    | inl e ↦ rw e (submitted-IsSound c s v)
    | inr (a, e) ↦ rw e (
        metrics-IsSound (notify impl texts a.watch_events (submitted impl texts c s)) _
          (notify-IsSound a.watch_events _ (submitted-IsSound c s v)))
  ]
