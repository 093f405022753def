-- ===== src/Server/Requests/Sound/Calls.antt =====
-- The calls of a server, and the invariant.
use zoocooker.Base.{◌≡◌, sym, ap, ◌∙◌, Bool, inl, inr, Text, Option, arith, nat_eq, subst}
use zoocooker.Base.Dict
use zoocooker.Base.Exec.{Result, ok, err, panic, Result-split, continue, modify, pure, ◌>>◌}
use zoocooker.Protocol.Types.{SessionId, WatchKind}
use zoocooker.Protocol.Proto.{
  CreateRequest, GetRequest, SetRequest, DeleteRequest, ExistsRequest, WatchRequest,
  HeartbeatRequest,
}
use zoocooker.Consensus.Interface.{Consensus, Keeps}
use zoocooker.Server.Session.{Instant, heartbeat_at}
use zoocooker.Server.Watch.{WatchRegistry, Sender, register}
use zoocooker.Server.Watch.Capacity.{IsCounted, register-IsCounted}
use zoocooker.Server.Metrics.{MetricsSnapshot, inc_watch_registrations, inc_watch_rejections}
use zoocooker.Server.Service.{
  Service, Status, Texts, register_watch, handle_get, handle_exists, count_read, bind_option,
  created_path, set_version, is_deleted,
}
use zoocooker.Server.Endpoint.{Env}
use zoocooker.Server.Endpoint
use zoocooker.Server.Requests.Sound.State.{IsSound, max-register, metrics-IsSound, write-IsSound}
use zoocooker.Server.Service.Calls.{
  check_session-cases, create_of, endpoint-create, endpoint-set, endpoint-delete, endpoint-get,
  endpoint-exists, endpoint-watch, handle_watch-cases,
}

module _ {S : Type 0} {impl : Consensus S} {P : S → Type 0} (keeps : Keeps impl P)
    (texts : Texts) where
  pub create-IsSound :
      (req : CreateRequest) (s : Service S)
      → IsSound P s
      → IsSound P (Endpoint.create impl texts req s).1
  create-IsSound req s v =
      let id : Option SessionId = bind_option req.session_id texts.parse_uuid in
      let after = λ (r : Result Status (Unit {0}) × Service S).
        (continue r.0 (λ _. create_of impl texts req) r.1).1 in
      elim (check_session-cases impl texts req.ephemeral id s) [
        | inl passed ↦
            subst (IsSound P) (sym (endpoint-create impl texts req s ∙ ap after passed))
              (write-IsSound keeps texts _ (created_path impl texts) s v)
        | inr (e, refused) ↦
            subst (IsSound P) (sym (endpoint-create impl texts req s ∙ ap after refused)) v
      ]

  pub set-IsSound :
      (req : SetRequest) (s : Service S) → IsSound P s → IsSound P (Endpoint.set impl texts req s).1
  set-IsSound req s v =
      subst (IsSound P) (sym (endpoint-set impl texts req s))
        (write-IsSound keeps texts _ (set_version impl texts) s v)

  pub delete-IsSound :
      (req : DeleteRequest) (s : Service S)
      → IsSound P s
      → IsSound P (Endpoint.delete impl texts req s).1
  delete-IsSound req s v =
      subst (IsSound P) (sym (endpoint-delete impl texts req s))
        (write-IsSound keeps texts _ (is_deleted impl texts) s v)

  -- a request that reads counts itself, or fails
  counted-IsSound :
      {A : Type 0} (found : Result Status A) (s : Service S)
      → IsSound P s
      → IsSound P (continue found (λ a. modify (count_read impl texts) >> pure {E = Status} a) s).1
  counted-IsSound (ok a) s v = metrics-IsSound keeps texts s _ v
  counted-IsSound (err e) s v = v
  counted-IsSound panic s v = v

  pub get-IsSound :
      (req : GetRequest) (s : Service S) → IsSound P s → IsSound P (Endpoint.get impl texts req s).1
  get-IsSound req s v =
      subst (IsSound P) (sym (endpoint-get impl texts req s))
        (unfold handle_get in counted-IsSound _ s v)

  pub exists-IsSound :
      (req : ExistsRequest) (s : Service S)
      → IsSound P s
      → IsSound P (Endpoint.exists impl texts req s).1
  exists-IsSound req s v =
      subst (IsSound P) (sym (endpoint-exists impl texts req s))
        (unfold handle_exists in counted-IsSound _ s v)

  registered-IsSound :
      (w : WatchRegistry) (m : MetricsSnapshot) (s : Service S)
      → IsCounted w
      → w.max_watches ≡ s.watches.max_watches
      → IsSound P s
      → IsSound P (record s { watches = w; metrics = m })
  registered-IsSound w m s c e v = record {
    kept = v.kept;
    counted = c;
    distinct = v.distinct;
    ttl = v.ttl;
    limit = e ∙ v.limit;
  }

  pub register_watch-IsSound :
      (closed : Sender → Bool) (tx : Sender) (path : Text) (kind : WatchKind) (s : Service S)
      → IsSound P s
      → IsSound P (register_watch impl texts closed tx path kind s).1
  unfolding register_watch
  register_watch-IsSound closed tx path kind s v =
      let r = register texts.limit_text closed path kind tx s.watches in
      let keeps = λ (m : MetricsSnapshot).
        registered-IsSound r.1 m s
          (register-IsCounted texts.limit_text closed path kind tx s.watches v.counted)
          (max-register texts.limit_text closed path kind tx s.watches) v in
      elim (Result-split (register texts.limit_text closed path kind tx s.watches).0) [
        | inl (a, e) ↦
            subst (IsSound P) (sym (ground (arith, e))) (keeps (inc_watch_registrations s.metrics))
        | inr (inl (x, e)) ↦
            subst (IsSound P) (sym (ground (arith, e))) (keeps (inc_watch_rejections s.metrics))
        | inr (inr e) ↦ subst (IsSound P) (sym (ground (arith, e))) (keeps s.metrics)
      ]

  pub watch-IsSound :
      (env : Env) (req : WatchRequest) (s : Service S)
      → IsSound P s
      → IsSound P (Endpoint.watch impl texts env req s).1
  watch-IsSound env req s v =
      elim (handle_watch-cases impl texts env.closed env.tx req.path req.kind s) [
        | inl e ↦ subst (IsSound P) (sym (endpoint-watch impl texts env req s ∙ e)) v
        | inr (k, e) ↦
            subst (IsSound P) (sym (endpoint-watch impl texts env req s ∙ e))
              (register_watch-IsSound env.closed env.tx req.path k s v)
      ]

  pub beaten-IsSound :
      (fresh : SessionId) (id : Option SessionId) (now : Instant) (s : Service S)
      → IsSound P s
      → IsSound P (record s { sessions = (heartbeat_at fresh id now s.sessions).1 })
  unfolding heartbeat_at
  beaten-IsSound fresh id now s v = record {
    kept = v.kept;
    counted = v.counted;
    distinct = Dict.insert-NodupKeys _ now s.sessions.sessions v.distinct;
    ttl = v.ttl;
    limit = v.limit;
  }

  pub heartbeat-IsSound :
      (env : Env) (req : HeartbeatRequest) (s : Service S)
      → IsSound P s
      → IsSound P (Endpoint.heartbeat impl texts env req s).1
  unfolding Endpoint.heartbeat
  heartbeat-IsSound env req s v =
      beaten-IsSound env.fresh (bind_option req.session_id texts.parse_uuid) env.now s v
