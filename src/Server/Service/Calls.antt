-- ===== src/Server/Service/Calls.antt =====
-- What the handlers over the messages leave: the state that their parts leave.
use zoocooker.Base.{
  ℕ, ◌≡◌, ◌⊎◌, refl, Bool, true, false, Bool-cases, inl, inr, Text, Option, none, some, arith,
  nat_eq, codes, Option-cases,
}
use zoocooker.Base.Exec.{ok, err, state-map, continue, Exec}
use zoocooker.Protocol.Types.{SessionId, create, set_data, delete, WatchKind}
use zoocooker.Protocol.Proto.{
  CreateRequest, GetRequest, SetRequest, DeleteRequest, ExistsRequest, WatchRequest,
}
use zoocooker.Consensus.Interface.{Consensus}
use zoocooker.Server.Session.{has_session}
use zoocooker.Server.Watch.{Sender}
use zoocooker.Server.Service.{
  Service, Status, Texts, write, handle_create, handle_watch, check_session, register_watch,
  channel_fits, invalid, handle_get, handle_exists, watch_kind, bind_option, created_path,
  set_version, is_deleted,
}
use zoocooker.Server.Endpoint.{Env}
use zoocooker.Server.Endpoint

module _ {S : Type 0} (impl : Consensus S) (texts : Texts) where
  pub check_session-cases :
      (ephemeral : Bool) (id : Option SessionId) (s : Service S)
      → (check_session impl texts ephemeral id s ≡ (ok tt, s))
        ⊎ ((e : Status) × (check_session impl texts ephemeral id s ≡ (err e, s)))
  unfolding check_session
  check_session-cases false id s = inl refl
  check_session-cases true none s = inr (_, refl)
  check_session-cases true (some id) s = elim (Bool-cases (has_session s.sessions id)) [
    | inl known ↦ inl (ground (arith, known))
    | inr unknown ↦ inr (invalid (codes "unknown session_id"), ground (arith, unknown))
  ]

  -- the write that a create submits
  abbrev pub create_of : CreateRequest → Exec (Service S) Status Text
  create_of req =
      write impl texts
        (create req.path req.content req.ephemeral req.sequential
          (bind_option req.session_id texts.parse_uuid))
        (created_path impl texts)

  -- the requests that write leave what their writes leave
  pub endpoint-create :
      (req : CreateRequest) (s : Service S)
      → (Endpoint.create impl texts req s).1
        ≡ (continue
            (check_session impl texts req.ephemeral
              (bind_option req.session_id texts.parse_uuid)
              s).0
            (λ _. create_of req)
            (check_session impl texts req.ephemeral
              (bind_option req.session_id texts.parse_uuid)
              s).1).1
  unfolding Endpoint.create
  endpoint-create req s =
      state-map
        (handle_create impl texts req.path req.content req.ephemeral req.sequential req.session_id)
        _ s

  pub endpoint-set :
      (req : SetRequest) (s : Service S)
      → (Endpoint.set impl texts req s).1
        ≡ (write impl texts
            (set_data req.path req.content req.expected_version)
            (set_version impl texts)
            s).1
  unfolding Endpoint.set
  endpoint-set req s =
      state-map
        (write impl texts (set_data req.path req.content req.expected_version)
          (set_version impl texts))
        _ s

  pub endpoint-delete :
      (req : DeleteRequest) (s : Service S)
      → (Endpoint.delete impl texts req s).1
        ≡ (write impl texts (delete req.path req.expected_version) (is_deleted impl texts) s).1
  unfolding Endpoint.delete
  endpoint-delete req s =
      state-map (write impl texts (delete req.path req.expected_version) (is_deleted impl texts)) _
        s

  pub endpoint-get :
      (req : GetRequest) (s : Service S)
      → (Endpoint.get impl texts req s).1 ≡ (handle_get impl texts req.path s).1
  unfolding Endpoint.get
  endpoint-get req s = state-map (handle_get impl texts req.path) _ s

  pub endpoint-exists :
      (req : ExistsRequest) (s : Service S)
      → (Endpoint.exists impl texts req s).1 ≡ (handle_exists impl texts req.path s).1
  unfolding Endpoint.exists
  endpoint-exists req s = state-map (handle_exists impl texts req.path) _ s

  pub endpoint-watch :
      (env : Env) (req : WatchRequest) (s : Service S)
      → (Endpoint.watch impl texts env req s).1
        ≡ (handle_watch impl texts env.closed env.tx req.path req.kind s).1
  unfolding Endpoint.watch
  endpoint-watch env req s =
      state-map (handle_watch impl texts env.closed env.tx req.path req.kind) _ s

  pub handle_watch-cases :
      (closed : Sender → Bool) (tx : Sender) (path : Text) (kind : ℕ) (s : Service S)
      → ((handle_watch impl texts closed tx path kind s).1 ≡ s)
        ⊎ ((k : WatchKind) × ((handle_watch impl texts closed tx path kind s).1
              ≡ (register_watch impl texts closed tx path k s).1))
  unfolding handle_watch
  handle_watch-cases closed tx path kind s = elim (Option-cases (watch_kind impl texts kind)) [
    | inl e ↦ inl (ground (arith, e))
    | inr (k, e) ↦ elim (Bool-cases (channel_fits impl texts s.config.watch_channel_capacity)) [
      | inl fits ↦ inr (k, ground (arith, e, fits))
      | inr bad ↦ inl (ground (arith, e, bad))
    ]
  ]
