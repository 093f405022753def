-- ===== src/Client/Loopback.antt =====
-- A client and a single-node server, with the network between them left out: what a client writes, it
-- reads back.
use zoocooker.Base.{
  ◌≡◌, refl, sym, ap, ◌∙◌, Bool, Text, Option, none, some, inl, inr, arith, text_eq,
}
use zoocooker.Base.Exec.{Result, ok, map-inv, continue}
use zoocooker.Protocol.Types.{Bytes, Int32, SessionId, Applied, Command, create, set_data}
use zoocooker.Protocol.Proto.{CreateRequest, SetRequest, CreateResponse, SetResponse}
use zoocooker.Protocol.Paths.{normalize}
use zoocooker.Storage.Store.{TreeStore, apply}
use zoocooker.Storage.Store.View.{Entry, view}
use zoocooker.Storage.Store.ReadBack.{get_data-view, create-Reads, set-Reads}
use zoocooker.Consensus.Single.{single_node}
use zoocooker.Server.Watch.{Sender}
use zoocooker.Server.Service.{
  Service, Status, Texts, bind_option, notify, write, set_version, created_path, handle_create,
  check_session,
}
use zoocooker.Server.Service.Calls.{check_session-cases, create_of, endpoint-create, endpoint-set}
use zoocooker.Server.Service.Writes.{write-inv, completed, created_path-inv, set_version-inv}
use zoocooker.Server.Endpoint.{Env}
use zoocooker.Server.Endpoint
use zoocooker.Client.{CoordinationClient}
use zoocooker.Client

-- the generated client of a server that meets `env` at every call
abbrev pub loopback : Texts → Env → CoordinationClient (Service TreeStore) Status Sender
loopback texts env = record {
  create = Endpoint.create single_node texts;
  get = Endpoint.get single_node texts;
  set = Endpoint.set single_node texts;
  delete = Endpoint.delete single_node texts;
  exists = Endpoint.exists single_node texts;
  watch = Endpoint.watch single_node texts env;
  heartbeat = Endpoint.heartbeat single_node texts env;
}

-- what a client reads at a path
abbrev pub read_version : Option Entry → Option Int32
read_version none = none
read_version (some e) = some e.version

abbrev SetResponse_of : Int32 → SetResponse
SetResponse_of v = record { version = v }

abbrev CreateResponse_of : Text → CreateResponse
CreateResponse_of p = record { path = p }

module _ (texts : Texts) (env : Env) where
  abbrev inner : CoordinationClient (Service TreeStore) Status Sender
  inner = loopback texts env

  get_reply :
      (s : Service TreeStore) (p key : Text) (e : Entry)
      → normalize p ≡ ok key
      → view s.consensus key ≡ some e
      → (Client.get inner p s).0 ≡ ok (record { content = e.content; version = e.version })
  unfolding Client.get Endpoint.get
  get_reply s p key e n h = ground (arith, get_data-view s.consensus p key e n h)

  abbrev create_command : CreateRequest → Command
  create_command req =
      create req.path req.content req.ephemeral req.sequential
        (bind_option req.session_id texts.parse_uuid)

  consensus-completed :
      (c : Command) (a : Applied) (s : Service TreeStore)
      → (completed single_node texts c a s).consensus ≡ (apply c s.consensus).1
  unfolding notify
  consensus-completed c a s = refl

  -- what a successful call has applied
  set-inv :
      (req : SetRequest) (s : Service TreeStore) (resp : SetResponse)
      → (Endpoint.set single_node texts req s).0 ≡ ok resp
      → (a : Applied) × ((apply (set_data req.path req.content req.expected_version) s.consensus).0
          ≡ ok a)
        × (set_version single_node texts a.result ≡ ok resp.version)
        × ((Endpoint.set single_node texts req s).1.consensus
            ≡ (apply (set_data req.path req.content req.expected_version) s.consensus).1)
  unfolding Endpoint.set
  set-inv req s resp h =
      let c : Command = set_data req.path req.content req.expected_version in
      let pick = set_version single_node texts in
      let (v, e, r) =
        map-inv (write single_node texts c pick) (λ (v : Int32). SetResponse_of v) s resp h in
      let (a, applied, picked, done) = write-inv single_node texts c pick s v e in
      (
        a,
        applied,
        picked ∙ ap (λ x. ok x.version) r,
        ap (λ x. x.consensus) (endpoint-set single_node texts req s)
            ∙ ap (λ x. x.1.consensus) done
            ∙ consensus-completed c a s,
      )

  handle_create-eq :
      (req : CreateRequest) (s : Service TreeStore)
      → handle_create single_node texts req.path req.content req.ephemeral req.sequential
          req.session_id s
        ≡ continue
            (check_session single_node texts req.ephemeral
              (bind_option req.session_id texts.parse_uuid)
              s).0
            (λ _. create_of single_node texts req)
            (check_session single_node texts req.ephemeral
              (bind_option req.session_id texts.parse_uuid)
              s).1
  unfolding handle_create
  handle_create-eq req s = refl

  create-reply :
      (req : CreateRequest) (s : Service TreeStore) (resp : CreateResponse)
      → (Endpoint.create single_node texts req s).0 ≡ ok resp
      → (handle_create single_node texts req.path req.content req.ephemeral req.sequential
          req.session_id s).0
        ≡ ok resp.path
  unfolding Endpoint.create
  create-reply req s resp h =
      let (p, e, r) =
        map-inv
          (handle_create single_node texts req.path req.content req.ephemeral req.sequential
            req.session_id)
          (λ (p : Text). CreateResponse_of p) s resp h in
      e ∙ ap (λ x. ok x.path) r

  create-inv :
      (req : CreateRequest) (s : Service TreeStore) (resp : CreateResponse)
      → (Endpoint.create single_node texts req s).0 ≡ ok resp
      → (a : Applied) × ((apply (create_command req) s.consensus).0 ≡ ok a)
        × (created_path single_node texts a.result ≡ ok resp.path)
        × ((Endpoint.create single_node texts req s).1.consensus
            ≡ (apply (create_command req) s.consensus).1)
  create-inv req s resp h =
      let id : Option SessionId = bind_option req.session_id texts.parse_uuid in
      let pick = created_path single_node texts in
      let after = λ (r : Result Status (Unit {0}) × Service TreeStore).
        continue r.0 (λ _. create_of single_node texts req) r.1 in
      let reply = create-reply req s resp h in
      elim (check_session-cases single_node texts req.ephemeral id s) [
        | inl passed ↦
            let e : (write single_node texts (create_command req) pick s).0 ≡ ok resp.path =
              sym (ap (λ r. r.0) (handle_create-eq req s ∙ ap after passed)) ∙ reply in
            let (a, applied, picked, done) =
              write-inv single_node texts (create_command req) pick s resp.path e in
            (
              a,
              applied,
              picked,
              ap (λ x. x.consensus) (endpoint-create single_node texts req s)
                  ∙ ap (λ r. (after r).1.consensus) passed
                  ∙ ap (λ x. x.1.consensus) done
                  ∙ consensus-completed (create_command req) a s,
            )
        | inr (x, refused) ↦
            absurd (cc (ap (λ r. r.0) (handle_create-eq req s ∙ ap after refused), reply))
      ]

  -- A create that a single-node server accepts can be read back at the path of its reply: the data
  -- as they were sent, at version 0.
  pub create_then_get :
      (s : Service TreeStore) (path : Text) (bytes : Bytes) (ephemeral sequential : Bool)
      (session_id : Option Text) (resp : CreateResponse)
      → (Client.create_with_options inner path bytes ephemeral sequential session_id s).0 ≡ ok resp
      → (Client.get inner resp.path
          (Client.create_with_options inner path bytes ephemeral sequential session_id s).1).0
        ≡ ok (record { content = bytes; version = 0 })
  unfolding Client.create_with_options
  create_then_get s path bytes ephemeral sequential session_id resp h =
      let req : CreateRequest = record {
        path = path;
        content = bytes;
        ephemeral = ephemeral;
        sequential = sequential;
        session_id = session_id;
      } in
      let (a, applied, picked, state) = create-inv req s resp h in
      let (n, there) =
        create-Reads s.consensus path bytes ephemeral sequential
          (bind_option session_id texts.parse_uuid) a resp.path applied
          (created_path-inv single_node texts a.result resp.path picked) in
      get_reply (Endpoint.create single_node texts req s).1 resp.path resp.path _ n
        (ap (λ t. view t resp.path) state ∙ there.found)

  -- A set that a single-node server accepts can be read back at its path: the data as they were
  -- sent, at the version of the reply.
  pub set_then_get :
      (s : Service TreeStore) (path : Text) (bytes : Bytes) (expected_version : Option Int32)
      (resp : SetResponse)
      → (Client.set inner path bytes expected_version s).0 ≡ ok resp
      → (Client.get inner path (Client.set inner path bytes expected_version s).1).0
        ≡ ok (record { content = bytes; version = resp.version })
  unfolding Client.set
  set_then_get s path bytes expected_version resp h =
      let req : SetRequest = record {
        path = path;
        content = bytes;
        expected_version = expected_version;
      } in
      let (a, applied, picked, state) = set-inv req s resp h in
      let (b, is_data) = set_version-inv single_node texts a.result resp.version picked in
      let (key, n, there) =
        set-Reads s.consensus path bytes b expected_version a resp.version applied is_data in
      get_reply (Endpoint.set single_node texts req s).1 path key _ n
        (ap (λ t. view t key) state ∙ there.found)
