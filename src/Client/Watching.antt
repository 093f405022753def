-- ===== src/Client/Watching.antt =====
-- A client that watches a node, and a write of it.
use zoocooker.Base.{
  Bool-cases, ℕ, inl, inr, ◌≡◌, refl, ap, ◌∙◌, Bool, false, Text, Option, List, [], ◌∷◌, ◌++◌,
  contains, append-nil, nat_eq, text_eq, arith,
}
use zoocooker.Server.Service.{
  channel_fits, Service, Texts, notify, write, set_version, handle_watch, register_watch,
}
use zoocooker.Base.Dict.{get-insert}
use zoocooker.Base.Dict
use zoocooker.Base.Exec.{Result, ok, map-inv, Result-split}
use zoocooker.Protocol.Types.{
  Bytes, Int32, data_watch, WatchEvent, node_data_changed, Command, set_data, ZkError,
}
use zoocooker.Protocol.Proto.{
  SetRequest, SetResponse, kind_data, event_kind_number, event_node_data_changed,
}
use zoocooker.Protocol.Paths.Normalize.{normalize-eq-ok_iff}
use zoocooker.Storage.Store.{TreeStore, apply, event}
use zoocooker.Storage.Store.Outcomes.{set_node-Sets}
use zoocooker.Consensus.Single.{single_node}
use zoocooker.Server.Watch.{
  Sender, WatchRegistry, register, sweep_closed, sweep_lists, drop_empty, or_empty, take_event,
  take_matching, with_event,
}
use zoocooker.Server.Watch.Capacity.{IsCounted}
use zoocooker.Server.Watch.Fresh.{contains-swept}
use zoocooker.Server.Service.Writes.{write-inv}
use zoocooker.Server.Metrics.{inc_watch_registrations}
use zoocooker.Server.Endpoint.{Env, to_proto, stream}
use zoocooker.Server.Endpoint
use zoocooker.Server.Service.Calls.{endpoint-set}
use zoocooker.Client
use zoocooker.Client.Loopback.{loopback}

-- the event that a set of the path `p` sends
abbrev changed : Text → WatchEvent
changed p = event p node_data_changed

stream-append :
    (tx : Sender) (xs ys : List (Sender × WatchEvent))
    → stream tx (xs ++ ys) ≡ stream tx xs ++ stream tx ys
unfolding stream
stream-append tx [] ys = refl
stream-append tx ((to, e) ∷ xs) ys = ground (arith, stream-append tx xs ys)

-- what a new sender, the last of its list, gets
stream-with_event :
    (tx : Sender) (e : WatchEvent) (ws : List Sender)
    → contains ws tx ≡ false
    → stream tx (with_event e (ws ++ tx ∷ [])) ≡ to_proto e ∷ []
unfolding stream
stream-with_event tx e [] h = ground arith
stream-with_event tx e (w ∷ ws) h = ground (arith, h, stream-with_event tx e ws)

take_one :
    (p : Text) (r : WatchRegistry)
    → (take_matching (changed p ∷ []) r).0
      ≡ with_event (changed p) (or_empty (Dict.get p r.data_watchers))
unfolding take_matching take_event
take_one p r = append-nil (with_event (changed p) (or_empty (Dict.get p r.data_watchers)))

-- a registration that is accepted puts the sender at the end of the path's list
registered :
    (limit_text : ℕ → Text) (closed : Sender → Bool) (path : Text) (tx : Sender) (r : WatchRegistry)
    → (register limit_text closed path data_watch tx r).0 ≡ ok tt
    → or_empty (Dict.get path (register limit_text closed path data_watch tx r).1.data_watchers)
      ≡ or_empty (Dict.get path (drop_empty (sweep_lists closed r.data_watchers))) ++ tx ∷ []
unfolding register sweep_closed
registered limit_text closed path tx r h = ground (
  arith,
  h,
  get-insert path path
      (or_empty (Dict.get path (drop_empty (sweep_lists closed r.data_watchers))) ++ tx ∷ [])
      (drop_empty (sweep_lists closed r.data_watchers)),
)

module _ (texts : Texts) (env : Env) where
  -- the registry after the registration of a data watch
  abbrev registry : Text → Service TreeStore → Result ZkError (Unit {0}) × WatchRegistry
  registry path s = register texts.limit_text env.closed path data_watch env.tx s.watches

  watch-inv :
      (path : Text) (s : Service TreeStore) (tx : Sender)
      → (Client.watch (loopback texts env) path kind_data s).0 ≡ ok tx
      → ((registry path s).0 ≡ ok tt)
        × ((Client.watch (loopback texts env) path kind_data s).1 ≡ record s {
          watches = (registry path s).1;
          metrics = inc_watch_registrations s.metrics;
        })
  unfolding Client.watch Endpoint.watch handle_watch register_watch
  watch-inv path s tx h =
      elim (Bool-cases (channel_fits single_node texts s.config.watch_channel_capacity)) [
        | inr bad ↦ absurd (ground (arith, bad, h))
        | inl fits ↦ elim (Result-split (registry path s).0) [
          | inl (_, e) ↦ (e, ground (arith, e, fits))
          | inr (inl (x, e)) ↦ absurd (ground (arith, e, fits, h))
          | inr (inr e) ↦ absurd (ground (arith, e, fits, h))
        ]
      ]

  -- what a set sends, beside what was sent
  set-sent :
      (s : Service TreeStore) (path : Text) (bytes : Bytes) (expected_version : Option Int32)
      (resp : SetResponse)
      → (Client.set (loopback texts env) path bytes expected_version s).0 ≡ ok resp
      → (Client.set (loopback texts env) path bytes expected_version s).1.sent
        ≡ s.sent ++ with_event (changed path) (or_empty (Dict.get path s.watches.data_watchers))
  unfolding Client.set Endpoint.set notify apply
  set-sent s path bytes expected_version resp h =
      let req : SetRequest = record {
        path = path;
        content = bytes;
        expected_version = expected_version;
      } in
      let c : Command = set_data path bytes expected_version in
      let pick = set_version single_node texts in
      let (v, e, r) = map-inv (write single_node texts c pick) _ s resp h in
      let (a, applied, picked, done) = write-inv single_node texts c pick s v e in
      let k = set_node-Sets s.consensus path bytes expected_version a applied in
      let same : k.key ≡ path = ((normalize-eq-ok_iff path k.key).0 k.normal).0 in
      let events : a.watch_events ≡ changed path ∷ [] = k.events ∙ ap (λ p. changed p ∷ []) same in
      ap (λ x. x.sent) (endpoint-set single_node texts req s)
      ∙ ap (λ x. x.1.sent) done
      ∙ ap (λ es. s.sent ++ (take_matching es s.watches).0) events
      ∙ ap (◌++◌ s.sent) (take_one path s.watches)

  -- On a single-node server whose count of watchers is exact, a client registers a watch of a node's
  -- data with a channel that has no watch there yet, and a set of that path succeeds next. The
  -- watch's stream then yields exactly one event more, which names the path and says that its data
  -- changed.
  pub watch_then_set :
      (s : Service TreeStore) (path : Text) (bytes : Bytes) (expected_version : Option Int32)
      (tx : Sender) (resp : SetResponse)
      → IsCounted s.watches
      → contains (or_empty (Dict.get path s.watches.data_watchers)) env.tx ≡ false
      → (Client.watch (loopback texts env) path kind_data s).0 ≡ ok tx
      → (Client.set
          (loopback texts env)
          path
          bytes
          expected_version
          (Client.watch (loopback texts env) path kind_data s).1).0
        ≡ ok resp
      → stream env.tx
          (Client.set
            (loopback texts env)
            path
            bytes
            expected_version
            (Client.watch (loopback texts env) path kind_data s).1).1.sent
        ≡ stream env.tx s.sent
          ++ record { path = path; kind = event_kind_number event_node_data_changed } ∷ []
  watch_then_set s path bytes expected_version tx resp v fresh h k =
      let (accepted, state) = watch-inv path s tx h in
      let watching : Service TreeStore = (Client.watch (loopback texts env) path kind_data s).1 in
      let before =
        or_empty (Dict.get path (drop_empty (sweep_lists env.closed s.watches.data_watchers))) in
      let sent : watching.sent ≡ s.sent = ap (λ x. x.sent) state in
      let watchers : or_empty (Dict.get path watching.watches.data_watchers)
          ≡ before ++ env.tx ∷ [] =
        ap (λ x. or_empty (Dict.get path x.watches.data_watchers)) state
        ∙ registered texts.limit_text env.closed path env.tx s.watches accepted in
      let none_before =
        contains-swept env.closed env.tx path s.watches.data_watchers v.data_distinct fresh in
      ap (stream env.tx) (set-sent watching path bytes expected_version resp k)
      ∙ ap
          (λ xs. stream env.tx (
            xs
            ++ with_event (changed path) (or_empty (Dict.get path watching.watches.data_watchers))))
          sent
      ∙ ap (λ ws. stream env.tx (s.sent ++ with_event (changed path) ws)) watchers
      ∙ stream-append env.tx s.sent (with_event (changed path) (before ++ env.tx ∷ []))
      ∙ ap (◌++◌ (stream env.tx s.sent))
          (stream-with_event env.tx (changed path) before none_before)
