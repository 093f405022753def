-- ===== src/Server/Conformance/Watches.antt =====
-- The unit tests of crates/server/src/service.rs that register watches, on the model. A new channel
-- has the number that the test names.
use zoocooker.Base.{
  refl, Bool, true, false, not, none, some, Option, List, [], ◌∷◌, ◌==◌, codes, nat_eq, text_eq,
  option_eq,
}
use zoocooker.Base.Dict
use zoocooker.Base.Assert.{unwrap, unwrap_err, assert, Passes}
use zoocooker.Base.Exec.{gets, lift, expect, ◌>>=◌, ◌>>◌}
use zoocooker.Protocol.Paths.{normalize, parent_of, leaf_name}
use zoocooker.Protocol.Proto.{
  ProtoWatchEvent, kind_data, kind_children, kind_number, event_kind_number,
  event_node_data_changed, event_node_children_changed,
}
use zoocooker.Storage.Order.{set_insert, text_compare}
use zoocooker.Storage.Store.{
  TreeStore, default_store, apply, create_path, choose_path, create_node, set_node, check_version,
  exists,
}
use zoocooker.Consensus.Single.{single_node}
use zoocooker.Server.Watch.{
  sweep_lists, count_dropped, drop_empty, retain_open, register, sweep_closed, take_matching,
  take_event,
}
use zoocooker.Server.Metrics.{default_config}
use zoocooker.Server.Service.{
  Code, exhausted, with_config, notify, status_from_error, check_session, register_watch,
}
use zoocooker.Server.Endpoint.{Env, stream}
use zoocooker.Server.Endpoint
use zoocooker.Server.Conformance.{texts, service, app, ServiceTest, create_request, env}

-- the event of a stream's next item, none at its end
abbrev next_event : List ProtoWatchEvent → Option ProtoWatchEvent
next_event [] = none
next_event (e ∷ es) = some e

abbrev after_next : List ProtoWatchEvent → List ProtoWatchEvent
after_next [] = []
after_next (e ∷ es) = es

abbrev data_watch_fires_once_on_set : Env → ServiceTest TreeStore
data_watch_fires_once_on_set env = do
  unwrap (Endpoint.create single_node texts (create_request app (codes "one")))
  tx ←
      unwrap
        (Endpoint.watch single_node texts env (record { path = app; kind = kind_number kind_data }))
  unwrap (
      Endpoint.set single_node texts
        (record { path = app; content = codes "two"; expected_version = some 0 }))
  unwrap (
      Endpoint.set single_node texts
        (record { path = app; content = codes "three"; expected_version = some 1 }))
  events ← gets (λ s. stream tx s.sent)
  event ← lift (expect (next_event events))
  assert (event.path == app)
  assert (event.kind == event_kind_number event_node_data_changed)
  assert (not (Endpoint.is_some (next_event (after_next events))))

abbrev child_watch_fires_on_child_create : Env → ServiceTest TreeStore
child_watch_fires_on_child_create env = do
  tx ← unwrap (
      Endpoint.watch single_node texts env
        (record { path = codes "/"; kind = kind_number kind_children }))
  unwrap (Endpoint.create single_node texts (create_request app []))
  events ← gets (λ s. stream tx s.sent)
  event ← lift (expect (next_event events))
  assert (event.path == codes "/")
  assert (event.kind == event_kind_number event_node_children_changed)

abbrev is_exhausted : Code → Bool
is_exhausted exhausted = true
is_exhausted _ = false

abbrev rejects_watch_registrations_over_configured_limit : Env → Env → ServiceTest TreeStore
rejects_watch_registrations_over_configured_limit first second = do
  unwrap (
      Endpoint.watch single_node texts first
        (record { path = codes "/one"; kind = kind_number kind_data }))
  error ← unwrap_err (
      Endpoint.watch single_node texts second
        (record { path = codes "/two"; kind = kind_number kind_data }))
  assert (is_exhausted error.code)
  metrics ← gets (λ s. s.metrics)
  assert (metrics.watch_registrations == 1)
  assert (metrics.watch_rejections == 1)

watch_service_tests_pass :
    Passes (data_watch_fires_once_on_set env) service
    × Passes (child_watch_fires_on_child_create env) service
    × Passes
        (rejects_watch_registrations_over_configured_limit env (record env { tx = 6 }))
        (with_config default_store (record default_config { max_watches = 1 }))
unfolding Endpoint.create Endpoint.set Endpoint.watch stream notify register sweep_closed
    take_matching take_event status_from_error check_session register_watch sweep_lists
    count_dropped drop_empty retain_open apply create_path choose_path create_node set_node
    check_version exists normalize parent_of leaf_name set_insert text_compare Dict.get Dict.insert
    Dict.remove Dict.contains_key nat_eq text_eq option_eq
watch_service_tests_pass = (refl, refl, refl)
