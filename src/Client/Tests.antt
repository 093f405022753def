-- ===== src/Client/Tests.antt =====
-- A client of a fresh single-node server.
use zoocooker.Base.{
  ◌++◌, contains, arith, ◌≡◌, refl, true, false, none, some, [], ◌∷◌, codes, nat_eq, text_eq,
  option_eq,
}
use zoocooker.Base.Dict
use zoocooker.Base.Exec.{ok}
use zoocooker.Protocol.Types.{Bytes}
use zoocooker.Protocol.Paths.{normalize, parent_of, leaf_name}
use zoocooker.Storage.Order.{set_insert, text_compare, padded}
use zoocooker.Storage.Store.{TreeStore, apply, create_path, choose_path, create_node, set_node}
use zoocooker.Server.Watch.{
  take_matching, register, sweep_closed, sweep_lists, drop_empty, count_dropped, or_empty,
}
use zoocooker.Server.Watch.Capacity.{IsCounted, total}
use zoocooker.Protocol.Proto.{kind_data, event_kind_number, event_node_data_changed}
use zoocooker.Server.Service.{
  Service, Texts, handle_watch, register_watch, notify, write, check_session, finish_create,
  handle_create, handle_set,
}
use zoocooker.Server.Endpoint.{Env, stream}
use zoocooker.Server.Endpoint
use zoocooker.Server.Start.{single_node_service}
use zoocooker.Client
use zoocooker.Client.Loopback.{loopback, create_then_get, set_then_get}
use zoocooker.Client.Watching.{watch_then_set}

abbrev texts : Texts
texts = record {
  display = λ e. [];
  parse_uuid = λ raw. none;
  print_uuid = λ id. [];
  limit_text = λ n. [];
}

abbrev env : Env
env = record { closed = λ tx. false; tx = 0; fresh = 7; now = 0 }

abbrev hello : Bytes
hello = 104 ∷ 105 ∷ []

abbrev made : Service TreeStore
made =
    (Client.create_with_options (loopback texts env) (codes "/a") hello false true none
      single_node_service).1

creates :
    (Client.create_with_options
      (loopback texts env)
      (codes "/a")
      hello
      false
      true
      none
      single_node_service).0
    ≡ ok (record { path = codes "/a0000000000" })
unfolding Client.create_with_options Endpoint.create handle_create check_session finish_create write
    notify take_matching apply create_path choose_path create_node normalize parent_of leaf_name
    set_insert text_compare padded Dict.get Dict.insert Dict.contains_key nat_eq text_eq option_eq
creates = refl

create_then_get_example :
    (Client.get (loopback texts env) (codes "/a0000000000") made).0
    ≡ ok (record { content = hello; version = 0 })
create_then_get_example =
    create_then_get texts env single_node_service (codes "/a") hello false true none
      (record { path = codes "/a0000000000" }) creates

sets :
    (Client.set (loopback texts env) (codes "/") hello (some 0) single_node_service).0
    ≡ ok (record { version = 1 })
unfolding Client.set Endpoint.set handle_set write notify take_matching apply set_node normalize
    Dict.get Dict.insert Dict.contains_key nat_eq text_eq option_eq
sets = refl

set_then_get_example :
    (Client.get
      (loopback texts env)
      (codes "/")
      (Client.set (loopback texts env) (codes "/") hello (some 0) single_node_service).1).0
    ≡ ok (record { content = hello; version = 1 })
set_then_get_example =
    set_then_get texts env single_node_service (codes "/") hello (some 0) (record { version = 1 })
      sets

fresh_server-IsCounted : IsCounted single_node_service.watches
fresh_server-IsCounted = record {
  counted = unfold total in refl;
  limited = omega arith;
  data_distinct = tt;
  child_distinct = tt;
}

new_channel :
    contains (or_empty (Dict.get (codes "/") single_node_service.watches.data_watchers)) env.tx
    ≡ false
unfolding Dict.get
new_channel = refl

abbrev watching : Service TreeStore
watching = (Client.watch (loopback texts env) (codes "/") kind_data single_node_service).1

watches : (Client.watch (loopback texts env) (codes "/") kind_data single_node_service).0 ≡ ok 0
unfolding Client.watch Endpoint.watch handle_watch register_watch register sweep_closed drop_empty
    sweep_lists count_dropped nat_eq
watches = refl

sets_watched :
    (Client.set (loopback texts env) (codes "/") hello (some 0) watching).0
    ≡ ok (record { version = 1 })
unfolding Client.set Endpoint.set handle_set write notify take_matching apply set_node normalize
    Client.watch Endpoint.watch handle_watch register_watch register sweep_closed drop_empty
    sweep_lists count_dropped Dict.get Dict.insert Dict.contains_key nat_eq text_eq option_eq
sets_watched = refl

watch_then_set_example :
    stream 0 (Client.set (loopback texts env) (codes "/") hello (some 0) watching).1.sent
    ≡ stream 0 []
      ++ record { path = codes "/"; kind = event_kind_number event_node_data_changed } ∷ []
watch_then_set_example =
    watch_then_set texts env single_node_service (codes "/") hello (some 0) 0
      (record { version = 1 }) fresh_server-IsCounted new_channel watches sets_watched
