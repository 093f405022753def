-- ===== src/Server/Requests/Tests.antt =====
-- A single-node server where session 7, last heard of at 0 and with a TTL of 10, owns the node "/e".
use zoocooker.Server.Start.{run_ticks, single_node_with_config}
use zoocooker.Base.{
  arith, ◌≡◌, ◌≢◌, refl, true, false, some, [], ◌∷◌, contains, codes, nat_eq, text_eq, option_eq,
}
use zoocooker.Base.Dict
use zoocooker.Base.Exec.{ok}
use zoocooker.Protocol.Types.{create}
use zoocooker.Protocol.Paths.{normalize, parent_of, leaf_name}
use zoocooker.Storage.Order.{
  set_insert, set_remove, text_compare, sort_deepest_first, deepest_first, depth,
}
use zoocooker.Storage.Store.{
  TreeStore, default_store, apply, create_path, choose_path, create_node, delete_node,
  ephemeral_paths_for_session, owned_paths,
}
use zoocooker.Storage.Store.Shape.{default_store-IsTree}
use zoocooker.Storage.Store.Apply.{apply-IsTree}
use zoocooker.Consensus.Single.{single_node}
use zoocooker.Server.Session.{
  collect_expired_at, expired_ids, remove_session, has_session, heartbeat_at,
}
use zoocooker.Server.Session.Expiry.{overdue}
use zoocooker.Server.Watch.{take_matching}
use zoocooker.Server.Watch.Capacity.{total}
use zoocooker.Server.Metrics.{ServerConfig, default_config}
use zoocooker.Server.Service.{
  Service, Texts, check_session, finish_create, write, delete_paths, clean_sessions,
  cleanup_expired_sessions, notify,
}
use zoocooker.Server.Service.Deletions.{owner_at}
use zoocooker.Server.Requests.Sound.State.{IsSound}
use zoocooker.Consensus.Kept.{OnTree}
use zoocooker.Server.Requests.Races.{Orphan, create_outlives_session, heartbeat_lost}

abbrev texts : Texts
texts = record {
  display = λ e. [];
  parse_uuid = λ raw. some 7;
  print_uuid = λ id. [];
  limit_text = λ n. [];
}

abbrev short : ServerConfig
short = record default_config { session_ttl = 10 }

abbrev one_owner : TreeStore
one_owner = (apply (create (codes "/e") [] true false (some 7)) default_store).1

abbrev start : Service TreeStore
start = record (single_node_with_config short) {
  consensus = one_owner;
  sessions = record { ttl = 10; sessions = (7, 0) ∷ [] };
}

start-IsSound : IsSound OnTree start
unfolding Dict.get nat_eq
start-IsSound = record {
  kept =
      apply-IsTree default_store (create (codes "/e") [] true false (some 7)) default_store-IsTree;
  counted = record {
    counted = unfold total in refl;
    limited = omega arith;
    data_distinct = tt;
    child_distinct = tt;
  };
  distinct = (refl, tt);
  ttl = refl;
  limit = refl;
}

known : check_session single_node texts true (some 7) start ≡ (ok tt, start)
unfolding check_session has_session Dict.contains_key Dict.get nat_eq
known = refl

late : overdue start.sessions.ttl 20 (Dict.get 7 start.sessions.sessions) ≡ true
unfolding Dict.get nat_eq
late = refl

made :
    (finish_create single_node texts
      (codes "/f")
      []
      true
      false
      (some 7)
      (cleanup_expired_sessions single_node texts 20 start).1).0
    ≡ ok (codes "/f")
unfolding cleanup_expired_sessions clean_sessions delete_paths notify take_matching finish_create
    write collect_expired_at expired_ids remove_session ephemeral_paths_for_session owned_paths
    sort_deepest_first deepest_first depth apply create_path choose_path create_node delete_node
    normalize parent_of leaf_name set_insert set_remove text_compare Dict.get Dict.insert
    Dict.remove Dict.contains_key nat_eq text_eq option_eq
made = refl

create_outlives_session_example : Orphan texts 7 (codes "/f") (
    run_ticks single_node texts
      (50 ∷ 90 ∷ [])
      (finish_create single_node texts
        (codes "/f")
        []
        true
        false
        (some 7)
        (cleanup_expired_sessions single_node texts 20 start).1).1)
create_outlives_session_example =
    create_outlives_session texts start 7 20 (50 ∷ 90 ∷ []) (codes "/f") [] false (codes "/f")
      start-IsSound known late made

heartbeat_lost_example :
    let beaten : Service TreeStore = record start {
      sessions = (heartbeat_at 9 (some 7) 20 start.sessions).1;
    } in
    let after =
      (clean_sessions single_node texts (collect_expired_at 20 start.sessions) beaten).1 in
    (has_session beaten.sessions 7 ≡ true)
    × (contains (collect_expired_at 30 beaten.sessions) 7 ≡ false)
    × (has_session after.sessions 7 ≡ false)
    × (owner_at after.consensus (codes "/e") ≢ some 7)
heartbeat_lost_example =
    heartbeat_lost texts start 7 9 20 20 30 (codes "/e") start-IsSound late (omega arith)
