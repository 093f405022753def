-- ===== src/Server/Service/Tests.antt =====
-- A service on a single node: session 7, last heard of at 0, owns the node "/e".
use zoocooker.Base.{
  Text, ◌≡◌, ◌≢◌, refl, true, false, if◌then◌else◌, none, some, [], ◌∷◌, contains, codes, nat_eq,
  text_eq, option_eq,
}
use zoocooker.Base.Dict
use zoocooker.Protocol.Types.{create}
use zoocooker.Protocol.Paths.{normalize, parent_of, leaf_name}
use zoocooker.Storage.Order.{
  set_insert, set_remove, text_compare, sort_deepest_first, deepest_first, depth,
}
use zoocooker.Storage.Store.{
  TreeStore, default_store, apply, create_path, choose_path, create_node, delete_node,
  ephemeral_paths_for_session, owned_paths,
}
use zoocooker.Storage.Store.Shape.{IsTree, default_store-IsTree}
use zoocooker.Storage.Store.Apply.{apply-IsTree}
use zoocooker.Consensus.Single.{single_node}
use zoocooker.Server.Session.Expiry.{overdue}
use zoocooker.Server.Session.{collect_expired_at, expired_ids, remove_session, has_session}
use zoocooker.Server.Watch.{take_matching}
use zoocooker.Server.Metrics.{default_config}
use zoocooker.Server.Service.{
  Service, Texts, with_config, delete_paths, clean_sessions, cleanup_expired_sessions, notify,
}
use zoocooker.Server.Service.Cleanup.{sessions-cleanup}
use zoocooker.Server.Service.Deletions.{owner_at}
use zoocooker.Server.Service.Progress.{cleanup_reclaims}
use zoocooker.Server.Service.Progress.Contents.{reaped, cleanup_contents}
use zoocooker.Storage.Store.View.{view}

abbrev texts : Texts
texts = record {
  display = λ e. [];
  parse_uuid = λ raw. none;
  print_uuid = λ id. [];
  limit_text = λ n. [];
}

abbrev one_owner : TreeStore
one_owner = (apply (create (codes "/e") [] true false (some 7)) default_store).1

abbrev start : Service TreeStore
start = record (with_config one_owner default_config) {
  sessions = record { ttl = 10; sessions = (7, 0) ∷ [] };
}

start-IsTree : IsTree start.consensus.nodes
start-IsTree =
    apply-IsTree default_store (create (codes "/e") [] true false (some 7)) default_store-IsTree

cleans_seven : contains (cleanup_expired_sessions single_node texts 20 start).0 7 ≡ true
unfolding cleanup_expired_sessions clean_sessions delete_paths notify take_matching
    collect_expired_at expired_ids remove_session ephemeral_paths_for_session owned_paths
    sort_deepest_first deepest_first depth apply create_path choose_path create_node delete_node
    normalize parent_of leaf_name set_insert set_remove text_compare Dict.get Dict.insert
    Dict.remove Dict.contains_key nat_eq text_eq option_eq
cleans_seven = refl

sessions-cleanup_example :
    let (cleaned, after) = cleanup_expired_sessions single_node texts 20 start in
    has_session after.sessions 7
    ≡ (if contains cleaned 7 then false else has_session start.sessions 7)
sessions-cleanup_example = sessions-cleanup single_node texts 20 start 7

start-NodupKeys : Dict.NodupKeys start.sessions.sessions
unfolding Dict.get
start-NodupKeys = (refl, tt)

late : overdue start.sessions.ttl 20 (Dict.get 7 start.sessions.sessions) ≡ true
unfolding Dict.get nat_eq
late = refl

cleanup_reclaims_example :
    let (cleaned, after) = cleanup_expired_sessions single_node texts 20 start in
    (has_session after.sessions 7 ≡ false) × (owner_at after.consensus (codes "/e") ≢ some 7)
cleanup_reclaims_example =
    cleanup_reclaims texts 20 start 7 (codes "/e") start-IsTree start-NodupKeys late

cleanup_contents_example :
    let (cleaned, after) = cleanup_expired_sessions single_node texts 20 start in
    let expired = collect_expired_at 20 start.sessions in
    (cleaned ≡ expired)
    × ((q : Text) → view after.consensus q ≡ reaped expired (view start.consensus q))
cleanup_contents_example = cleanup_contents texts 20 start start-IsTree
