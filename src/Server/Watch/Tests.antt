-- ===== src/Server/Watch/Tests.antt =====
-- watch.rs at a concrete registry: one open watcher, and a limit of one.
use zoocooker.Base.Exec.{ok}
use zoocooker.Protocol.Types.{
  Command, create, Applied, created, node_created, node_children_changed, WatchEvent,
  node_data_changed,
}
use zoocooker.Protocol.Paths.{normalize, parent_of, leaf_name}
use zoocooker.Storage.Order.{set_insert, text_compare}
use zoocooker.Storage.Store.{default_store, apply, create_path, choose_path, create_node}
use zoocooker.Storage.Store.View.{view}
use zoocooker.Server.Watch.Completeness.{data_events, child_events, names_at}
use zoocooker.Base.{
  text_eq, nat_eq, option_eq, none, ℕ, ◌≡◌, refl, Bool, false, Text, [], ◌∷◌, codes, All,
}
use zoocooker.Base.Dict
use zoocooker.Server.Watch.{WatchRegistry, Sender, take_matching}
use zoocooker.Server.Watch.Delivery.{Watches, take_matching-Watches}

abbrev full : WatchRegistry
full = record {
  data_watchers = (codes "/a", 5 ∷ []) ∷ [];
  child_watchers = [];
  max_watches = 1;
  active_watches = 1;
}

abbrev all_open : Sender → Bool
all_open w = false

abbrev limit_text : ℕ → Text
limit_text n = codes "limit"

abbrev changed : WatchEvent
changed = record { path = codes "/a"; kind = node_data_changed }

take_matching-Watches_example : All (Watches full) (take_matching (changed ∷ []) full).0
take_matching-Watches_example = take_matching-Watches (changed ∷ []) full

abbrev create_b : Command
create_b = create (codes "/b") [] false false none

abbrev b_applied : Applied
b_applied = record {
  result = created (codes "/b");
  watch_events =
      record { path = codes "/b"; kind = node_created }
      ∷ record { path = codes "/"; kind = node_children_changed }
      ∷ [];
}

create_b-ok : (apply create_b default_store).0 ≡ ok b_applied
unfolding apply create_path choose_path create_node normalize parent_of leaf_name set_insert
    text_compare Dict.get Dict.insert Dict.contains_key nat_eq text_eq option_eq
create_b-ok = refl

data_events_example :
    view (apply create_b default_store).1 (codes "/") ≡ view default_store (codes "/")
data_events_example =
    data_events default_store create_b b_applied (codes "/") create_b-ok (unfold text_eq in refl)

child_events_example :
    names_at (apply create_b default_store).1 (codes "/c") ≡ names_at default_store (codes "/c")
child_events_example =
    child_events default_store create_b b_applied (codes "/c") create_b-ok (unfold text_eq in refl)
