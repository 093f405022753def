-- ===== src/Consensus/Persistent/Tests.antt =====
-- A persistent node at a concrete history: a snapshot, then a write.
use zoocooker.Base.{
  ◌≡◌, refl, true, false, Text, none, some, [], ◌∷◌, codes, nat_eq, text_eq, option_eq, arith,
}
use zoocooker.Base.Dict
use zoocooker.Base.Exec.{ok, is_ok}
use zoocooker.Protocol.Types.{
  Command, create, Applied, created, node_created, node_children_changed,
}
use zoocooker.Protocol.Paths.{normalize, parent_of, leaf_name}
use zoocooker.Storage.Order.{set_insert, text_compare, padded}
use zoocooker.Storage.Store.{default_store, apply, create_path, choose_path, create_node, get_data}
use zoocooker.Storage.Store.Same.{SameStore, SameStore-refl}
use zoocooker.Storage.Persistence.{
  PersistenceError, done, read_exact, replay_loop, replay, compact_below, write_newer,
  save_snapshot, load_snapshot, replay_into, append,
}
use zoocooker.Storage.Persistence.Framing.{Reads}
use zoocooker.Storage.Persistence.Tests.{creates_only}
use zoocooker.Consensus.Persistent.{
  PersistentNode, submit, from_store_and_wal, new_with_snapshot, snapshot_and_compact,
}
use zoocooker.Consensus.Persistent.Durable.{ReadsBack}
use zoocooker.Consensus.Persistent.Survives.{created_survives}
use zoocooker.Consensus.Persistent.Recovery.{
  Machine, Reach, here, next, saves, commits, first_start, recovery, refused_sequential_diverges,
}

abbrev describe : PersistenceError → Text
describe e = codes "error"

abbrev create_a : Command
create_a = create (codes "/a") [] false false none

abbrev a_applied : Applied
a_applied = record {
  result = created (codes "/a");
  watch_events =
      record { path = codes "/a"; kind = node_created }
      ∷ record { path = codes "/"; kind = node_children_changed }
      ∷ [];
}

abbrev saved : Machine
saved = record {
  snapshot = (snapshot_and_compact creates_only describe done done first_start.node).1;
  node = (snapshot_and_compact creates_only describe done done first_start.node).2;
}

abbrev written : Machine
written = record saved { node = (submit creates_only describe done create_a saved.node).1 }

default-ReadsBack : ReadsBack creates_only default_store
default-ReadsBack = record {
  reloaded = default_store;
  from_to = refl;
  same = SameStore-refl default_store;
}

saved-Reach : Reach creates_only describe first_start saved
saved-Reach = next here (saves done default-ReadsBack refl)

saved_store : saved.node.store ≡ default_store
unfolding snapshot_and_compact save_snapshot compact_below replay
saved_store = refl

create_a-ok : (apply create_a saved.node.store).0 ≡ ok a_applied
unfolding apply create_path choose_path create_node normalize parent_of leaf_name set_insert
    text_compare Dict.get Dict.insert Dict.contains_key nat_eq text_eq option_eq
    snapshot_and_compact save_snapshot compact_below replay
create_a-ok = refl

create_a-Reads :
    Reads creates_only
      (record { zxid = (apply create_a saved.node.store).1.zxid; command = create_a })
create_a-Reads = record { from_to = refl; fits = omega arith }

written-Reach : Reach creates_only describe first_start written
written-Reach =
    next saved-Reach
      (commits create_a a_applied (rw saved_store (omega arith)) create_a-ok create_a-Reads refl)

recovery_example :
    (after : PersistentNode) × (new_with_snapshot creates_only describe written.node.wal
        written.snapshot
      ≡ ok after)
    × SameStore after.store written.node.store
recovery_example = recovery creates_only describe written written-Reach

abbrev refused : Command
refused = create (codes "/x/y-") [] false true none

abbrev after_refusal : PersistentNode
after_refusal = (submit creates_only describe done refused saved.node).1

abbrev restarted : PersistentNode
restarted = record { store = default_store; wal = some [] }

refused-fails : is_ok (apply refused saved.node.store).0 ≡ false
unfolding apply create_path choose_path create_node normalize parent_of leaf_name set_insert
    text_compare Dict.get Dict.insert Dict.contains_key nat_eq text_eq option_eq padded
    snapshot_and_compact save_snapshot compact_below replay
refused-fails = refl

normalize_refused : normalize (codes "/x/y-") ≡ ok (codes "/x/y-")
unfolding normalize nat_eq text_eq
normalize_refused = refl

restarts_after_refusal :
    new_with_snapshot creates_only describe after_refusal.wal saved.snapshot ≡ ok restarted
unfolding apply create_path choose_path create_node normalize parent_of leaf_name set_insert
    text_compare Dict.get Dict.insert Dict.contains_key nat_eq text_eq option_eq padded submit
    snapshot_and_compact save_snapshot load_snapshot new_with_snapshot from_store_and_wal
    compact_below write_newer replay_into replay replay_loop read_exact
restarts_after_refusal = refl

refused_sequential_diverges_example : ¬ SameStore restarted.store after_refusal.store
refused_sequential_diverges_example =
    refused_sequential_diverges creates_only describe saved (codes "/x/y-") (codes "/x/y-") [] false
      none done after_refusal restarted saved-Reach normalize_refused (ground arith) refused-fails
      refl restarts_after_refusal

create_a-acknowledged : (submit creates_only describe done create_a saved.node).0 ≡ ok a_applied
unfolding submit append apply create_path choose_path create_node normalize parent_of leaf_name
    set_insert text_compare Dict.get Dict.insert Dict.contains_key nat_eq text_eq option_eq
    snapshot_and_compact save_snapshot compact_below replay
create_a-acknowledged = refl

created_survives_example :
    (after : PersistentNode) × (new_with_snapshot creates_only describe
        (submit creates_only describe done create_a saved.node).1.wal
        saved.snapshot
      ≡ ok after)
    × (get_data after.store (codes "/a") ≡ ok ([], 0))
created_survives_example =
    created_survives creates_only describe saved (codes "/a") [] false false none a_applied
      (codes "/a") saved-Reach (rw saved_store (omega arith)) create_a-Reads create_a-acknowledged
      refl
