-- ===== src/Server/Watch.antt =====
-- crates/server/src/watch.rs. A sender is the number of its channel; which channels are closed is an
-- argument of the operation that asks.
pub mod Tests
pub mod Capacity
pub mod Delivery
pub mod Fresh
pub mod Completeness
mod Conformance
use zoocooker.Base.{
  ℕ, ◌+◌, ◌-◌, Bool, true, false, not, Text, Option, none, some, List, [], ◌∷◌, ◌++◌, length, leb,
  text_eq, map, if◌then◌else◌,
}
use zoocooker.Base.Dict.{Dict}
use zoocooker.Base.Dict
use zoocooker.Base.Exec.{Exec, Result, ok, err}
use zoocooker.Protocol.Paths.{is_empty}
use zoocooker.Protocol.Types.{
  WatchKind, data_watch, children_watch, WatchEventKind, node_created, node_deleted,
  node_data_changed, node_children_changed, WatchEvent, ZkError, ZkResult, resource_exhausted,
}

abbrev pub Sender : Type 0
Sender = ℕ

abbrev pub Watchers : Type 0
Watchers = Dict Text (List Sender)

pub record WatchRegistry : Type 0 where
  pub data_watchers : Watchers
  pub child_watchers : Watchers
  pub max_watches : ℕ
  pub active_watches : ℕ

abbrev pub new_registry : ℕ → WatchRegistry
new_registry max_watches = record {
  data_watchers = [];
  child_watchers = [];
  max_watches = max_watches;
  active_watches = 0;
}

-- `watchers.retain(|w| !w.is_closed())`
unfoldable pub retain_open : (Sender → Bool) → List Sender → List Sender
retain_open closed [] = []
retain_open closed (w ∷ ws) =
    let rest = retain_open closed ws in if closed w then rest else w ∷ rest

-- the loop over the lists of one map: the map after it, and the number of senders dropped
unfoldable pub sweep_lists : (Sender → Bool) → Watchers → Watchers
sweep_lists closed [] = []
sweep_lists closed ((path, ws) ∷ watchers) =
    (path, retain_open closed ws) ∷ sweep_lists closed watchers

unfoldable pub count_dropped : (Sender → Bool) → Watchers → ℕ
count_dropped closed [] = 0
count_dropped closed ((path, ws) ∷ watchers) =
    (length ws - length (retain_open closed ws)) + count_dropped closed watchers

-- `retain(|_, watchers| !watchers.is_empty())`
unfoldable pub drop_empty : Watchers → Watchers
drop_empty [] = []
drop_empty ((path, ws) ∷ watchers) =
    let rest = drop_empty watchers in if is_empty ws then rest else (path, ws) ∷ rest

unfoldable pub sweep_closed : (Sender → Bool) → WatchRegistry → WatchRegistry
sweep_closed closed r = record r {
  data_watchers = drop_empty (sweep_lists closed r.data_watchers);
  child_watchers = drop_empty (sweep_lists closed r.child_watchers);
  active_watches =
      r.active_watches
      - (count_dropped closed r.data_watchers + count_dropped closed r.child_watchers);
}

abbrev pub or_empty : Option (List Sender) → List Sender
or_empty none = []
or_empty (some ws) = ws

-- `target.entry(path).or_default().push(sender)`
abbrev pub push_watcher : Text → Sender → Watchers → Watchers
push_watcher path sender watchers =
    Dict.insert path (or_empty (Dict.get path watchers) ++ sender ∷ []) watchers

abbrev pub add_watcher : WatchKind → Text → Sender → WatchRegistry → WatchRegistry
add_watcher data_watch path sender r = record r {
  data_watchers = push_watcher path sender r.data_watchers;
  active_watches = r.active_watches + 1;
}
add_watcher children_watch path sender r = record r {
  child_watchers = push_watcher path sender r.child_watchers;
  active_watches = r.active_watches + 1;
}

-- `limit_text` is the message of the error.
unfoldable pub register :
    (ℕ → Text) → (Sender → Bool) → Text → WatchKind → Sender → Exec WatchRegistry ZkError (Unit {0})
register limit_text closed path kind sender r =
    let swept = sweep_closed closed r in
    if leb swept.max_watches swept.active_watches
    then (err (resource_exhausted (limit_text swept.max_watches)), swept)
    else (ok tt, add_watcher kind path sender swept)

-- which watchers an event is for
abbrev pub served : WatchEventKind → WatchKind
served node_created = data_watch
served node_deleted = data_watch
served node_data_changed = data_watch
served node_children_changed = children_watch

abbrev pub watchers_of : WatchKind → WatchRegistry → Watchers
watchers_of data_watch r = r.data_watchers
watchers_of children_watch r = r.child_watchers

abbrev pub without : WatchKind → Text → WatchRegistry → WatchRegistry
without data_watch path r = record r { data_watchers = Dict.remove path r.data_watchers }
without children_watch path r = record r { child_watchers = Dict.remove path r.child_watchers }

abbrev pub with_event : WatchEvent → List Sender → List (Sender × WatchEvent)
with_event event = map (λ w. (w, event))

-- one round of the loop of `take_matching`
unfoldable pub take_event : WatchEvent → WatchRegistry → List (Sender × WatchEvent) × WatchRegistry
take_event event r =
    let kind = served event.kind in
    let ws = or_empty (Dict.get event.path (watchers_of kind r)) in
    let rest = without kind event.path r in
    (with_event event ws, record rest { active_watches = r.active_watches - length ws })

unfoldable pub take_matching :
    List WatchEvent → WatchRegistry → List (Sender × WatchEvent) × WatchRegistry
take_matching [] r = ([], r)
take_matching (event ∷ events) r =
    let (out, r') = take_event event r in
    let (more, r'') = take_matching events r' in (out ++ more, r'')
