-- ===== src/Server/Watch/Conformance.antt =====
-- The unit tests of crates/server/src/watch.rs, on the model. A channel is its number.
use zoocooker.Base.{
  refl, Bool, true, false, Text, none, some, Option, List, [], ◌∷◌, ◌++◌, ◌==◌, codes, nat_eq,
  text_eq,
}
use zoocooker.Base.Dict
use zoocooker.Base.Assert.{unwrap, unwrap_err, assert, Passes}
use zoocooker.Base.Exec.{Exec, ok, gets, lift, expect, ◌>>=◌, ◌>>◌}
use zoocooker.Protocol.Types.{
  WatchEvent, WatchEventKind, node_data_changed, node_children_changed, WatchKind, data_watch,
  children_watch, ZkError, resource_exhausted,
}
use zoocooker.Server.Watch.{
  WatchRegistry, Sender, new_registry, register, sweep_closed, sweep_lists, count_dropped,
  drop_empty, retain_open, take_matching, take_event,
}

-- the registry, and what the channels hold
record Channels : Type 0 where
  registry : WatchRegistry
  sent : List (Sender × WatchEvent)

abbrev TestM : Type 0 → Type 0
TestM A = Exec Channels ZkError A

abbrev Test : Type 0
Test = TestM (Unit {0})

-- a registration while the channels of `closed` are closed
abbrev registers : (Sender → Bool) → Text → WatchKind → Sender → TestM (Unit {0})
registers closed path kind tx s =
    let (r, registry) = register (λ n. []) closed path kind tx s.registry in
    (r, record s { registry = registry })

abbrev none_closed : Sender → Bool
none_closed tx = false

-- `WatchRegistry::dispatch`: each matching watcher is sent its event
unfoldable dispatch : List WatchEvent → TestM (Unit {0})
dispatch events s =
    let (out, registry) = take_matching events s.registry in
    (ok tt, record { registry = registry; sent = s.sent ++ out })

abbrev received : Sender → List (Sender × WatchEvent) → List WatchEvent
received rx [] = []
received rx ((tx, event) ∷ sent) =
    let rest = received rx sent in elim (tx == rx) [ true ↦ event ∷ rest | false ↦ rest ]

abbrev first_of : List WatchEvent → Option WatchEvent
first_of [] = none
first_of (e ∷ es) = some e

abbrev is_single : List WatchEvent → Bool
is_single (e ∷ []) = true
is_single _ = false

abbrev is_nothing : List WatchEvent → Bool
is_nothing [] = true
is_nothing _ = false

abbrev is_data_change : WatchEventKind → Bool
is_data_change node_data_changed = true
is_data_change _ = false

abbrev is_children_change : WatchEventKind → Bool
is_children_change node_children_changed = true
is_children_change _ = false

abbrev is_resource_exhausted : ZkError → Bool
is_resource_exhausted (resource_exhausted _) = true
is_resource_exhausted _ = false

abbrev app : Text
app = codes "/app"

abbrev on_app : WatchEventKind → List WatchEvent
on_app kind = record { path = app; kind = kind } ∷ []

abbrev dispatches_matching_watch_once : Sender → Test
dispatches_matching_watch_once tx = do
  unwrap (registers none_closed app data_watch tx)
  dispatch (on_app node_data_changed)
  dispatch (on_app node_data_changed)
  events ← gets (λ s. received tx s.sent)
  event ← lift (expect (first_of events))
  assert (event.path == app)
  assert (is_data_change event.kind)
  assert (is_single events)

abbrev separates_data_and_child_watches : Sender → Sender → Test
separates_data_and_child_watches data_tx child_tx = do
  unwrap (registers none_closed app data_watch data_tx)
  unwrap (registers none_closed app children_watch child_tx)
  dispatch (on_app node_children_changed)
  silent ← gets (λ s. received data_tx s.sent)
  assert (is_nothing silent)
  events ← gets (λ s. received child_tx s.sent)
  event ← lift (expect (first_of events))
  assert (is_children_change event.kind)

abbrev rejects_watch_registration_over_limit : Sender → Sender → Test
rejects_watch_registration_over_limit first_tx second_tx = do
  unwrap (registers none_closed app data_watch first_tx)
  error ← unwrap_err (registers none_closed (codes "/other") data_watch second_tx)
  assert (is_resource_exhausted error)

-- the first receiver is dropped before the second registration
abbrev reclaims_capacity_from_disconnected_watchers : Sender → Sender → Test
reclaims_capacity_from_disconnected_watchers first_tx second_tx = do
  unwrap (registers none_closed app data_watch first_tx)
  unwrap (registers (λ tx. tx == first_tx) (codes "/other") data_watch second_tx)

abbrev fresh : WatchRegistry → Channels
fresh registry = record { registry = registry; sent = [] }

watch_tests_pass :
    Passes (dispatches_matching_watch_once 1) (fresh (new_registry 10_000))
    × Passes (separates_data_and_child_watches 1 2) (fresh (new_registry 10_000))
    × Passes (rejects_watch_registration_over_limit 1 2) (fresh (new_registry 1))
    × Passes (reclaims_capacity_from_disconnected_watchers 1 2) (fresh (new_registry 1))
unfolding dispatch register sweep_closed sweep_lists count_dropped drop_empty retain_open
    take_matching take_event Dict.get Dict.insert Dict.remove nat_eq text_eq
watch_tests_pass = (refl, refl, refl, refl)
