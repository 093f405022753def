-- ===== src/Server/Watch/Delivery.antt =====
-- Whom `take_matching` serves: every watcher of an event's path once, and nobody else.
use zoocooker.Base.{
  sym, ℕ, suc, ◌+◌, ◌≤◌, All, All-append, ◌≡◌, refl, ap, ◌∙◌, Bool, true, false, ◌&&◌, ◌||◌, Text,
  none, List, [], ◌∷◌, length, length-append, ◌==◌, text_eq, arith, if◌then◌else◌, contains,
  Bool-cases, inl, inr, nat_eq,
}
use zoocooker.Server.Watch.{
  Watchers, WatchRegistry, Sender, or_empty, served, watchers_of, without, with_event, take_event,
  take_matching,
}
use zoocooker.Protocol.Types.{
  WatchEventKind, node_created, node_deleted, node_data_changed, node_children_changed, WatchKind,
  data_watch, children_watch, WatchEvent,
}
use zoocooker.Base.Dict.{get-remove}
use zoocooker.Base.Dict
use zoocooker.Server.Watch.Capacity.{IsCounted, total-remove, take_event-IsCounted}

abbrev pub same_kind : WatchKind → WatchKind → Bool
same_kind data_watch data_watch = true
same_kind data_watch children_watch = false
same_kind children_watch data_watch = false
same_kind children_watch children_watch = true

-- whether one of the events is for the watchers of this kind at this path
abbrev pub serves : List WatchEvent → WatchKind → Text → Bool
serves [] kind path = false
serves (event ∷ events) kind path =
    (same_kind (served event.kind) kind && (path == event.path)) || serves events kind path

get-without :
    (kind kind' : WatchKind) (path path' : Text) (r : WatchRegistry)
    → Dict.get path' (watchers_of kind' (without kind path r)) ≡ (
        if same_kind kind kind' && (path' == path)
        then none
        else Dict.get path' (watchers_of kind' r))
get-without data_watch data_watch path path' r = get-remove path' path r.data_watchers
get-without data_watch children_watch path path' r = refl
get-without children_watch data_watch path path' r = refl
get-without children_watch children_watch path path' r = get-remove path' path r.child_watchers

watchers-active :
    (kind : WatchKind) (r : WatchRegistry) (n : ℕ)
    → watchers_of kind (record r { active_watches = n }) ≡ watchers_of kind r
watchers-active data_watch r n = refl
watchers-active children_watch r n = refl

get-take_event :
    (event : WatchEvent) (r : WatchRegistry) (kind : WatchKind) (path : Text)
    → Dict.get path (watchers_of kind (take_event event r).1) ≡ (
        if same_kind (served event.kind) kind && (path == event.path)
        then none
        else Dict.get path (watchers_of kind r))
unfolding take_event
get-take_event event r kind path =
    ap (Dict.get path) (watchers-active kind (without (served event.kind) event.path r) _)
    ∙ get-without (served event.kind) kind event.path path r

-- After `take_matching`, the watchers at a path that one of the events was for are gone, and those
-- at every other path are registered as before.
pub get-take_matching :
    (events : List WatchEvent) (r : WatchRegistry) (kind : WatchKind) (path : Text)
    → Dict.get path (watchers_of kind (take_matching events r).1)
      ≡ (if serves events kind path then none else Dict.get path (watchers_of kind r))
unfolding take_matching
get-take_matching [] r kind path = refl
get-take_matching (event ∷ events) r kind path =
    let first = same_kind (served event.kind) kind && (path == event.path) in
    get-take_matching events (take_event event r).1 kind path
    ∙ rw (get-take_event event r kind path)
        (elim (Bool-cases first) [ inl h ↦ ground (arith, h) | inr h ↦ ground (arith, h) ])

length-with_event :
    (event : WatchEvent) (ws : List Sender) → length (with_event event ws) ≡ length ws
length-with_event event [] = refl
length-with_event event (w ∷ ws) = ap suc (length-with_event event ws)

length-watchers-le :
    (kind : WatchKind) (path : Text) (r : WatchRegistry)
    → IsCounted r
    → length (or_empty (Dict.get path (watchers_of kind r))) ≤ r.active_watches
length-watchers-le data_watch path r v =
    omega (arith, v.counted, total-remove path r.data_watchers v.data_distinct)
length-watchers-le children_watch path r v =
    omega (arith, v.counted, total-remove path r.child_watchers v.child_distinct)

take_event-freed :
    (event : WatchEvent) (r : WatchRegistry)
    → IsCounted r
    → length (take_event event r).0 + (take_event event r).1.active_watches ≡ r.active_watches
unfolding take_event
take_event-freed event r v = omega (
  arith,
  length-with_event event (or_empty (Dict.get event.path (watchers_of (served event.kind) r))),
  length-watchers-le (served event.kind) event.path r v,
)

-- Where the count of watchers is exact, every slot that is freed is one delivery: what is handed
-- out and what stays registered add up to what was registered before.
pub take_matching-freed :
    (events : List WatchEvent) (r : WatchRegistry)
    → IsCounted r
    → length (take_matching events r).0 + (take_matching events r).1.active_watches
      ≡ r.active_watches
unfolding take_matching
take_matching-freed [] r v = omega arith
take_matching-freed (event ∷ events) r v = omega (
  arith,
  length-append (take_event event r).0 (take_matching events (take_event event r).1).0,
  take_event-freed event r v,
  take_matching-freed events (take_event event r).1 (take_event-IsCounted event r v),
)

-- The sender is in the list that the event is handed to.
abbrev Listed : WatchRegistry → Sender × WatchEvent → Type 0
Listed r (w, event) =
    contains (or_empty (Dict.get event.path (watchers_of (served event.kind) r))) w ≡ true

with_event-Listed :
    (event : WatchEvent) (r : WatchRegistry) (ws : List Sender)
    → ((w : Sender)
        → contains ws w ≡ true
        → contains (or_empty (Dict.get event.path (watchers_of (served event.kind) r))) w ≡ true)
    → All (Listed r) (with_event event ws)
with_event-Listed event r [] h = tt
with_event-Listed event r (w ∷ ws) h =
    (h w (ground arith), with_event-Listed event r ws (λ v k. h v (ground (arith, k))))

Listed-take_event :
    (event : WatchEvent) (r : WatchRegistry) (d : Sender × WatchEvent)
    → Listed (take_event event r).1 d
    → Listed r d
Listed-take_event event r (w, e) h =
    let got = get-take_event event r (served e.kind) e.path in
    elim (Bool-cases (same_kind (served event.kind) (served e.kind) && (e.path == event.path))) [
      | inl k ↦ absurd (ground (arith, got, k, h))
      | inr k ↦ ground (arith, got, k, h)
    ]

All-Listed :
    (event : WatchEvent) (r : WatchRegistry) (out : List (Sender × WatchEvent))
    → All (Listed (take_event event r).1) out
    → All (Listed r) out
All-Listed event r [] h = tt
All-Listed event r (d ∷ out) h = (Listed-take_event event r d h.0, All-Listed event r out h.1)

take_matching-Listed :
    (events : List WatchEvent) (r : WatchRegistry) → All (Listed r) (take_matching events r).0
unfolding take_matching
take_matching-Listed [] r = tt
take_matching-Listed (event ∷ events) r =
    All-append (Listed r) (take_event event r).0 _
      (unfold take_event in with_event-Listed event r _ (λ w h. h))
      (All-Listed event r _ (take_matching-Listed events (take_event event r).1))

-- The watchers that an event is for: those of data for a node that comes, goes or gets other data,
-- those of children for a node whose children change.
abbrev pub audience : WatchEventKind → WatchRegistry → Watchers
audience node_created r = r.data_watchers
audience node_deleted r = r.data_watchers
audience node_data_changed r = r.data_watchers
audience node_children_changed r = r.child_watchers

-- The sender watches what the event is about.
abbrev pub Watches : WatchRegistry → Sender × WatchEvent → Type 0
Watches r (w, event) = contains (or_empty (Dict.get event.path (audience event.kind r))) w ≡ true

audience-served :
    (kind : WatchEventKind) (r : WatchRegistry) → watchers_of (served kind) r ≡ audience kind r
audience-served node_created r = refl
audience-served node_deleted r = refl
audience-served node_data_changed r = refl
audience-served node_children_changed r = refl

All-Listed-Watches :
    (r : WatchRegistry) (out : List (Sender × WatchEvent))
    → All (Listed r) out
    → All (Watches r) out
All-Listed-Watches r [] h = tt
All-Listed-Watches r ((w, event) ∷ out) h = (
  sym (ap (λ ws. contains (or_empty (Dict.get event.path ws)) w) (audience-served event.kind r))
      ∙ h.0,
  All-Listed-Watches r out h.1,
)

-- Every delivery goes to a sender that was registered at the event's path, as a watcher of children
-- for a change of the children, and as a watcher of data for the three other kinds of event.
pub take_matching-Watches :
    (events : List WatchEvent) (r : WatchRegistry) → All (Watches r) (take_matching events r).0
take_matching-Watches events r = All-Listed-Watches r _ (take_matching-Listed events r)
