-- ===== src/Server/Watch/Capacity.antt =====
-- The registry counts its watchers exactly, and never holds more than its limit.
use zoocooker.Base.{
  ℕ, ◌+◌, ◌-◌, ◌≤◌, ◌<◌, ◌≡◌, refl, Bool, Text, none, Bool-cases, inl, inr, List, [], ◌∷◌, ◌++◌,
  arith, length, length-append, leb, text_eq,
}
use zoocooker.Base.Dict.{Dict}
use zoocooker.Base.Dict
use zoocooker.Protocol.Types.{WatchKind, data_watch, children_watch, WatchEvent}
use zoocooker.Server.Watch.{
  Sender, Watchers, WatchRegistry, retain_open, sweep_lists, count_dropped, drop_empty,
  sweep_closed, or_empty, push_watcher, add_watcher, register, served, watchers_of, without,
  take_event, take_matching,
}

-- how many senders stand in a map
unfoldable pub total : Watchers → ℕ
total [] = 0
total ((path, ws) ∷ watchers) = length ws + total watchers

-- the count is right, and within the limit
pub record IsCounted (r : WatchRegistry) : Type 0 where
  pub counted : r.active_watches ≡ total r.data_watchers + total r.child_watchers
  pub limited : r.active_watches ≤ r.max_watches
  pub data_distinct : Dict.NodupKeys r.data_watchers
  pub child_distinct : Dict.NodupKeys r.child_watchers

total-drop_empty : (w : Watchers) → total (drop_empty w) ≡ total w
unfolding total drop_empty
total-drop_empty [] = refl
total-drop_empty ((path, []) ∷ w) = omega (arith, total-drop_empty w)
total-drop_empty ((path, s ∷ ws) ∷ w) = omega (arith, total-drop_empty w)

length-retain_open-le :
    (closed : Sender → Bool) (ws : List Sender) → length (retain_open closed ws) ≤ length ws
unfolding retain_open
length-retain_open-le closed [] = omega arith
length-retain_open-le closed (w ∷ ws) = ground (arith, length-retain_open-le closed ws)

total-sweep_lists :
    (closed : Sender → Bool) (w : Watchers)
    → total (sweep_lists closed w) + count_dropped closed w ≡ total w
unfolding total sweep_lists count_dropped
total-sweep_lists closed [] = omega arith
total-sweep_lists closed ((path, ws) ∷ w) =
    omega (arith, total-sweep_lists closed w, length-retain_open-le closed ws)

total-insert :
    (path : Text) (ws : List Sender) (w : Watchers)
    → total (Dict.insert path ws w) + length (or_empty (Dict.get path w)) ≡ total w + length ws
unfolding total Dict.insert Dict.get
total-insert path ws [] = omega arith
total-insert path ws ((p, vs) ∷ w) = ground (arith, total-insert path ws w)

remove_absent : (path : Text) (w : Watchers) → Dict.get path w ≡ none → Dict.remove path w ≡ w
unfolding Dict.get Dict.remove
remove_absent path [] h = refl
remove_absent path ((p, vs) ∷ w) h = ground (arith, remove_absent path w)

pub total-remove :
    (path : Text) (w : Watchers)
    → Dict.NodupKeys w
    → total (Dict.remove path w) + length (or_empty (Dict.get path w)) ≡ total w
unfolding total Dict.remove Dict.get
total-remove path [] u = omega arith
total-remove path ((p, vs) ∷ w) u =
    ground (arith, total-remove path w u.1, remove_absent path w, u.0)

pub get-sweep_lists :
    (closed : Sender → Bool) (path : Text) (w : Watchers)
    → Dict.get path w ≡ none
    → Dict.get path (sweep_lists closed w) ≡ none
unfolding Dict.get sweep_lists
get-sweep_lists closed path [] h = refl
get-sweep_lists closed path ((p, ws) ∷ w) h = ground (arith, get-sweep_lists closed path w)

sweep_lists-NodupKeys :
    (closed : Sender → Bool) (w : Watchers)
    → Dict.NodupKeys w
    → Dict.NodupKeys (sweep_lists closed w)
unfolding sweep_lists
sweep_lists-NodupKeys closed [] u = tt
sweep_lists-NodupKeys closed ((p, ws) ∷ w) u =
    (get-sweep_lists closed p w u.0, sweep_lists-NodupKeys closed w u.1)

pub get-drop_empty :
    (path : Text) (w : Watchers) → Dict.get path w ≡ none → Dict.get path (drop_empty w) ≡ none
unfolding Dict.get drop_empty
get-drop_empty path [] h = refl
get-drop_empty path ((p, []) ∷ w) h = ground (arith, get-drop_empty path w)
get-drop_empty path ((p, s ∷ ws) ∷ w) h = ground (arith, get-drop_empty path w)

drop_empty-NodupKeys : (w : Watchers) → Dict.NodupKeys w → Dict.NodupKeys (drop_empty w)
unfolding drop_empty
drop_empty-NodupKeys [] u = tt
drop_empty-NodupKeys ((p, []) ∷ w) u = drop_empty-NodupKeys w u.1
drop_empty-NodupKeys ((p, s ∷ ws) ∷ w) u = (get-drop_empty p w u.0, drop_empty-NodupKeys w u.1)

-- the open senders of a map
abbrev pub open_total : (Sender → Bool) → Watchers → ℕ
open_total closed w = total (sweep_lists closed w)

sweep_closed-IsCounted :
    (closed : Sender → Bool) (r : WatchRegistry) → IsCounted r → IsCounted (sweep_closed closed r)
unfolding sweep_closed
sweep_closed-IsCounted closed r v = record {
  counted = omega (
    arith,
    v.counted,
    total-sweep_lists closed r.data_watchers,
    total-sweep_lists closed r.child_watchers,
    total-drop_empty (sweep_lists closed r.data_watchers),
    total-drop_empty (sweep_lists closed r.child_watchers),
  );
  limited = omega (arith, v.limited);
  data_distinct = drop_empty-NodupKeys _ (sweep_lists-NodupKeys closed _ v.data_distinct);
  child_distinct = drop_empty-NodupKeys _ (sweep_lists-NodupKeys closed _ v.child_distinct);
}

total-push_watcher :
    (path : Text) (tx : Sender) (w : Watchers) → total (push_watcher path tx w) ≡ total w + 1
total-push_watcher path tx w =
    let old = or_empty (Dict.get path w) in
    omega (arith, total-insert path (old ++ tx ∷ []) w, length-append old (tx ∷ []))

add_watcher-IsCounted :
    (kind : WatchKind) (path : Text) (tx : Sender) (r : WatchRegistry)
    → r.active_watches < r.max_watches
    → IsCounted r
    → IsCounted (add_watcher kind path tx r)
add_watcher-IsCounted data_watch path tx r room v = record {
  counted = omega (arith, v.counted, total-push_watcher path tx r.data_watchers);
  limited = omega arith;
  data_distinct = Dict.insert-NodupKeys path _ _ v.data_distinct;
  child_distinct = v.child_distinct;
}
add_watcher-IsCounted children_watch path tx r room v = record {
  counted = omega (arith, v.counted, total-push_watcher path tx r.child_watchers);
  limited = omega arith;
  data_distinct = v.data_distinct;
  child_distinct = Dict.insert-NodupKeys path _ _ v.child_distinct;
}

-- Where the count of watchers is exact and within the limit, it is so after any registration,
-- whether it is refused or not.
pub register-IsCounted :
    (limit_text : ℕ → Text) (closed : Sender → Bool) (path : Text) (kind : WatchKind) (tx : Sender)
    (r : WatchRegistry)
    → IsCounted r
    → IsCounted (register limit_text closed path kind tx r).1
unfolding register
register-IsCounted limit_text closed path kind tx r v =
    let swept = sweep_closed closed r in
    let v' = sweep_closed-IsCounted closed r v in
    elim (Bool-cases (leb swept.max_watches swept.active_watches)) [
      | inl full ↦ rw full v'
      | inr room ↦ rw room (add_watcher-IsCounted kind path tx swept (ground arith) v')
    ]

pub take_event-IsCounted :
    (event : WatchEvent) (r : WatchRegistry) → IsCounted r → IsCounted (take_event event r).1
unfolding take_event
take_event-IsCounted event r v = go (served event.kind)
  where
    go :
        (kind : WatchKind)
        → IsCounted (record (without kind event.path r) {
          active_watches =
              r.active_watches - length (or_empty (Dict.get event.path (watchers_of kind r)));
        })
    go data_watch = record {
      counted = omega (arith, v.counted, total-remove event.path r.data_watchers v.data_distinct);
      limited = omega (arith, v.limited);
      data_distinct = Dict.remove-NodupKeys event.path _ v.data_distinct;
      child_distinct = v.child_distinct;
    }
    go children_watch = record {
      counted = omega (arith, v.counted, total-remove event.path r.child_watchers v.child_distinct);
      limited = omega (arith, v.limited);
      data_distinct = v.data_distinct;
      child_distinct = Dict.remove-NodupKeys event.path _ v.child_distinct;
    }

-- Where the count of watchers is exact and within the limit, it is so after the watchers of any
-- events are taken.
pub take_matching-IsCounted :
    (events : List WatchEvent) (r : WatchRegistry)
    → IsCounted r
    → IsCounted (take_matching events r).1
unfolding take_matching
take_matching-IsCounted [] r v = v
take_matching-IsCounted (event ∷ events) r v =
    take_matching-IsCounted events (take_event event r).1 (take_event-IsCounted event r v)
