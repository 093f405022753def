-- ===== src/Server/Watch/Fresh.antt =====
-- A sender that is registered nowhere at a path, as that of a new channel is.
use zoocooker.Base.{
  ◌≡◌, refl, ap, ◌∙◌, Bool, false, Text, none, List, [], ◌∷◌, contains, nat_eq, text_eq, arith,
}
use zoocooker.Base.Dict
use zoocooker.Server.Watch.{Sender, Watchers, retain_open, sweep_lists, drop_empty, or_empty}
use zoocooker.Server.Watch.Capacity.{get-sweep_lists, get-drop_empty}

contains-retain_open :
    (closed : Sender → Bool) (tx : Sender) (ws : List Sender)
    → contains ws tx ≡ false
    → contains (retain_open closed ws) tx ≡ false
unfolding retain_open
contains-retain_open closed tx [] h = refl
contains-retain_open closed tx (w ∷ ws) h = ground (arith, h, contains-retain_open closed tx ws)

-- a sweep adds no sender
pub contains-swept :
    (closed : Sender → Bool) (tx : Sender) (path : Text) (d : Watchers)
    → Dict.NodupKeys d
    → contains (or_empty (Dict.get path d)) tx ≡ false
    → contains (or_empty (Dict.get path (drop_empty (sweep_lists closed d)))) tx ≡ false
unfolding Dict.get drop_empty sweep_lists
contains-swept closed tx path [] u h = refl
contains-swept closed tx path ((p, ws) ∷ d) u h =
    let swept = get-drop_empty p (sweep_lists closed d) (get-sweep_lists closed p d u.0) in
    elim (text_eq.dec path p) [
      | yes e ↦
          let gone : Dict.get path (drop_empty (sweep_lists closed d)) ≡ none =
            ap (λ x. Dict.get x (drop_empty (sweep_lists closed d))) e ∙ swept in
          ground (arith, e, h, gone, contains-retain_open closed tx ws)
      | no ne ↦ ground (arith, ne, h, contains-swept closed tx path d u.1)
    ]
