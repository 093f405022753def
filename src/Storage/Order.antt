-- ===== src/Storage/Order.antt =====
-- What the store uses of the standard library's ordered types: the order of `String`, the sorted
-- sets `BTreeSet<String>`, the stable sort, and the decimal printing of `{next:010}`.
pub mod Tests
pub mod Compare
pub mod Sets
pub mod Decimal
use Prim.Native.Nat.{compare, Ordering}
use zoocooker.Base.{
  ℕ, zero, suc, ◌+◌, ◌-◌, ◌/◌, ◌%◌, Bool, true, false, Text, List, [], ◌∷◌, ◌++◌, length, ltb, ◌==◌,
  nat_eq, text_eq, if◌then◌else◌,
}
use zoocooker.Protocol.Paths.{slash}

-- `left.cmp(right)` on strings
unfoldable pub text_compare : Text → Text → Ordering
text_compare [] [] = Ordering.eq
text_compare [] (_ ∷ _) = Ordering.lt
text_compare (_ ∷ _) [] = Ordering.gt
text_compare (a ∷ s) (b ∷ t) =
    let rest = text_compare s t in
    elim (compare a b) [
      | Ordering.lt ↦ Ordering.lt
      | Ordering.eq ↦ rest
      | Ordering.gt ↦ Ordering.gt
    ]

-- `set.insert(name)`; the list is the set in ascending order
unfoldable pub set_insert : Text → List Text → List Text
set_insert name [] = name ∷ []
set_insert name (other ∷ names) =
    let rest = set_insert name names in
    elim (text_compare name other) [
      | Ordering.lt ↦ name ∷ other ∷ names
      | Ordering.eq ↦ other ∷ names
      | Ordering.gt ↦ other ∷ rest
    ]

-- `set.remove(&name)`
unfoldable pub set_remove : Text → List Text → List Text
set_remove name [] = []
set_remove name (other ∷ names) =
    let rest = set_remove name names in if name == other then rest else other ∷ rest

-- `path.matches('/').count()`
unfoldable pub depth : Text → ℕ
depth [] = 0
depth (c ∷ s) = let rest = depth s in if c == slash then suc rest else rest

-- the comparison of `sort_deepest_first`
unfoldable pub deepest_first : Text → Text → Ordering
deepest_first left right = elim (compare (depth right) (depth left)) [
  | Ordering.lt ↦ Ordering.lt
  | Ordering.eq ↦ text_compare right left
  | Ordering.gt ↦ Ordering.gt
]

abbrev pub is_gt : Ordering → Bool
is_gt Ordering.gt = true
is_gt _ = false

unfoldable pub insert_sorted : Text → List Text → List Text
insert_sorted path [] = path ∷ []
insert_sorted path (other ∷ paths) =
    let rest = insert_sorted path paths in
    if is_gt (deepest_first path other) then other ∷ rest else path ∷ other ∷ paths

-- `sort_by` is stable: of two equal entries the first stays first.
unfoldable pub sort_deepest_first : List Text → List Text
unfolding insert_sorted
sort_deepest_first [] = []
sort_deepest_first (path ∷ paths) = insert_sorted path (sort_deepest_first paths)

-- the digits of a number, with fuel above the number
unfoldable pub decimal_fuel : ℕ → ℕ → Text
decimal_fuel zero n = []
decimal_fuel (suc fuel) n =
    let front = decimal_fuel fuel (n / 10) in
    if ltb n 10 then (48 + n) ∷ [] else front ++ (48 + n % 10) ∷ []

unfoldable pub decimal : ℕ → Text
unfolding decimal_fuel
decimal n = decimal_fuel (suc n) n

unfoldable pub zeros : ℕ → Text
zeros zero = []
zeros (suc n) = 48 ∷ zeros n

-- `{next:010}`
unfoldable pub padded : ℕ → Text
unfolding decimal zeros
padded n = let digits = decimal n in zeros (10 - length digits) ++ digits
