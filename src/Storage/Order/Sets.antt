-- ===== src/Storage/Order/Sets.antt =====
-- The sorted sets of names: membership, and the ascending order that iteration goes by.
use Prim.Native.Nat.{Ordering}
use zoocooker.Base.{◌≡◌, refl, not, ◌&&◌, ◌||◌, Text, List, [], ◌∷◌, contains, ◌==◌, text_eq, arith}
use zoocooker.Storage.Order.{text_compare, set_insert, set_remove}
use zoocooker.Storage.Order.Compare.{text_compare-eq, text_compare-flip, text_compare_trans}

pub contains-set_insert :
    (y x : Text) (xs : List Text) → contains (set_insert x xs) y ≡ (y == x || contains xs y)
unfolding set_insert
contains-set_insert y x [] = refl
contains-set_insert y x (z ∷ xs) = ground (arith, contains-set_insert y x xs, text_compare-eq x z)

pub contains-set_remove :
    (y x : Text) (xs : List Text) → contains (set_remove x xs) y ≡ (not (y == x) && contains xs y)
unfolding set_remove
contains-set_remove y x [] = ground arith
contains-set_remove y x (z ∷ xs) = ground (arith, contains-set_remove y x xs)

-- Every name is below all that follow.
abbrev pub Below : Text → List Text → Type 0
Below x [] = Unit
Below x (y ∷ ys) = (text_compare x y ≡ Ordering.lt) × Below x ys

abbrev pub IsAscending : List Text → Type 0
IsAscending [] = Unit
IsAscending (x ∷ xs) = Below x xs × IsAscending xs

Below-trans :
    (x y : Text) (ys : List Text) → text_compare x y ≡ Ordering.lt → Below y ys → Below x ys
Below-trans x y [] h b = tt
Below-trans x y (z ∷ zs) h b = (text_compare_trans x y z h b.0, Below-trans x y zs h b.1)

set_insert-Below :
    (w x : Text) (xs : List Text)
    → text_compare w x ≡ Ordering.lt
    → Below w xs
    → Below w (set_insert x xs)
unfolding set_insert
set_insert-Below w x [] h b = (h, tt)
set_insert-Below w x (z ∷ zs) h b = ground (arith, set_insert-Below w x zs h b.1)

pub set_insert-IsAscending :
    (x : Text) (xs : List Text) → IsAscending xs → IsAscending (set_insert x xs)
unfolding set_insert
set_insert-IsAscending x [] h = (tt, tt)
set_insert-IsAscending x (z ∷ zs) h = ground (
  arith,
  set_insert-IsAscending x zs h.1,
  set_insert-Below z x zs,
  text_compare-flip x z,
  Below-trans x z zs,
)

set_remove-Below : (w x : Text) (xs : List Text) → Below w xs → Below w (set_remove x xs)
unfolding set_remove
set_remove-Below w x [] b = tt
set_remove-Below w x (z ∷ zs) b = ground (arith, set_remove-Below w x zs b.1)

pub set_remove-IsAscending :
    (x : Text) (xs : List Text) → IsAscending xs → IsAscending (set_remove x xs)
unfolding set_remove
set_remove-IsAscending x [] h = tt
set_remove-IsAscending x (z ∷ zs) h =
    ground (arith, set_remove-IsAscending x zs h.1, set_remove-Below z x zs h.0)
