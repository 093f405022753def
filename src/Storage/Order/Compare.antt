-- ===== src/Storage/Order/Compare.antt =====
-- The byte order of strings is a total order.
use Prim.Native.Nat.{Ordering}
use zoocooker.Base.{◌≡◌, refl, Text, [], ◌∷◌, arith}
use zoocooker.Storage.Order.{text_compare}

pub text_compare-eq : (s t : Text) → text_compare s t ≡ Ordering.eq → s ≡ t
unfolding text_compare
text_compare-eq [] [] h = refl
text_compare-eq [] (b ∷ t) h = absurd (cc)
text_compare-eq (a ∷ s) [] h = absurd (cc)
text_compare-eq (a ∷ s) (b ∷ t) h = ground (arith, text_compare-eq s t)

pub text_compare_refl : (s : Text) → text_compare s s ≡ Ordering.eq
unfolding text_compare
text_compare_refl [] = refl
text_compare_refl (a ∷ s) = ground (arith, text_compare_refl s)

-- the other way round
abbrev pub flip : Ordering → Ordering
flip Ordering.lt = Ordering.gt
flip Ordering.eq = Ordering.eq
flip Ordering.gt = Ordering.lt

pub text_compare-flip : (s t : Text) → text_compare t s ≡ flip (text_compare s t)
unfolding text_compare
text_compare-flip [] [] = refl
text_compare-flip [] (b ∷ t) = refl
text_compare-flip (a ∷ s) [] = refl
text_compare-flip (a ∷ s) (b ∷ t) = ground (arith, text_compare-flip s t)

pub text_compare_trans :
    (s t u : Text)
    → text_compare s t ≡ Ordering.lt
    → text_compare t u ≡ Ordering.lt
    → text_compare s u ≡ Ordering.lt
unfolding text_compare
text_compare_trans [] (b ∷ t) (c ∷ u) h k = refl
text_compare_trans (a ∷ s) (b ∷ t) (c ∷ u) h k = ground (arith, text_compare_trans s t u)
text_compare_trans [] [] u h k = absurd (cc)
text_compare_trans (a ∷ s) [] u h k = absurd (cc)
text_compare_trans s (b ∷ t) [] h k = absurd (cc)
