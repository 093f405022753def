-- ===== src/Storage/Order/Decimal.antt =====
-- The suffix `{next:010}`: its bytes, its width, and that its order is that of the counters.
use Prim.Native.Nat.{compare, Ordering}
use native.Mathlib.Nat.{pow-suc}
use zoocooker.Base.{
  ℕ, zero, suc, ◌+◌, ◌-◌, ◌/◌, ◌%◌, ◌^◌, ◌<◌, ◌≡◌, refl, sym, ap, ◌∙◌, Text, [], ◌∷◌, ◌++◌, length,
  length-append, ltb, Bool-cases, inl, inr, arith, append_assoc, lt→ltb,
}
use zoocooker.Protocol.Paths.Segments.{NoSlash}
use zoocooker.Storage.Order.{text_compare, decimal_fuel, zeros, padded}

NoSlash-append : (s t : Text) → NoSlash s → NoSlash t → NoSlash (s ++ t)
NoSlash-append [] t h k = k
NoSlash-append (c ∷ s) t h k = (h.0, NoSlash-append s t h.1 k)

decimal_fuel-NoSlash : (fuel n : ℕ) → NoSlash (decimal_fuel fuel n)
unfolding decimal_fuel
decimal_fuel-NoSlash zero n = tt
decimal_fuel-NoSlash (suc fuel) n = elim (Bool-cases (ltb n 10)) [
  | inl small ↦ rw small (omega arith)
  | inr large ↦ rw large (
      NoSlash-append (decimal_fuel fuel (n / 10)) _ (decimal_fuel-NoSlash fuel (n / 10))
        (omega arith))
]

zeros-NoSlash : (n : ℕ) → NoSlash (zeros n)
unfolding zeros
zeros-NoSlash zero = tt
zeros-NoSlash (suc n) = (omega arith, zeros-NoSlash n)

pub padded-NoSlash : (n : ℕ) → NoSlash (padded n)
unfolding padded
padded-NoSlash n = NoSlash-append (zeros _) _ (zeros-NoSlash _) (decimal_fuel-NoSlash (suc n) n)

-- the `width` last digits of a number
digits : ℕ → ℕ → Text
digits zero n = []
digits (suc width) n = digits width (n / 10) ++ (48 + n % 10) ∷ []

length-digits : (width n : ℕ) → length (digits width n) ≡ width
unfolding digits
length-digits zero n = refl
length-digits (suc width) n = omega (
  arith,
  length-append (digits width (n / 10)) ((48 + n % 10) ∷ []),
  length-digits width (n / 10),
)

zeros-append : (k : ℕ) → zeros k ++ 48 ∷ [] ≡ 48 ∷ zeros k
unfolding zeros
zeros-append zero = refl
zeros-append (suc k) = ap (◌∷◌ 48) (zeros-append k)

digits_zero : (width : ℕ) → digits width 0 ≡ zeros width
unfolding digits zeros
digits_zero zero = refl
digits_zero (suc width) = rw (digits_zero width) (zeros-append width)

div_below : (w n : ℕ) → n < 10 ^ suc w → n / 10 < 10 ^ w
div_below w n h = omega (arith, pow-suc 10 w)

one_digit :
    (w n : ℕ)
    → n < 10
    → zeros (suc w - 1) ++ (48 + n) ∷ [] ≡ digits w (n / 10) ++ (48 + n % 10) ∷ []
one_digit w n h =
    let e0 : suc w - 1 ≡ w = omega arith in
    let e1 : n / 10 ≡ 0 = omega arith in
    let e2 : n % 10 ≡ n = omega arith in rw (e0, e1, e2, digits_zero w)

more_digits :
    (w : ℕ) (front back : Text) (d : ℕ)
    → zeros (w - length front) ++ front ≡ back
    → zeros (suc w - length (front ++ d ∷ [])) ++ (front ++ d ∷ []) ≡ back ++ d ∷ []
more_digits w front back d e =
    let same : suc w - length (front ++ d ∷ []) ≡ w - length front =
      omega (arith, length-append front (d ∷ [])) in
    rw (same, ← e) (sym (append_assoc (zeros (w - length front)) front (d ∷ [])))

-- zeros in front of the digits make up the width
pad_to :
    (w fuel n : ℕ)
    → n < fuel
    → n < 10 ^ suc w
    → zeros (suc w - length (decimal_fuel fuel n)) ++ decimal_fuel fuel n ≡ digits (suc w) n
unfolding decimal_fuel digits
pad_to w zero n h b = elim h [ ]
pad_to zero (suc fuel) n h b =
    rw (lt→ltb n 10 (omega (arith, pow-suc 10 0))) (one_digit zero n (omega arith))
pad_to (suc w) (suc fuel) n h b = elim (Bool-cases (ltb n 10)) [
  | inl small ↦ rw small (one_digit (suc w) n (ground arith))
  | inr large ↦ rw large (
      more_digits (suc w) (decimal_fuel fuel (n / 10)) _ _
        (pad_to w fuel (n / 10) (ground arith) (div_below (suc w) n b)))
]

text_compare-last :
    (s t : Text) (a b : ℕ)
    → length s ≡ length t
    → text_compare (s ++ a ∷ []) (t ++ b ∷ []) ≡ (elim (text_compare s t) [
      | Ordering.lt ↦ Ordering.lt
      | Ordering.eq ↦ compare a b
      | Ordering.gt ↦ Ordering.gt
    ])
unfolding text_compare
text_compare-last [] [] a b h = ground arith
text_compare-last [] (d ∷ t) a b h = absurd (omega arith)
text_compare-last (c ∷ s) [] a b h = absurd (omega arith)
text_compare-last (c ∷ s) (d ∷ t) a b h = ground (arith, text_compare-last s t a b)

text_compare-digits :
    (w m n : ℕ) → m < 10 ^ w → n < 10 ^ w → text_compare (digits w m) (digits w n) ≡ compare m n
unfolding digits
text_compare-digits zero m n h k = unfold text_compare in ground arith
text_compare-digits (suc w) m n h k =
    text_compare-last (digits w (m / 10)) (digits w (n / 10)) _ _
      (length-digits w (m / 10) ∙ sym (length-digits w (n / 10)))
    ∙ rw (text_compare-digits w (m / 10) (n / 10) (div_below w m h) (div_below w n k))
        (ground arith)

padded-digits : (n : ℕ) → n < 10 ^ 10 → padded n ≡ digits 10 n
unfolding padded
padded-digits n h = pad_to 9 (suc n) n (omega arith) h

text_compare-prefix : (r s t : Text) → text_compare (r ++ s) (r ++ t) ≡ text_compare s t
unfolding text_compare
text_compare-prefix [] s t = refl
text_compare-prefix (c ∷ r) s t = ground (arith, text_compare-prefix r s t)

-- For counters below 10^10, the names `r{n:010}` after one prefix `r` are ordered as their
-- counters are.
pub text_compare-padded :
    (r : Text) (m n : ℕ)
    → m < 10 ^ 10
    → n < 10 ^ 10
    → text_compare (r ++ padded m) (r ++ padded n) ≡ compare m n
text_compare-padded r m n h k =
    text_compare-prefix r (padded m) (padded n)
    ∙ rw (padded-digits m h, padded-digits n k) (text_compare-digits 10 m n h k)
