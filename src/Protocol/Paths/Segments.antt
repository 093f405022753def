-- ===== src/Protocol/Paths/Segments.antt =====
-- Paths as lists of names: what `normalize`, `parent_of` and `leaf_name` compute.
use mathlib.Core.Logic.{if_pos, if_neg}
use zoocooker.Base.{
  ℕ, ◌≡◌, ◌≢◌, refl, ap, ◌∙◌, Text, List, [], ◌∷◌, ◌++◌, nat_eq, text_eq, arith, All, append-nil,
}
use zoocooker.Protocol.Paths.{slash, root, cons_head, split, join}

-- A name is a nonempty text with no slash.
abbrev pub NoSlash : Text → Type 0
NoSlash [] = Unit
NoSlash (c ∷ s) = (c ≢ slash) × NoSlash s

abbrev pub IsName : Text → Type 0
IsName s = (s ≢ []) × NoSlash s

-- The text of a path given by its names: "/" for none.
abbrev pub render_tail : List Text → Text
render_tail [] = []
render_tail (name ∷ names) = slash ∷ (name ++ render_tail names)

abbrev pub render : List Text → Text
render [] = root
render (name ∷ names) = render_tail (name ∷ names)

pub join-eq-render :
    (name : Text) (names : List Text) → slash ∷ join (name ∷ names) ≡ render_tail (name ∷ names)
unfolding join
join-eq-render name [] = simp append-nil
join-eq-render name (next ∷ names) = ap (λ t. slash ∷ (name ++ t)) (join-eq-render next names)

-- Splitting
pub split-name : (s : Text) → NoSlash s → split s ≡ s ∷ []
unfolding split
split-name [] h = refl
split-name (c ∷ s) h = ground (arith, split-name s h.1)

pub split-ne-nil : (s : Text) → split s ≢ []
unfolding split
split-ne-nil [] h = cc
split-ne-nil (c ∷ s) h = ground (arith, split-ne-nil s)

cons_head-append :
    (c : ℕ) (xs ys : List Text) → xs ≢ [] → cons_head c (xs ++ ys) ≡ cons_head c xs ++ ys
cons_head-append c [] ys h = absurd (h refl)
cons_head-append c (x ∷ xs) ys h = refl

pub split-append : (s t : Text) → split (s ++ (slash ∷ t)) ≡ split s ++ split t
unfolding split
split-append [] t = ground arith
split-append (c ∷ s) t =
    ground (arith, split-append s t, cons_head-append c (split s) (split t), split-ne-nil s)

join-cons_head : (c : ℕ) (xs : List Text) → xs ≢ [] → join (cons_head c xs) ≡ c ∷ join xs
unfolding join
join-cons_head c [] h = absurd (h refl)
join-cons_head c (x ∷ []) h = refl
join-cons_head c (x ∷ y ∷ xs) h = refl

join-nil-cons : (xs : List Text) → xs ≢ [] → join ([] ∷ xs) ≡ slash ∷ join xs
unfolding join
join-nil-cons [] h = absurd (h refl)
join-nil-cons (x ∷ xs) h = refl

-- joining what was split
pub join-split : (s : Text) → join (split s) ≡ s
unfolding split
join-split [] = unfold join in refl
join-split (c ∷ s) =
    ground
      (arith, join-split s, split-ne-nil s, join-cons_head c (split s), join-nil-cons (split s))

cons_head-NoSlash :
    (c : ℕ) (xs : List Text) → c ≢ slash → All NoSlash xs → All NoSlash (cons_head c xs)
cons_head-NoSlash c [] h k = ((h, tt), tt)
cons_head-NoSlash c (x ∷ xs) h k = ((h, k.0), k.1)

pub split-NoSlash : (s : Text) → All NoSlash (split s)
unfolding split
split-NoSlash [] = (tt, tt)
split-NoSlash (c ∷ s) =
    let rest = split-NoSlash s in
    elim (nat_eq.dec c slash) [
      | yes e ↦ rw (if_pos _ e) (tt, rest)
      | no ne ↦ rw (if_neg _ ne) (cons_head-NoSlash c (split s) ne rest)
    ]

pub split-render_tail :
    (name : Text) (names : List Text)
    → NoSlash name
    → All NoSlash names
    → split (name ++ render_tail names) ≡ name ∷ names
split-render_tail name [] h k = rw append-nil (split-name name h)
split-render_tail name (next ∷ names) h k =
    split-append name (next ++ render_tail names)
    ∙ cc (split-name name h, split-render_tail next names k.0 k.1)
