-- ===== src/Protocol/Paths/Normalize.antt =====
-- `normalize`: which texts it accepts, and that it changes none of them.
use mathlib.Core.List.{tail}
use zoocooker.Base.{
  ℕ, ◌≡◌, ◌≢◌, ◌↔◌, inl, inr, refl, sym, ap, ◌∙◌, subst, true, false, Text, List, [], ◌∷◌, ◌++◌,
  ◌==◌, nat_eq, text_eq, if◌then◌else◌, arith, codes, Bool-cases, All, All-append_right,
  append_assoc, append-nil,
}
use zoocooker.Base.Exec.{ok, err, panic}
use zoocooker.Protocol.Types.{ZkError, ZkResult}
use zoocooker.Protocol.Paths.{
  slash, root, starts_with_slash, ends_with_slash, split, join, collect_parts, join_parts,
  normalize,
}
use zoocooker.Protocol.Paths.Segments.{
  NoSlash, IsName, render_tail, render, join-split, split-NoSlash, split-append, split-render_tail,
  join-eq-render, split-ne-nil,
}

-- The texts that stand for a list of names.
pub record IsPath (path : Text) : Type 0 where
  pub names : List Text
  pub are_names : All IsName names
  pub rendered : render names ≡ path

abbrev NonEmpty : Text → Type 0
NonEmpty s = s ≢ []

collect_parts-ok :
    (acc parts : List Text) → All NonEmpty parts → collect_parts acc parts ≡ ok (acc ++ parts)
unfolding collect_parts
collect_parts-ok acc [] h = rw append-nil
collect_parts-ok acc ([] ∷ rest) h = absurd (h.0 refl)
collect_parts-ok acc ((c ∷ part) ∷ rest) h =
    collect_parts-ok (acc ++ (c ∷ part) ∷ []) rest h.1 ∙ ap ok (append_assoc acc _ rest)

collect_parts-NonEmpty :
    (acc parts r : List Text) → collect_parts acc parts ≡ ok r → All NonEmpty parts
unfolding collect_parts
collect_parts-NonEmpty acc [] r h = tt
collect_parts-NonEmpty acc ([] ∷ rest) r h = absurd (cc)
collect_parts-NonEmpty acc ((c ∷ part) ∷ rest) r h =
    (λ e. cc, collect_parts-NonEmpty (acc ++ (c ∷ part) ∷ []) rest r h)

-- a text that ends with '/', without it
drop_slash : (s : Text) → ends_with_slash s ≡ true → (t : Text) × (s ≡ t ++ (slash ∷ []))
unfolding ends_with_slash
drop_slash [] h = absurd (cc)
drop_slash (c ∷ []) h = ([], ground arith)
drop_slash (c ∷ d ∷ s) h = let (t, e) = drop_slash (d ∷ s) h in (c ∷ t, ap (◌∷◌ c) e)

ends_with_slash-NonEmpty : (s : Text) → All NonEmpty (split s) → ends_with_slash s ≢ true
ends_with_slash-NonEmpty s h e =
    let (t, p) = drop_slash s e in
    let k : All NonEmpty (split t ++ split []) =
      subst (All NonEmpty) (ap split p ∙ split-append t []) h in
    unfold split in (All-append_right NonEmpty (split t) ([] ∷ []) k).0 refl

render-split : (s : Text) → render_tail (split s) ≡ slash ∷ s
render-split s = go (split s) (split-ne-nil s) (join-split s)
  where
    go : (parts : List Text) → parts ≢ [] → join parts ≡ s → render_tail parts ≡ slash ∷ s
    go [] h e = absurd (h refl)
    go (x ∷ xs) h e = sym (join-eq-render x xs) ∙ ap (◌∷◌ slash) e

All-both : (xs : List Text) → All NonEmpty xs → All NoSlash xs → All IsName xs
All-both [] h k = tt
All-both (x ∷ xs) h k = ((h.0, k.0), All-both xs h.1 k.1)

All-NonEmpty : (xs : List Text) → All IsName xs → All NonEmpty xs
All-NonEmpty [] h = tt
All-NonEmpty (x ∷ xs) h = (h.0.0, All-NonEmpty xs h.1)

All-NoSlash : (xs : List Text) → All IsName xs → All NoSlash xs
All-NoSlash [] h = tt
All-NoSlash (x ∷ xs) h = (h.0.1, All-NoSlash xs h.1)

pub root-IsPath : IsPath root
root-IsPath = record { names = []; are_names = tt; rendered = refl }

-- the paths below the root, by the parts of what follows the first '/'
parts-IsPath : (rest : Text) → All NonEmpty (split rest) → IsPath (slash ∷ rest)
parts-IsPath rest h =
    go (split rest) (split-ne-nil rest) (render-split rest)
      (All-both (split rest) h (split-NoSlash rest))
  where
    go :
        (parts : List Text)
        → parts ≢ []
        → render_tail parts ≡ slash ∷ rest
        → All IsName parts
        → IsPath (slash ∷ rest)
    go [] ne e k = absurd (ne refl)
    go (x ∷ xs) ne e k = record { names = x ∷ xs; are_names = k; rendered = e }

-- the branch of `normalize` for a text that starts with '/'
join_collected :
    (rest q : Text)
    → join_parts (collect_parts [] (split rest)) ≡ ok q
    → (q ≡ slash ∷ rest) × All NonEmpty (split rest)
unfolding join_parts
join_collected rest q h = go (collect_parts [] (split rest)) refl h
  where
    go :
        (r : ZkResult (List Text))
        → collect_parts [] (split rest) ≡ r
        → join_parts r ≡ ok q
        → (q ≡ slash ∷ rest) × All NonEmpty (split rest)
    go (ok parts) e k =
        let ne = collect_parts-NonEmpty [] (split rest) parts e in
        let same : ok parts ≡ ok (split rest) = sym e ∙ collect_parts-ok [] (split rest) ne in
        (cc (k, same, join-split rest), ne)
    go (err x) e k = absurd (cc)
    go panic e k = absurd (cc)

split-slash : (rest : Text) → split (slash ∷ rest) ≡ [] ∷ split rest
unfolding split
split-slash rest = ground arith

normalize-slash :
    (rest : Text)
    → normalize (slash ∷ rest) ≡ (
        if (slash ∷ rest) == root
        then ok root
        else if ends_with_slash (slash ∷ rest)
        then err (ZkError.invalid_path (codes "trailing slash is not allowed"))
        else join_parts (collect_parts [] (split rest)))
unfolding normalize starts_with_slash
normalize-slash rest = rw split-slash (ground arith)

normalize-other :
    (c : ℕ) (rest : Text)
    → c ≢ slash
    → normalize (c ∷ rest) ≡ err (ZkError.invalid_path (codes "path must start with '/'"))
unfolding normalize starts_with_slash
normalize-other c rest h = ground arith

pub normalize-root : normalize root ≡ ok root
unfolding normalize starts_with_slash
normalize-root = ground arith

normalize-trailing :
    (c : ℕ) (rest : Text)
    → ends_with_slash (slash ∷ c ∷ rest) ≡ true
    → normalize (slash ∷ c ∷ rest)
      ≡ err (ZkError.invalid_path (codes "trailing slash is not allowed"))
normalize-trailing c rest h = rw normalize-slash (ground arith)

normalize-plain :
    (c : ℕ) (rest : Text)
    → ends_with_slash (slash ∷ c ∷ rest) ≡ false
    → normalize (slash ∷ c ∷ rest) ≡ join_parts (collect_parts [] (split (c ∷ rest)))
normalize-plain c rest h = rw normalize-slash (ground arith)

normalize-slash-ok :
    (rest q : Text) → normalize (slash ∷ rest) ≡ ok q → (q ≡ slash ∷ rest) × IsPath (slash ∷ rest)
normalize-slash-ok [] q h = (cc normalize-root, root-IsPath)
normalize-slash-ok (c ∷ rest) q h = elim (Bool-cases (ends_with_slash (slash ∷ c ∷ rest))) [
  | inl trailing ↦ absurd (cc (normalize-trailing c rest trailing))
  | inr plain ↦
      let (same, parts) = join_collected (c ∷ rest) q (sym (normalize-plain c rest plain) ∙ h) in
      (same, parts-IsPath (c ∷ rest) parts)
]

-- What `normalize` accepts is a path, and it is returned as it was.
pub normalize-ok : (p q : Text) → normalize p ≡ ok q → (q ≡ p) × IsPath p
normalize-ok [] q h = absurd (unfold normalize in cc)
normalize-ok (c ∷ rest) q h = elim (nat_eq.dec c slash) [
  | no ne ↦ absurd (cc (normalize-other c rest ne))
  | yes e ↦ rw e (normalize-slash-ok rest q (rw e at h))
]

-- a nonempty text whose parts are nonempty, behind a '/'
parts-ok :
    (c : ℕ) (rest : Text)
    → All NonEmpty (split (c ∷ rest))
    → normalize (slash ∷ c ∷ rest) ≡ ok (slash ∷ c ∷ rest)
unfolding join_parts
parts-ok c rest h = elim (Bool-cases (ends_with_slash (slash ∷ c ∷ rest))) [
  | inl trailing ↦
      absurd (ends_with_slash-NonEmpty (c ∷ rest) h (unfold ends_with_slash in trailing))
  | inr plain ↦
      normalize-plain c rest plain
      ∙ rw (collect_parts-ok [] (split (c ∷ rest)) h, join_parts) (rw join-split)
]

names-parts :
    (name : Text) (names : List Text)
    → All IsName (name ∷ names)
    → normalize (render (name ∷ names)) ≡ ok (render (name ∷ names))
names-parts [] names h = absurd (h.0.0 refl)
names-parts (c ∷ name) names h = parts-ok c (name ++ render_tail names) (
    rw (split-render_tail (c ∷ name) names h.0.1 (All-NoSlash names h.1))
      (All-NonEmpty ((c ∷ name) ∷ names) h))

-- Every path is accepted.
pub normalize_of_IsPath : (p : Text) → IsPath p → normalize p ≡ ok p
normalize_of_IsPath p h = go h.names h.are_names h.rendered
  where
    go : (names : List Text) → All IsName names → render names ≡ p → normalize p ≡ ok p
    go [] _ e = rw (← e) (unfold normalize starts_with_slash in ground arith)
    go (name ∷ names) k e = rw (← e) (names-parts name names k)

-- `normalize` accepts exactly the paths that stand for a list of names, and returns them unchanged.
pub normalize-eq-ok_iff : (p q : Text) → (normalize p ≡ ok q) ↔ ((q ≡ p) × IsPath p)
normalize-eq-ok_iff p q = (normalize-ok p q, λ (e, h). normalize_of_IsPath p h ∙ ap ok (sym e))

collect_parts-ne-panic : (acc parts : List Text) → collect_parts acc parts ≢ panic
unfolding collect_parts
collect_parts-ne-panic acc [] h = cc
collect_parts-ne-panic acc ([] ∷ rest) h = cc
collect_parts-ne-panic acc ((c ∷ part) ∷ rest) h =
    collect_parts-ne-panic (acc ++ (c ∷ part) ∷ []) rest h

pub normalize-ne-panic : (p : Text) → normalize p ≢ panic
unfolding normalize join_parts
normalize-ne-panic p h = ground (arith, collect_parts-ne-panic [] (tail (split p)))

pub normalize-IsPath : (p q : Text) → normalize p ≡ ok q → IsPath q
normalize-IsPath p q h = let (e, k) = normalize-ok p q h in rw e k
