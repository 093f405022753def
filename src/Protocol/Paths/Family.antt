-- ===== src/Protocol/Paths/Family.antt =====
-- `parent_of` and `leaf_name`: they take a path apart into the path above it and its last name.
use mathlib.Core.List.{reverse-append}
use mathlib.Core.Logic.{if_pos, if_neg}
use zoocooker.Base.{
  ◌≡◌, ◌≢◌, ◌⊎◌, inl, inr, refl, sym, ap, ◌∙◌, subst, Text, List, [], ◌∷◌, ◌++◌, ◌==◌, nat_eq,
  text_eq, none, some, if◌then◌else◌, arith, All, All-append, All-append_right, All-append_left,
  append_assoc, append-nil, length, take-append,
}
use zoocooker.Protocol.Paths.{slash, root, rfind_slash, parent_of, leaf_name}
use zoocooker.Protocol.Paths.Segments.{
  NoSlash, IsName, render_tail, render, split-append, split-name,
}
use zoocooker.Protocol.Paths.Normalize.{IsPath}

-- the path of the node `name` below the node `path`
abbrev pub child_path : Text → Text → Text
child_path path name = if path == root then slash ∷ name else path ++ (slash ∷ name)

rfind_slash-name : (s : Text) → NoSlash s → rfind_slash s ≡ none
unfolding rfind_slash
rfind_slash-name [] h = refl
rfind_slash-name (c ∷ s) h = rw (rfind_slash-name s h.1) (ground arith)

rfind_slash-last :
    (p name : Text) → NoSlash name → rfind_slash (p ++ (slash ∷ name)) ≡ some (length p)
unfolding rfind_slash
rfind_slash-last [] name h = rw (rfind_slash-name name h) (ground arith)
rfind_slash-last (c ∷ p) name h = rw (rfind_slash-last p name h) refl

last_not_root : (p name : Text) → name ≢ [] → p ++ (slash ∷ name) ≢ root
last_not_root [] name h e = ground arith
last_not_root (c ∷ []) name h e = cc
last_not_root (c ∷ d ∷ p) name h e = cc

parent_of-last :
    (p name : Text)
    → IsName name
    → parent_of (p ++ (slash ∷ name)) ≡ (if length p == 0 then some root else some p)
unfolding parent_of
parent_of-last p name h =
    rw
      (
        if_neg _ (last_not_root p name h.0),
        rfind_slash-last p name h.1,
        take-append p (slash ∷ name),
      )
      refl

leaf_name-last : (p name : Text) → IsName name → leaf_name (p ++ (slash ∷ name)) ≡ some name
unfolding leaf_name
leaf_name-last p name h =
    rw
      (
        if_neg _ (last_not_root p name h.0),
        split-append p name,
        split-name name h.1,
        reverse-append,
      )
      refl

render_tail-append : (xs ys : List Text) → render_tail (xs ++ ys) ≡ render_tail xs ++ render_tail ys
render_tail-append [] ys = refl
render_tail-append (x ∷ xs) ys =
    ap (λ t. slash ∷ t) (ap (◌++◌ x) (render_tail-append xs ys) ∙ sym (append_assoc x _ _))

render-last :
    (names : List Text) (name : Text)
    → render (names ++ name ∷ []) ≡ render_tail names ++ (slash ∷ name)
render-last [] name = simp append-nil
render-last (x ∷ xs) name = render_tail-append (x ∷ xs) (name ∷ []) ∙ simp append-nil

render-ne-root : (x : Text) (xs : List Text) → x ≢ [] → render (x ∷ xs) ≢ root
render-ne-root [] xs h e = h refl
render-ne-root (c ∷ x) xs h e = cc

child_path-render :
    (names : List Text) (name : Text)
    → All IsName names
    → child_path (render names) name ≡ render (names ++ name ∷ [])
child_path-render [] name h = rw (if_pos _ refl) (simp append-nil)
child_path-render (x ∷ xs) name h =
    rw (if_neg _ (render-ne-root x xs h.0.0)) (sym (render-last (x ∷ xs) name))

parent_of-render :
    (names : List Text) (name : Text)
    → IsName name
    → parent_of (render (names ++ name ∷ [])) ≡ some (render names)
parent_of-render [] name h = rw (render-last [] name, parent_of-last [] name h) (ground arith)
parent_of-render (x ∷ xs) name h =
    rw (render-last (x ∷ xs) name, parent_of-last (render_tail (x ∷ xs)) name h) (ground arith)

leaf_name-render :
    (names : List Text) (name : Text)
    → IsName name
    → leaf_name (render (names ++ name ∷ [])) ≡ some name
leaf_name-render names name h =
    rw (render-last names name) (leaf_name-last (render_tail names) name h)

child_path-names :
    (p name : Text) (h : IsPath p) → child_path p name ≡ render (h.names ++ name ∷ [])
child_path-names p name h =
    ap (λ q. child_path q name) (sym h.rendered) ∙ child_path-render h.names name h.are_names

-- For a path and a name of one of its children, `parent_of` and `leaf_name` of the child's path
-- give them back.
pub parent_and_leaf :
    (p name : Text)
    → IsPath p
    → IsName name
    → (parent_of (child_path p name) ≡ some p) × (leaf_name (child_path p name) ≡ some name)
parent_and_leaf p name h k = (
  ap parent_of (child_path-names p name h) ∙ parent_of-render h.names name k ∙ ap some h.rendered,
  ap leaf_name (child_path-names p name h) ∙ leaf_name-render h.names name k,
)

pub child_path-IsPath : (p name : Text) → IsPath p → IsName name → IsPath (child_path p name)
child_path-IsPath p name h k = record {
  names = h.names ++ name ∷ [];
  are_names = All-append IsName h.names (name ∷ []) h.are_names (k, tt);
  rendered = sym (child_path-names p name h);
}

-- A path that is not the root is a child of another path.
pub record IsChild (q : Text) : Type 0 where
  pub parent : Text
  pub name : Text
  pub parent_path : IsPath parent
  pub is_name : IsName name
  pub joined : q ≡ child_path parent name

last_name : (x : Text) (xs : List Text) → (ys : List Text) × (y : Text) × (x ∷ xs ≡ ys ++ y ∷ [])
last_name x [] = ([], x, refl)
last_name x (z ∷ zs) = let (ys, y, e) = last_name z zs in (x ∷ ys, y, ap (◌∷◌ x) e)

below_root : (x : Text) (xs : List Text) → All IsName (x ∷ xs) → IsChild (render (x ∷ xs))
below_root x xs h =
    let (ys, y, e) = last_name x xs in
    let k : All IsName (ys ++ y ∷ []) = subst (All IsName) e h in
    record {
      parent = render ys;
      name = y;
      parent_path = record {
        names = ys;
        are_names = All-append_left IsName ys (y ∷ []) k;
        rendered = refl;
      };
      is_name = (All-append_right IsName ys (y ∷ []) k).0;
      joined = ap render e ∙ sym (child_path-render ys y (All-append_left IsName ys (y ∷ []) k));
    }

pub IsPath-cases : (q : Text) → IsPath q → (q ≡ root) ⊎ IsChild q
IsPath-cases q h = go h.names h.are_names h.rendered
  where
    go : (names : List Text) → All IsName names → render names ≡ q → (q ≡ root) ⊎ IsChild q
    go [] k e = inl (sym e)
    go (x ∷ xs) k e = inr (rw (← e) (below_root x xs k))

pub parent_of-root : parent_of root ≡ none
unfolding parent_of
parent_of-root = rw (if_pos _ refl) refl

-- A path that has a parent and a leaf is the path of that leaf below that parent, the parent is a
-- path, and the leaf is a name.
pub child_path_of_parent_and_leaf :
    (q p name : Text)
    → IsPath q
    → parent_of q ≡ some p
    → leaf_name q ≡ some name
    → (q ≡ child_path p name) × IsPath p × IsName name
child_path_of_parent_and_leaf q p name h e f = elim (IsPath-cases q h) [
  | inl r ↦ absurd (cc (parent_of-root, ap parent_of r))
  | inr c ↦
      let (pe, le) = parent_and_leaf c.parent c.name c.parent_path c.is_name in
      let same_parent : c.parent ≡ p = cc (pe, c.joined) in
      let same_name : c.name ≡ name = cc (le, c.joined) in
      (
        c.joined ∙ cc (same_parent, same_name),
        subst IsPath same_parent c.parent_path,
        subst IsName same_name c.is_name,
      )
]

NoSlash-append : (s t : Text) → NoSlash s → NoSlash t → NoSlash (s ++ t)
NoSlash-append [] t h k = k
NoSlash-append (c ∷ s) t h k = (h.0, NoSlash-append s t h.1 k)

append-ne-nil : (s t : Text) → s ≢ [] → s ++ t ≢ []
append-ne-nil [] t h = absurd (h refl)
append-ne-nil (c ∷ s) t h = λ e. cc

child_path-append : (p name t : Text) → child_path p name ++ t ≡ child_path p (name ++ t)
child_path-append p name t = elim (text_eq.dec p root) [
  | yes e ↦ rw (if_pos _ e) refl
  | no ne ↦ rw (if_neg _ ne) (append_assoc p (slash ∷ name) t)
]

-- A suffix with no slash lengthens the last name of a path.
pub append-IsChild : (q t : Text) → IsPath q → q ≢ root → NoSlash t → IsChild (q ++ t)
append-IsChild q t h ne k = elim (IsPath-cases q h) [
  | inl r ↦ absurd (ne r)
  | inr c ↦ record {
    parent = c.parent;
    name = c.name ++ t;
    parent_path = c.parent_path;
    is_name = (append-ne-nil c.name t c.is_name.0, NoSlash-append c.name t c.is_name.1 k);
    joined = ap (λ s. s ++ t) c.joined ∙ child_path-append c.parent c.name t;
  }
]

pub IsChild-IsPath : (q : Text) → IsChild q → IsPath q
IsChild-IsPath q c = rw c.joined (child_path-IsPath c.parent c.name c.parent_path c.is_name)

pub child_path-ne-root : (p name : Text) → IsName name → child_path p name ≢ root
child_path-ne-root p name h = elim (text_eq.dec p root) [
  | yes e ↦ rw (if_pos _ e) (last_not_root [] name h.0)
  | no ne ↦ rw (if_neg _ ne) (last_not_root p name h.0)
]
