-- ===== src/Protocol/Paths/Tests.antt =====
-- path.rs at concrete inputs.
use zoocooker.Base.{◌≡◌, ◌↔◌, refl, some, codes, nat_eq, text_eq, arith}
use zoocooker.Protocol.Paths.Segments.{IsName}
use zoocooker.Protocol.Paths.Normalize.{IsPath, normalize-eq-ok_iff, normalize-IsPath}
use zoocooker.Protocol.Paths.Family.{child_path, parent_and_leaf, child_path_of_parent_and_leaf}
use zoocooker.Base.Exec.{ok, err}
use zoocooker.Protocol.Types.{invalid_path}
use zoocooker.Protocol.Paths.{normalize, parent_of, leaf_name}

normalize_root : normalize (codes "/") ≡ ok (codes "/")
unfolding normalize nat_eq text_eq
normalize_root = refl

normalize_deep : normalize (codes "/a/b-1") ≡ ok (codes "/a/b-1")
unfolding normalize nat_eq text_eq
normalize_deep = refl

normalize_double : normalize (codes "/a//b") ≡ err (invalid_path (codes "empty path segment"))
unfolding normalize nat_eq text_eq
normalize_double = refl

parent_and_leaf_deep :
    (parent_of (codes "/a/b") ≡ some (codes "/a")) × (leaf_name (codes "/a/b") ≡ some (codes "b"))
unfolding parent_of leaf_name nat_eq text_eq
parent_and_leaf_deep = (refl, refl)

normalize-eq-ok_iff_example :
    (normalize (codes "/a/b-1") ≡ ok (codes "/a/b-1"))
    ↔ ((codes "/a/b-1" ≡ codes "/a/b-1") × IsPath (codes "/a/b-1"))
normalize-eq-ok_iff_example = normalize-eq-ok_iff (codes "/a/b-1") (codes "/a/b-1")

a-IsPath : IsPath (codes "/a")
a-IsPath =
    normalize-IsPath (codes "/a") (codes "/a")
      (unfold normalize in unfold nat_eq in unfold text_eq in refl)

ab-IsPath : IsPath (codes "/a/b")
ab-IsPath =
    normalize-IsPath (codes "/a/b") (codes "/a/b")
      (unfold normalize in unfold nat_eq in unfold text_eq in refl)

b-IsName : IsName (codes "b")
b-IsName = (ground arith, ground arith)

parent_and_leaf_example :
    (parent_of (child_path (codes "/a") (codes "b")) ≡ some (codes "/a"))
    × (leaf_name (child_path (codes "/a") (codes "b")) ≡ some (codes "b"))
parent_and_leaf_example = parent_and_leaf (codes "/a") (codes "b") a-IsPath b-IsName

child_path_of_parent_and_leaf_example :
    (codes "/a/b" ≡ child_path (codes "/a") (codes "b")) × IsPath (codes "/a") × IsName (codes "b")
child_path_of_parent_and_leaf_example =
    child_path_of_parent_and_leaf (codes "/a/b") (codes "/a") (codes "b") ab-IsPath
      parent_and_leaf_deep.0 parent_and_leaf_deep.1
