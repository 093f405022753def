-- ===== src/Protocol/Paths/Conformance.antt =====
-- The unit tests of crates/protocol/src/path.rs, on the model.
use zoocooker.Base.{refl, true, Text, ◌==◌, codes, nat_eq, text_eq}
use zoocooker.Base.Assert.{unwrap, unwrap_err, assert, Passes}
use zoocooker.Base.Exec.{Exec, lift, expect, ◌>>=◌, ◌>>◌}
use zoocooker.Protocol.Types.{ZkError}
use zoocooker.Protocol.Paths.{normalize, parent_of, leaf_name}

abbrev Test : Type 0
Test = Exec Unit ZkError (Unit {0})

-- `assert!(normalize(path).is_err())`
abbrev rejects : Text → Test
rejects path = do error ← unwrap_err (lift (normalize path)); assert true

abbrev normalizes_root : Test
normalizes_root = do path ← unwrap (lift (normalize (codes "/"))); assert (path == codes "/")

abbrev rejects_trailing_slash : Test
rejects_trailing_slash = rejects (codes "/a/")

abbrev rejects_empty_segments : Test
rejects_empty_segments = do rejects (codes "//a"); rejects (codes "/a//b")

abbrev rejects_relative_paths : Test
rejects_relative_paths = rejects (codes "a/b")

abbrev computes_parent_and_leaf : Test
computes_parent_and_leaf = do
  parent ← lift (expect (parent_of (codes "/a/b")))
  assert (parent == codes "/a")
  leaf ← lift (expect (leaf_name (codes "/a/b")))
  assert (leaf == codes "b")

path_tests_pass :
    Passes normalizes_root tt
    × Passes rejects_trailing_slash tt
    × Passes rejects_empty_segments tt
    × Passes rejects_relative_paths tt
    × Passes computes_parent_and_leaf tt
unfolding normalize parent_of leaf_name nat_eq text_eq
path_tests_pass = (refl, refl, refl, refl, refl)
