-- ===== src/Protocol/Paths.antt =====
-- crates/protocol/src/path.rs, and the functions of `str` that it calls.
mod Conformance
pub mod Segments
pub mod Normalize
pub mod Family
pub mod Tests
use mathlib.Core.List.{reverse, head?, tail}
use zoocooker.Base.{
  ℕ, suc, ◌≡◌, Bool, true, false, Text, Option, none, some, List, [], ◌∷◌, ◌++◌, take, codes, ◌==◌,
  nat_eq, text_eq, if◌then◌else◌,
}
use zoocooker.Base.Exec.{Result, ok, err, panic}
use zoocooker.Protocol.Types.{ZkError, ZkResult, invalid_path}

-- '/'
abbrev pub slash : ℕ
slash = b'/'

-- "/"
abbrev pub root : Text
root = slash ∷ []

abbrev pub is_empty {ℓ} : {A : Type ℓ} → List A → Bool
is_empty [] = true
is_empty (_ ∷ _) = false

-- `s.starts_with('/')`
unfoldable pub starts_with_slash : Text → Bool
starts_with_slash [] = false
starts_with_slash (c ∷ s) = c == slash

-- `s.ends_with('/')`
unfoldable pub ends_with_slash : Text → Bool
ends_with_slash [] = false
ends_with_slash (c ∷ []) = c == slash
ends_with_slash (c ∷ d ∷ s) = ends_with_slash (d ∷ s)

abbrev pub cons_head : ℕ → List Text → List Text
cons_head c [] = (c ∷ []) ∷ []
cons_head c (part ∷ parts) = (c ∷ part) ∷ parts

-- `s.split('/')`
unfoldable pub split : Text → List Text
split [] = [] ∷ []
split (c ∷ s) = let rest = split s in if c == slash then [] ∷ rest else cons_head c rest

-- `parts.join("/")`
unfoldable pub join : List Text → Text
join [] = []
join (part ∷ []) = part
join (part ∷ next ∷ parts) = part ++ (slash ∷ join (next ∷ parts))

-- `s.rfind('/')`
unfoldable pub rfind_slash : Text → Option ℕ
rfind_slash [] = none
rfind_slash (c ∷ s) = elim (rfind_slash s) [
  | some i ↦ some (suc i)
  | none ↦ if c == slash then some 0 else none
]

-- the loop over the segments, with `parts` so far
unfoldable pub collect_parts : List Text → List Text → ZkResult (List Text)
collect_parts parts [] = ok parts
collect_parts parts (part ∷ rest) =
    if is_empty part
    then err (invalid_path (codes "empty path segment"))
    else collect_parts (parts ++ part ∷ []) rest

unfoldable pub join_parts : ZkResult (List Text) → ZkResult Text
join_parts r = elim r [ ok parts ↦ ok (slash ∷ join parts) | err e ↦ err e | panic ↦ panic ]

unfoldable pub normalize : Text → ZkResult Text
unfolding starts_with_slash ends_with_slash split join collect_parts join_parts
normalize input =
    if is_empty input
    then err (invalid_path (codes "path is empty"))
    else if starts_with_slash input
    then (if input == root
        then ok root
        else if ends_with_slash input
        then err (invalid_path (codes "trailing slash is not allowed"))
        else join_parts (collect_parts [] (tail (split input))))
    else err (invalid_path (codes "path must start with '/'"))

unfoldable pub parent_of : Text → Option Text
unfolding rfind_slash
parent_of path = if path == root then none else elim (rfind_slash path) [
  | none ↦ none
  | some idx ↦ if idx == 0 then some root else some (take idx path)
]

-- `rsplit('/').next()` is the last part of `split('/')`.
unfoldable pub leaf_name : Text → Option Text
unfolding split
leaf_name path = if path == root then none else head? (reverse (split path))
