-- ===== src/Server/Service/Progress/Owned.antt =====
-- The nodes that a session owns on a tree: each of them can be deleted.
use zoocooker.Base.{
  ◌≡◌, ◌≢◌, ◌⊎◌, refl, sym, ap, ◌∙◌, true, Bool-cases, Option-cases, inl, inr, Text, none, some,
  List, [], ◌∷◌, contains, ◌==◌, nat_eq, text_eq, option_eq, arith,
}
use zoocooker.Base.Dict.{Dict}
use zoocooker.Base.Dict
use zoocooker.Base.Exec.{ok, err, Result-split}
use zoocooker.Protocol.Types.{SessionId, delete, Applied, no_node}
use zoocooker.Protocol.Paths.{root}
use zoocooker.Protocol.Paths.Normalize.{IsPath, normalize-eq-ok_iff}
use zoocooker.Storage.Node.{ZNode}
use zoocooker.Storage.Store.{
  TreeStore, apply, delete_node, owned_paths, ephemeral_paths_for_session,
}
use zoocooker.Storage.Store.Outcomes.{delete_node-Deletes}
use zoocooker.Storage.Store.Shape.{IsTree}
use zoocooker.Storage.Store.Apply.{apply-ne-panic}
use zoocooker.Storage.Store.View.{entry, view, view-deleted}
use zoocooker.Server.Service.Deletions.{owner_of, owner_at, contains-sort_deepest_first}

-- a list is empty, or has a member
pub List-cases : (xs : List Text) → (xs ≡ []) ⊎ ((x : Text) × (contains xs x ≡ true))
List-cases [] = inl refl
List-cases (x ∷ xs) = inr (x, ground arith)

-- a node that a session owns has no children
pub owned-childless :
    (s : TreeStore) (q : Text) (n : ZNode) (id : SessionId)
    → IsTree s.nodes
    → Dict.get q s.nodes ≡ some n
    → n.ephemeral_owner ≡ some id
    → n.children ≡ []
owned-childless s q n id v h e = elim (List-cases n.children) [
  | inl empty ↦ empty
  | inr (c, listed) ↦
      let k = v.children q c n h listed in
      let l = v.parents k.key q c k.node k.found k.is_parent k.is_leaf in
      absurd (ground (arith, h, e, l.found, l.lasting))
]

pub owned-not-root :
    (s : TreeStore) (q : Text) (n : ZNode) (id : SessionId)
    → IsTree s.nodes
    → Dict.get q s.nodes ≡ some n
    → n.ephemeral_owner ≡ some id
    → q ≢ root
owned-not-root s q n id v h e same =
    let r = v.has_root in
    let there : Dict.get root s.nodes ≡ some n = sym (ap (λ x. Dict.get x s.nodes) same) ∙ h in
    ground (arith, there, e, r.found, r.lasting)

-- a delete of an owned node succeeds
pub delete-owned :
    (s : TreeStore) (q : Text) (n : ZNode) (id : SessionId)
    → IsTree s.nodes
    → Dict.get q s.nodes ≡ some n
    → n.ephemeral_owner ≡ some id
    → (a : Applied) × ((apply (delete q none) s).0 ≡ ok a)
delete-owned s q n id v h e = elim (Result-split (apply (delete q none) s).0) [
  | inl found ↦ found
  | inr (inl (x, bad)) ↦
      let normal = (normalize-eq-ok_iff q q).1 (refl, v.paths q n h) in
      absurd (
        unfold apply in
        unfold delete_node in
        ground
          (arith, normal, owned-not-root s q n id v h e, owned-childless s q n id v h e, h, bad))
  | inr (inr bad) ↦ absurd (apply-ne-panic s (delete q none) bad)
]

-- a delete of a path that is not there says so
pub delete-absent :
    (s : TreeStore) (q : Text)
    → IsTree s.nodes
    → IsPath q
    → Dict.get q s.nodes ≡ none
    → (apply (delete q none) s).0 ≡ err (no_node q)
unfolding apply delete_node
delete-absent s q v is_path h =
    let normal = (normalize-eq-ok_iff q q).1 (refl, is_path) in
    let r = v.has_root in
    elim (text_eq.dec q root) [
      | yes e ↦ absurd (ground (arith, ap (λ x. Dict.get x s.nodes) e, h, r.found))
      | no ne ↦ ground (arith, normal, h)
    ]

-- gone, or owned by the session
abbrev pub Pending : SessionId → TreeStore → Text → Type 0
Pending id s q = (Dict.get q s.nodes ≡ none) ⊎ (owner_at s q ≡ some id)

pub absent : (s : TreeStore) (q : Text) → view s q ≡ none → Dict.get q s.nodes ≡ none
absent s q h = elim (Option-cases (Dict.get q s.nodes)) [
  | inl e ↦ e
  | inr (n, e) ↦ absurd (ground (arith, e, h))
]

pub deleted-Pending :
    (id : SessionId) (s : TreeStore) (p : Text) (a : Applied) (q : Text)
    → (apply (delete p none) s).0 ≡ ok a
    → Pending id s q
    → Pending id (apply (delete p none) s).1 q
unfolding apply
deleted-Pending id s p a q h pending =
    let k = delete_node-Deletes s p none a h in
    let after = view-deleted k q in
    elim (Bool-cases (q == k.key)) [
      | inl e ↦ inl (absent (delete_node p none s).1 q (after ∙ ground (arith, e)))
      | inr e ↦
          let same : view (delete_node p none s).1 q ≡ view s q = after ∙ ground (arith, e) in
          elim pending [
            | inl gone ↦ inl (absent (delete_node p none s).1 q (same ∙ ap entry gone))
            | inr owned ↦ inr (ap owner_of same ∙ owned)
          ]
    ]

-- what a session owns is all that the list holds
pub owned_paths-owned :
    (id : SessionId) (nodes : Dict Text ZNode) (q : Text)
    → Dict.NodupKeys nodes
    → contains (owned_paths id nodes) q ≡ true
    → owner_of (entry (Dict.get q nodes)) ≡ some id
unfolding owned_paths Dict.get
owned_paths-owned id [] q u h = absurd (ground (arith, h))
owned_paths-owned id ((p, m) ∷ nodes) q u h = elim (text_eq.dec q p) [
  | yes e ↦ elim (Bool-cases (contains (owned_paths id nodes) q)) [
    | inl rest ↦
        let here = owned_paths-owned id nodes q u.1 rest in
        let gone : Dict.get q nodes ≡ none = ap (λ x. Dict.get x nodes) e ∙ u.0 in
        absurd (ground (arith, ap (λ x. owner_of (entry x)) gone, here))
    | inr rest ↦ ground (arith, e, h, rest)
  ]
  | no ne ↦ ground (arith, owned_paths-owned id nodes q u.1)
]

pub listed-Pending :
    (s : TreeStore) (id : SessionId) (q : Text)
    → IsTree s.nodes
    → contains (ephemeral_paths_for_session s id) q ≡ true
    → Pending id s q × IsPath q
unfolding ephemeral_paths_for_session
listed-Pending s id q v h =
    let owned =
      owned_paths-owned id s.nodes q v.distinct
        (sym (contains-sort_deepest_first (owned_paths id s.nodes) q) ∙ h) in
    (
      inr owned,
      elim (Option-cases (Dict.get q s.nodes)) [
        | inl e ↦ absurd (ground (arith, e, owned))
        | inr (n, e) ↦ v.paths q n e
      ],
    )
