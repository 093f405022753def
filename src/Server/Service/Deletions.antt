-- ===== src/Server/Service/Deletions.antt =====
-- What the deletes of one session's paths do to a single node: who owns what afterwards.
use zoocooker.Base.{
  ◌≡◌, ◌⊎◌, refl, sym, ap, ◌∙◌, true, false, Bool-cases, Option-cases, inl, inr, Text, Option, none,
  some, List, [], ◌∷◌, contains, ◌==◌, nat_eq, text_eq, option_eq, arith, if◌then◌else◌, subst,
}
use zoocooker.Base.Dict.{Dict}
use zoocooker.Base.Dict
use zoocooker.Base.Exec.{ok, err, is_ok, Result-split}
use zoocooker.Protocol.Types.{SessionId, delete, Applied, ZkError}
use zoocooker.Protocol.Paths.Normalize.{IsPath, normalize-eq-ok_iff}
use zoocooker.Storage.Order.{sort_deepest_first, insert_sorted}
use zoocooker.Storage.Node.{ZNode}
use zoocooker.Storage.Store.{
  TreeStore, apply, delete_node, owned_paths, ephemeral_paths_for_session,
}
use zoocooker.Storage.Store.Outcomes.{delete_node-Deletes}
use zoocooker.Storage.Store.Shape.{IsTree}
use zoocooker.Storage.Store.Apply.{apply-IsTree, apply-ne-panic, failure_keeps_store}
use zoocooker.Storage.Store.View.{Entry, view, view-deleted}
use zoocooker.Consensus.Single.{single_node}
use zoocooker.Server.Service.{Service, Texts, notify, is_no_node, delete_paths}

abbrev pub owner_of : Option Entry → Option SessionId
owner_of none = none
owner_of (some e) = e.owner

-- the session that owns the node at a path
abbrev pub owner_at : TreeStore → Text → Option SessionId
owner_at s q = owner_of (view s q)

contains-insert_sorted :
    (p : Text) (ps : List Text) (q : Text) → contains (insert_sorted p ps) q ≡ contains (p ∷ ps) q
unfolding insert_sorted
contains-insert_sorted p [] q = refl
contains-insert_sorted p (o ∷ ps) q = ground (arith, contains-insert_sorted p ps q)

pub contains-sort_deepest_first :
    (ps : List Text) (q : Text) → contains (sort_deepest_first ps) q ≡ contains ps q
unfolding sort_deepest_first
contains-sort_deepest_first [] q = refl
contains-sort_deepest_first (p ∷ ps) q =
    ground
      (arith, contains-insert_sorted p (sort_deepest_first ps) q, contains-sort_deepest_first ps q)

contains-owned_paths :
    (id : SessionId) (nodes : Dict Text ZNode) (q : Text) (n : ZNode)
    → Dict.get q nodes ≡ some n
    → n.ephemeral_owner ≡ some id
    → contains (owned_paths id nodes) q ≡ true
unfolding owned_paths Dict.get
contains-owned_paths id [] q n h k = absurd (ground arith)
contains-owned_paths id ((p, m) ∷ nodes) q n h k = ground (arith, contains-owned_paths id nodes q n)

-- a path that a session owns is among those that a cleanup deletes
pub owned-listed :
    (s : TreeStore) (id : SessionId) (q : Text)
    → IsTree s.nodes
    → owner_at s q ≡ some id
    → (contains (ephemeral_paths_for_session s id) q ≡ true) × IsPath q
unfolding ephemeral_paths_for_session
owned-listed s id q v h = elim (Option-cases (Dict.get q s.nodes)) [
  | inl e ↦ absurd (ground (arith, e, h))
  | inr (n, e) ↦ (
    contains-sort_deepest_first (owned_paths id s.nodes) q
        ∙ contains-owned_paths id s.nodes q n e (ground (arith, e, h)),
    v.paths q n e,
  )
]

-- Every node that is left has the owner that it had.
unfoldable pub Kept : TreeStore → TreeStore → Type 0
Kept s t = (q : Text) → (owner_at t q ≡ none) ⊎ (owner_at t q ≡ owner_at s q)

pub Kept-refl : (s : TreeStore) → Kept s s
unfolding Kept
Kept-refl s q = inr refl

pub Kept-trans : (s t u : TreeStore) → Kept s t → Kept t u → Kept s u
unfolding Kept
Kept-trans s t u h k q = elim (k q) [
  | inl e ↦ inl e
  | inr e ↦ elim (h q) [ inl f ↦ inl (e ∙ f) | inr f ↦ inr (e ∙ f) ]
]

deleted-Kept :
    (s : TreeStore) (p : Text) (a : Applied)
    → (apply (delete p none) s).0 ≡ ok a
    → Kept s (apply (delete p none) s).1
unfolding apply Kept
deleted-Kept s p a h q =
    let k = delete_node-Deletes s p none a h in
    elim (Bool-cases (q == k.key)) [
      | inl e ↦ inl (ap owner_of (view-deleted k q) ∙ ground (arith, e))
      | inr e ↦ inr (ap owner_of (view-deleted k q) ∙ ground (arith, e))
    ]

deleted-gone :
    (s : TreeStore) (p : Text) (a : Applied)
    → (apply (delete p none) s).0 ≡ ok a
    → IsPath p
    → owner_at (apply (delete p none) s).1 p ≡ none
unfolding apply
deleted-gone s p a h is_path =
    let k = delete_node-Deletes s p none a h in
    let same : k.key ≡ p = ground (arith, k.normal, (normalize-eq-ok_iff p p).1 (refl, is_path)) in
    ap owner_of (view-deleted k p) ∙ ground (arith, same)

-- a delete that does not find its node
missing :
    (s : TreeStore) (p : Text) (e : ZkError)
    → (apply (delete p none) s).0 ≡ err e
    → is_no_node e ≡ true
    → IsPath p
    → owner_at s p ≡ none
unfolding apply delete_node
missing s p e h k is_path = elim (Option-cases (Dict.get p s.nodes)) [
  | inl f ↦ ground (arith, f)
  | inr (n, f) ↦ absurd (ground (arith, f, h, k, (normalize-eq-ok_iff p p).1 (refl, is_path)))
]

module _ (texts : Texts) where
  -- the service after one path has been deleted
  abbrev pub after_delete : Text → Applied → Service TreeStore → Service TreeStore
  after_delete p a s =
      notify single_node texts a.watch_events
        (record s { consensus = (apply (delete p none) s.consensus).1 })

  pub delete_paths-ok :
      (p : Text) (ps : List Text) (s : Service TreeStore) (a : Applied)
      → (apply (delete p none) s.consensus).0 ≡ ok a
      → delete_paths single_node texts (p ∷ ps) s
        ≡ delete_paths single_node texts ps (after_delete p a s)
  unfolding delete_paths
  delete_paths-ok p ps s a h = ground (arith, h)

  pub delete_paths-err :
      (p : Text) (ps : List Text) (s : Service TreeStore) (e : ZkError)
      → (apply (delete p none) s.consensus).0 ≡ err e
      → delete_paths single_node texts (p ∷ ps) s
        ≡ (if is_no_node e then delete_paths single_node texts ps s else (false, s))
  unfolding delete_paths
  delete_paths-err p ps s e h =
      let same = failure_keeps_store s.consensus (delete p none) (ap is_ok h) refl in
      ground (arith, h, same)

  after_delete-Kept :
      (p : Text) (s : Service TreeStore) (a : Applied)
      → (apply (delete p none) s.consensus).0 ≡ ok a
      → Kept s.consensus (after_delete p a s).consensus
  unfolding notify
  after_delete-Kept p s a h = deleted-Kept s.consensus p a h

  after_delete-gone :
      (p : Text) (s : Service TreeStore) (a : Applied)
      → (apply (delete p none) s.consensus).0 ≡ ok a
      → IsPath p
      → owner_at (after_delete p a s).consensus p ≡ none
  unfolding notify
  after_delete-gone p s a h is_path = deleted-gone s.consensus p a h is_path

  pub delete_paths-Kept :
      (ps : List Text) (s : Service TreeStore)
      → Kept s.consensus (delete_paths single_node texts ps s).1.consensus
  delete_paths-Kept [] s = unfold delete_paths in Kept-refl s.consensus
  delete_paths-Kept (p ∷ ps) s = elim (Result-split (apply (delete p none) s.consensus).0) [
    | inl (a, h) ↦ rw (delete_paths-ok p ps s a h) (
        Kept-trans s.consensus (after_delete p a s).consensus _ (after_delete-Kept p s a h)
          (delete_paths-Kept ps (after_delete p a s)))
    | inr (inl (e, h)) ↦ elim (Bool-cases (is_no_node e)) [
      | inl k ↦ rw (delete_paths-err p ps s e h, k) (delete_paths-Kept ps s)
      | inr k ↦ rw (delete_paths-err p ps s e h, k) (Kept-refl s.consensus)
    ]
    | inr (inr h) ↦ absurd (apply-ne-panic s.consensus (delete p none) h)
  ]

  -- a node that is gone stays gone
  Kept-gone : (s t : TreeStore) (q : Text) → Kept s t → owner_at s q ≡ none → owner_at t q ≡ none
  unfolding Kept
  Kept-gone s t q k h = elim (k q) [ inl e ↦ e | inr e ↦ e ∙ h ]

  pub delete_paths-gone :
      (ps : List Text) (s : Service TreeStore) (q : Text)
      → (delete_paths single_node texts ps s).0 ≡ true
      → contains ps q ≡ true
      → IsPath q
      → owner_at (delete_paths single_node texts ps s).1.consensus q ≡ none
  delete_paths-gone [] s q h c is_path = absurd (ground (arith, c))
  delete_paths-gone (p ∷ ps) s q h c is_path =
      elim (Result-split (apply (delete p none) s.consensus).0) [
        | inl (a, e) ↦
            let step = delete_paths-ok p ps s a e in
            rw step (elim (text_eq.dec q p) [
              | yes same ↦
                  Kept-gone (after_delete p a s).consensus _ q
                    (delete_paths-Kept ps (after_delete p a s))
                    (rw same (after_delete-gone p s a e (subst IsPath same is_path)))
              | no other ↦
                  delete_paths-gone ps (after_delete p a s) q (sym (ap (λ x. x.0) step) ∙ h)
                    (ground arith) is_path
            ])
        | inr (inl (x, e)) ↦ elim (Bool-cases (is_no_node x)) [
          | inl k ↦
              let step : delete_paths single_node texts (p ∷ ps) s
                  ≡ delete_paths single_node texts ps s =
                rw (delete_paths-err p ps s x e, k) refl in
              rw step (elim (text_eq.dec q p) [
                | yes same ↦
                    Kept-gone s.consensus _ q (delete_paths-Kept ps s)
                      (rw same (missing s.consensus p x e k (subst IsPath same is_path)))
                | no other ↦
                    delete_paths-gone ps s q (sym (ap (λ x. x.0) step) ∙ h) (ground arith) is_path
              ])
          | inr k ↦
              let stop : delete_paths single_node texts (p ∷ ps) s ≡ (false, s) =
                rw (delete_paths-err p ps s x e, k) refl in
              absurd (ground (arith, sym (ap (λ x. x.0) stop) ∙ h))
        ]
        | inr (inr e) ↦ absurd (apply-ne-panic s.consensus (delete p none) e)
      ]

  pub after_delete-IsTree :
      (p : Text) (s : Service TreeStore) (a : Applied)
      → IsTree s.consensus.nodes
      → IsTree (after_delete p a s).consensus.nodes
  unfolding notify
  after_delete-IsTree p s a v = apply-IsTree s.consensus (delete p none) v

  pub delete_paths-IsTree :
      (ps : List Text) (s : Service TreeStore)
      → IsTree s.consensus.nodes
      → IsTree (delete_paths single_node texts ps s).1.consensus.nodes
  delete_paths-IsTree [] s v = unfold delete_paths in v
  delete_paths-IsTree (p ∷ ps) s v = elim (Result-split (apply (delete p none) s.consensus).0) [
    | inl (a, h) ↦
        rw (delete_paths-ok p ps s a h)
          (delete_paths-IsTree ps (after_delete p a s) (after_delete-IsTree p s a v))
    | inr (inl (e, h)) ↦ elim (Bool-cases (is_no_node e)) [
      | inl k ↦ rw (delete_paths-err p ps s e h, k) (delete_paths-IsTree ps s v)
      | inr k ↦ rw (delete_paths-err p ps s e h, k) v
    ]
    | inr (inr h) ↦ absurd (apply-ne-panic s.consensus (delete p none) h)
  ]
