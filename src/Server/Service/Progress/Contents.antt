-- ===== src/Server/Service/Progress/Contents.antt =====
-- What a cleanup leaves on a single node, path by path.
use zoocooker.Base.{
  ◌≡◌, refl, sym, ap, ◌∙◌, Bool, true, false, Bool-cases, Option-cases, inl, inr, Text, Option,
  none, some, List, [], ◌∷◌, contains, ◌==◌, nat_eq, text_eq, option_eq, arith, if◌then◌else◌,
}
use zoocooker.Base.Dict
use zoocooker.Base.Exec.{ok}
use zoocooker.Protocol.Types.{SessionId, delete, Applied, no_node}
use zoocooker.Protocol.Paths.Normalize.{IsPath, normalize-eq-ok_iff}
use zoocooker.Storage.Store.{TreeStore, apply, owned_paths, ephemeral_paths_for_session}
use zoocooker.Storage.Store.Outcomes.{delete_node-Deletes}
use zoocooker.Storage.Store.Shape.{IsTree}
use zoocooker.Storage.Store.View.{Entry, view, view-deleted}
use zoocooker.Consensus.Single.{single_node}
use zoocooker.Server.Session.{Instant, collect_expired_at}
use zoocooker.Server.Service.{
  Service, Texts, notify, delete_paths, clean_sessions, cleanup_expired_sessions,
}
use zoocooker.Server.Service.Deletions.{
  owner_of, owner_at, owned-listed, contains-sort_deepest_first, after_delete, delete_paths-ok,
  delete_paths-err, after_delete-IsTree, delete_paths-IsTree,
}
use zoocooker.Server.Service.Owners.{round, forget, clean_sessions-done}
use zoocooker.Server.Service.Progress.Owned.{
  delete-owned, delete-absent, deleted-Pending, listed-Pending, owned_paths-owned, Pending,
}

abbrev pub owned_by : List SessionId → Option SessionId → Bool
owned_by ids none = false
owned_by ids (some id) = contains ids id

-- a node without the ones that the sessions own
abbrev pub reaped : List SessionId → Option Entry → Option Entry
reaped ids e = if owned_by ids (owner_of e) then none else e

-- listed is the same as owned
listed-eq :
    (s : TreeStore) (id : SessionId) (q : Text)
    → IsTree s.nodes
    → contains (ephemeral_paths_for_session s id) q ≡ owned_by (id ∷ []) (owner_at s q)
listed-eq s id q v = elim (Bool-cases (contains (ephemeral_paths_for_session s id) q)) [
  | inl c ↦
      let owned : owner_at s q ≡ some id =
        unfold ephemeral_paths_for_session in
        owned_paths-owned id s.nodes q v.distinct
          (sym (contains-sort_deepest_first (owned_paths id s.nodes) q) ∙ c) in
      c ∙ sym (ap (owned_by (id ∷ [])) owned ∙ ground arith)
  | inr c ↦ elim (Option-cases (owner_at s q)) [
    | inl free ↦ c ∙ sym (ap (owned_by (id ∷ [])) free)
    | inr (x, owned) ↦ elim (nat_eq.dec x id) [
      | yes same ↦ absurd (ground (arith, c, (owned-listed s id q v (owned ∙ ap some same)).0))
      | no other ↦ c ∙ sym (ap (owned_by (id ∷ [])) owned ∙ ground (arith, other))
    ]
  ]
]

module _ (texts : Texts) where
  view-after_delete :
      (p : Text) (s : Service TreeStore) (a : Applied) (q : Text)
      → IsPath p
      → (apply (delete p none) s.consensus).0 ≡ ok a
      → view (after_delete texts p a s).consensus q ≡ (if q == p then none else view s.consensus q)
  unfolding notify apply
  view-after_delete p s a q is_path h =
      let k = delete_node-Deletes s.consensus p none a h in
      let same : k.key ≡ p =
        ground (arith, k.normal, (normalize-eq-ok_iff p p).1 (refl, is_path)) in
      view-deleted k q ∙ ground (arith, same)

  after_delete-Pending :
      (id : SessionId) (p : Text) (s : Service TreeStore) (a : Applied) (q : Text)
      → (apply (delete p none) s.consensus).0 ≡ ok a
      → Pending id s.consensus q
      → Pending id (after_delete texts p a s).consensus q
  unfolding notify
  after_delete-Pending id p s a q h pending = deleted-Pending id s.consensus p a q h pending

  -- Deletes all went through, and took exactly the listed nodes.
  abbrev Took : List Text → TreeStore → Bool × Service TreeStore → Type 0
  Took ps s (done, after) =
      (done ≡ true)
      × ((q : Text) → view after.consensus q ≡ (if contains ps q then none else view s q))

  view-delete_paths :
      (ps : List Text) (s : Service TreeStore) (id : SessionId)
      → IsTree s.consensus.nodes
      → ((p : Text) → contains ps p ≡ true → Pending id s.consensus p × IsPath p)
      → Took ps s.consensus (delete_paths single_node texts ps s)
  view-delete_paths [] s id v h = unfold delete_paths in (refl, λ q. refl)
  view-delete_paths (p ∷ ps) s id v h =
      let (pending, is_path) = h p (ground arith) in
      let rest : (q : Text) → contains ps q ≡ true → Pending id s.consensus q × IsPath q =
        λ q c. h q (ground (arith, c)) in
      elim (Option-cases (Dict.get p s.consensus.nodes)) [
        | inl gone ↦
            let took = view-delete_paths ps s id v rest in
            rw
              (delete_paths-err texts p ps s (no_node p)
                (delete-absent s.consensus p v is_path gone))
              (
                took.0,
                λ q. elim (text_eq.dec q p) [
                  | yes e ↦ took.1 q ∙ ground (arith, e, gone)
                  | no e ↦ took.1 q ∙ ground (arith, e)
                ],
              )
        | inr (n, there) ↦
            let owned : n.ephemeral_owner ≡ some id = elim pending [
              | inl gone ↦ absurd (ground (arith, gone, there))
              | inr e ↦ ground (arith, e, there)
            ] in
            let (a, e) = delete-owned s.consensus p n id v there owned in
            let took =
              view-delete_paths ps (after_delete texts p a s) id (after_delete-IsTree texts p s a v)
                (λ q c. (after_delete-Pending id p s a q e (rest q c).0, (rest q c).1)) in
            rw (delete_paths-ok texts p ps s a e)
              (took.0, λ q. took.1 q ∙ ground (arith, view-after_delete p s a q is_path e))
      ]

  view-round :
      (x : SessionId) (s : Service TreeStore)
      → IsTree s.consensus.nodes
      → ((round texts x s).0 ≡ true)
        × ((q : Text) → view (round texts x s).1.consensus q ≡ reaped (x ∷ []) (view s.consensus q))
  view-round x s v =
      let took =
        view-delete_paths (ephemeral_paths_for_session s.consensus x) s x v
          (λ q c. listed-Pending s.consensus x q v c) in
      (took.0, λ q. took.1 q ∙ ground (arith, listed-eq s.consensus x q v))

  reaped-none : (e : Option Entry) → e ≡ reaped [] e
  reaped-none none = refl
  reaped-none (some e) = elim (Option-cases e.owner) [
    | inl free ↦ ground (arith, free)
    | inr (id, owned) ↦ ground (arith, owned)
  ]

  reaped-reaped :
      (x : SessionId) (ids : List SessionId) (e : Option Entry)
      → reaped ids (reaped (x ∷ []) e) ≡ reaped (x ∷ ids) e
  reaped-reaped x ids none = refl
  reaped-reaped x ids (some e) = elim (Option-cases e.owner) [
    | inl free ↦ ground (arith, free)
    | inr (id, owned) ↦ ground (arith, owned)
  ]

  pub view-clean_sessions :
      (ids : List SessionId) (s : Service TreeStore)
      → IsTree s.consensus.nodes
      → (let (cleaned, after) = clean_sessions single_node texts ids s in
          (cleaned ≡ ids) × ((q : Text) → view after.consensus q ≡ reaped ids (view s.consensus q)))
  view-clean_sessions [] s v =
      unfold clean_sessions in (refl, λ q. reaped-none (view s.consensus q))
  view-clean_sessions (x ∷ ids) s v =
      let (done, took) = view-round x s v in
      let (all, rest) =
        view-clean_sessions ids (forget texts x (round texts x s).1)
          (delete_paths-IsTree texts (ephemeral_paths_for_session s.consensus x) s v) in
      rw (clean_sessions-done texts x ids s done) (
        ap (◌∷◌ x) all,
        λ q. rest q ∙ ap (reaped ids) (took q) ∙ reaped-reaped x ids (view s.consensus q),
      )

  -- On a single node whose nodes form a tree, a cleanup returns every expired session and removes
  -- exactly the nodes that those sessions own: every other path has the node that it had, with the
  -- same contents, or none as before.
  pub cleanup_contents :
      (now : Instant) (s : Service TreeStore)
      → IsTree s.consensus.nodes
      → (let (cleaned, after) = cleanup_expired_sessions single_node texts now s in
          let expired = collect_expired_at now s.sessions in
          (cleaned ≡ expired)
          × ((q : Text) → view after.consensus q ≡ reaped expired (view s.consensus q)))
  unfolding cleanup_expired_sessions
  cleanup_contents now s v = view-clean_sessions (collect_expired_at now s.sessions) s v
