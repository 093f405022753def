-- ===== src/Server/Service/Owners.antt =====
-- The cleanup of expired sessions on a single node: no node of a cleaned session is left.
use zoocooker.Server.Service.Deletions.{
  owner_at, Kept, Kept-refl, Kept-trans, owned-listed, delete_paths-Kept, delete_paths-gone,
  delete_paths-IsTree,
}
use zoocooker.Base.{
  ◌≡◌, ◌≢◌, sym, ap, ◌∙◌, Bool, true, false, Bool-cases, inl, inr, Text, some, List, [], ◌∷◌,
  contains, nat_eq, text_eq, option_eq, arith,
}
use zoocooker.Protocol.Types.{SessionId}
use zoocooker.Storage.Store.{TreeStore, ephemeral_paths_for_session}
use zoocooker.Storage.Store.Shape.{IsTree}
use zoocooker.Consensus.Single.{single_node}
use zoocooker.Server.Session.{Instant, collect_expired_at, remove_session}
use zoocooker.Server.Service.{
  Service, Texts, delete_paths, clean_sessions, cleanup_expired_sessions,
}

module _ (texts : Texts) where
  -- the round of one session
  abbrev pub round : SessionId → Service TreeStore → Bool × Service TreeStore
  round x s = delete_paths single_node texts (ephemeral_paths_for_session s.consensus x) s

  abbrev pub forget : SessionId → Service TreeStore → Service TreeStore
  forget x s = record s { sessions = remove_session x s.sessions }

  pub clean_sessions-done :
      (x : SessionId) (ids : List SessionId) (s : Service TreeStore)
      → (round x s).0 ≡ true
      → clean_sessions single_node texts (x ∷ ids) s ≡ (
        x ∷ (clean_sessions single_node texts ids (forget x (round x s).1)).0,
        (clean_sessions single_node texts ids (forget x (round x s).1)).1,
      )
  unfolding clean_sessions
  clean_sessions-done x ids s h = ground (arith, h)

  pub clean_sessions-kept :
      (x : SessionId) (ids : List SessionId) (s : Service TreeStore)
      → (round x s).0 ≡ false
      → clean_sessions single_node texts (x ∷ ids) s
        ≡ clean_sessions single_node texts ids (round x s).1
  unfolding clean_sessions
  clean_sessions-kept x ids s h = ground (arith, h)

  clean_sessions-Kept :
      (ids : List SessionId) (s : Service TreeStore)
      → Kept s.consensus (clean_sessions single_node texts ids s).1.consensus
  clean_sessions-Kept [] s = unfold clean_sessions in Kept-refl s.consensus
  clean_sessions-Kept (x ∷ ids) s =
      let first = delete_paths-Kept texts (ephemeral_paths_for_session s.consensus x) s in
      elim (Bool-cases (round x s).0) [
        | inl h ↦ rw (clean_sessions-done x ids s h) (
            Kept-trans s.consensus (round x s).1.consensus _ first
              (clean_sessions-Kept ids (forget x (round x s).1)))
        | inr h ↦ rw (clean_sessions-kept x ids s h) (
            Kept-trans s.consensus (round x s).1.consensus _ first
              (clean_sessions-Kept ids (round x s).1))
      ]

  -- a session whose round went through owns nothing any more
  round-disowns :
      (x : SessionId) (s : Service TreeStore) (q : Text)
      → IsTree s.consensus.nodes
      → (round x s).0 ≡ true
      → owner_at (round x s).1.consensus q ≢ some x
  unfolding Kept
  round-disowns x s q v h e =
      elim (delete_paths-Kept texts (ephemeral_paths_for_session s.consensus x) s q) [
        | inl gone ↦ ground (arith, gone, e)
        | inr same ↦
            let (listed, is_path) = owned-listed s.consensus x q v (sym same ∙ e) in
            let gone =
              delete_paths-gone texts (ephemeral_paths_for_session s.consensus x) s q h listed
                is_path in
            ground (arith, gone, e)
      ]

  Kept-disowns :
      (s t : TreeStore) (x : SessionId) (q : Text)
      → Kept s t
      → owner_at s q ≢ some x
      → owner_at t q ≢ some x
  unfolding Kept
  Kept-disowns s t x q k h e = elim (k q) [
    | inl gone ↦ ground (arith, gone, e)
    | inr same ↦ h (sym same ∙ e)
  ]

  pub clean_sessions-disowns :
      (ids : List SessionId) (s : Service TreeStore) (id : SessionId) (q : Text)
      → IsTree s.consensus.nodes
      → contains (clean_sessions single_node texts ids s).0 id ≡ true
      → owner_at (clean_sessions single_node texts ids s).1.consensus q ≢ some id
  clean_sessions-disowns [] s id q v c = unfold clean_sessions in absurd (ground (arith, c))
  clean_sessions-disowns (x ∷ ids) s id q v c =
      let v' = delete_paths-IsTree texts (ephemeral_paths_for_session s.consensus x) s v in
      elim (Bool-cases (round x s).0) [
        | inl h ↦
            let step = clean_sessions-done x ids s h in
            rw step (elim (nat_eq.dec id x) [
              | yes same ↦
                  Kept-disowns (round x s).1.consensus _ id q
                    (clean_sessions-Kept ids (forget x (round x s).1))
                    (rw same (round-disowns x s q v h))
              | no other ↦
                  clean_sessions-disowns ids (forget x (round x s).1) id q v'
                    (ground (arith, ap (λ r. contains r.0 id) step, c))
            ])
        | inr h ↦
            let step = clean_sessions-kept x ids s h in
            rw step (
              clean_sessions-disowns ids (round x s).1 id q v'
                (sym (ap (λ r. contains r.0 id) step) ∙ c))
      ]

  -- On a single node whose nodes form a tree, a session that a cleanup returns owns no node
  -- afterwards.
  pub cleanup_disowns :
      (now : Instant) (s : Service TreeStore) (id : SessionId) (q : Text)
      → IsTree s.consensus.nodes
      → contains (cleanup_expired_sessions single_node texts now s).0 id ≡ true
      → owner_at (cleanup_expired_sessions single_node texts now s).1.consensus q ≢ some id
  unfolding cleanup_expired_sessions
  cleanup_disowns now s id q v c =
      clean_sessions-disowns (collect_expired_at now s.sessions) s id q v c
