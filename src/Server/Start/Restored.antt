-- ===== src/Server/Start/Restored.antt =====
-- The sessions that a restarted server knows: every owner of an ephemeral node that it restored.
use zoocooker.Base.{
  ◌≡◌, refl, ap, ◌∙◌, true, false, Bool-cases, Option-cases, inl, inr, Text, Option, some, List, [],
  ◌∷◌, contains, nat_eq, text_eq, option_eq, arith, if◌then◌else◌,
}
use zoocooker.Base.Dict.{Dict, values, get-insert}
use zoocooker.Base.Dict
use zoocooker.Base.Exec.{ok, Result-split}
use zoocooker.Protocol.Types.{Bytes, SessionId}
use zoocooker.Storage.Node.{ZNode}
use zoocooker.Storage.Store.{TreeStore, distinct_owners, ephemeral_session_ids}
use zoocooker.Storage.Persistence.{PersistenceError, Codec}
use zoocooker.Consensus.Persistent.{PersistentNode}
use zoocooker.Server.Session.{
  Instant, SessionManager, has_session, heartbeat_at, seed_sessions, collect_expired_at,
}
use zoocooker.Server.Session.Expiry.{overdue, contains-collect_expired_at}
use zoocooker.Server.Metrics.{ServerConfig}
use zoocooker.Server.Service.{Service, seed_restored_sessions, with_config}
use zoocooker.Server.Service.Deletions.{owner_at}
use zoocooker.Server.Start.{open_persistent, persistent_service}

contains-distinct_owners :
    (seen : List SessionId) (nodes : Dict Text ZNode) (q : Text) (n : ZNode) (id : SessionId)
    → Dict.get q nodes ≡ some n
    → n.ephemeral_owner ≡ some id
    → contains seen id ≡ false
    → contains (distinct_owners seen (values nodes)) id ≡ true
unfolding distinct_owners Dict.get
contains-distinct_owners seen [] q n id h e f = absurd (ground (arith, h))
contains-distinct_owners seen ((p, m) ∷ nodes) q n id h e f =
    elim (Option-cases m.ephemeral_owner) [
      | inl lasting ↦ ground (arith, lasting, contains-distinct_owners seen nodes q n id)
      | inr (j, owned) ↦ elim (Bool-cases (contains seen j)) [
        | inl old ↦ ground (arith, owned, old, contains-distinct_owners seen nodes q n id)
        | inr new ↦ elim (nat_eq.dec id j) [
          | yes same ↦ ground (arith, owned, new, same)
          | no other ↦
              ground (arith, owned, new, other, contains-distinct_owners (j ∷ seen) nodes q n id)
        ]
      ]
    ]

get-seed_sessions :
    (ids : List SessionId) (now : Instant) (m : SessionManager) (id : SessionId)
    → Dict.get id (seed_sessions ids now m).sessions
      ≡ (if contains ids id then some now else Dict.get id m.sessions)
unfolding seed_sessions heartbeat_at
get-seed_sessions [] now m id = refl
get-seed_sessions (j ∷ ids) now m id = ground (
  arith,
  get-seed_sessions ids now (record m { sessions = Dict.insert j now m.sessions }) id,
  get-insert id j now m.sessions,
)

pub seed_sessions-NodupKeys :
    (ids : List SessionId) (now : Instant) (m : SessionManager)
    → Dict.NodupKeys m.sessions
    → Dict.NodupKeys (seed_sessions ids now m).sessions
unfolding seed_sessions heartbeat_at
seed_sessions-NodupKeys [] now m u = u
seed_sessions-NodupKeys (j ∷ ids) now m u =
    seed_sessions-NodupKeys ids now (record m { sessions = Dict.insert j now m.sessions })
      (Dict.insert-NodupKeys j now m.sessions u)

ttl-seed_sessions :
    (ids : List SessionId) (now : Instant) (m : SessionManager)
    → (seed_sessions ids now m).ttl ≡ m.ttl
unfolding seed_sessions heartbeat_at
ttl-seed_sessions [] now m = refl
ttl-seed_sessions (j ∷ ids) now m =
    ttl-seed_sessions ids now (record m { sessions = Dict.insert j now m.sessions })

owner-listed :
    (s : TreeStore) (q : Text) (id : SessionId)
    → owner_at s q ≡ some id
    → contains (ephemeral_session_ids s) id ≡ true
unfolding ephemeral_session_ids
owner-listed s q id h = elim (Option-cases (Dict.get q s.nodes)) [
  | inl e ↦ absurd (ground (arith, e, h))
  | inr (n, e) ↦ contains-distinct_owners [] s.nodes q n id e (ground (arith, e, h)) refl
]

-- A server that starts from its files knows the session of every ephemeral node that it restored,
-- as if it had been heard of at the start: the session is collected at exactly those instants that
-- are later than the start and a TTL.
pub restored_sessions_expire :
    (codec : Codec) (describe : PersistenceError → Text) (wal : Option Bytes)
    (snapshot : Option (Option Bytes)) (config : ServerConfig) (now later : Instant)
    (s : Service PersistentNode) (q : Text) (id : SessionId)
    → persistent_service codec describe wal snapshot config now ≡ ok s
    → owner_at s.consensus.store q ≡ some id
    → (has_session s.sessions id ≡ true)
      × (contains (collect_expired_at later s.sessions) id
          ≡ overdue config.session_ttl later (some now))
unfolding persistent_service seed_restored_sessions has_session Dict.contains_key
restored_sessions_expire codec describe wal snapshot config now later s q id h owned =
    elim (Result-split (open_persistent codec describe wal snapshot)) [
      | inl (node, e) ↦
          let started : seed_restored_sessions (ephemeral_session_ids node.store) now
                (with_config node config)
              ≡ s =
            ground (arith, e, h) in
          let listed =
            owner-listed node.store q id (ap (λ x. owner_at x.consensus.store q) started ∙ owned) in
          let m : SessionManager = record { ttl = config.session_ttl; sessions = [] } in
          let known = get-seed_sessions (ephemeral_session_ids node.store) now m id in
          let distinct = seed_sessions-NodupKeys (ephemeral_session_ids node.store) now m tt in
          rw (← started) (
            ground (arith, known, listed),
            contains-collect_expired_at later
                  (seed_sessions (ephemeral_session_ids node.store) now m) id distinct
                ∙ ground (
                  arith,
                  known,
                  listed,
                  ttl-seed_sessions (ephemeral_session_ids node.store) now m,
                ),
          )
      | inr (inl (x, e)) ↦ absurd (ground (arith, e, h))
      | inr (inr e) ↦ absurd (ground (arith, e, h))
    ]
