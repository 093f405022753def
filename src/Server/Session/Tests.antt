-- ===== src/Server/Session/Tests.antt =====
-- Two sessions with a TTL of 10: 1 was last heard of at 0, 2 at 5.
use zoocooker.Base.{◌≡◌, refl, true, false, some, [], ◌∷◌, contains, nat_eq, arith}
use zoocooker.Base.Dict
use zoocooker.Server.Session.{SessionManager, heartbeat_at, collect_expired_at, has_session}
use zoocooker.Server.Session.Expiry.{heartbeat_keeps}

abbrev two : SessionManager
two = record { ttl = 10; sessions = (1, 0) ∷ (2, 5) ∷ [] }

two-NodupKeys : Dict.NodupKeys two.sessions
unfolding Dict.get nat_eq
two-NodupKeys = (refl, (refl, tt))

heartbeat_keeps_example :
    let (id, after) = heartbeat_at 9 (some 1) 11 two in
    (has_session after id ≡ true)
    × (contains (collect_expired_at 20 after) id ≡ false)
    × (contains (collect_expired_at 20 after) 2 ≡ contains (collect_expired_at 20 two) 2)
heartbeat_keeps_example =
    heartbeat_keeps 9 (some 1) 11 20 two 2 two-NodupKeys (omega arith)
      (unfold heartbeat_at in ground arith)
