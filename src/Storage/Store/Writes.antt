-- ===== src/Storage/Store/Writes.antt =====
-- `create` as a whole, and `apply`: what succeeds, what fails, and that nothing panics.
use mathlib.Core.Logic.{if_pos, if_neg}
use zoocooker.Base.{◌≡◌, ◌≢◌, inl, inr, Bool, true, false, Text, Option, ◌++◌, refl, text_eq}
use zoocooker.Base.Dict
use zoocooker.Base.Exec.{Result, ok, err, Result-split}
use zoocooker.Protocol.Types.{Bytes, SessionId, incr64, Applied, ZkError}
use zoocooker.Protocol.Paths.{root, normalize}
use zoocooker.Protocol.Paths.Normalize.{IsPath, normalize-ok, normalize-ne-panic}
use zoocooker.Protocol.Paths.Family.{IsChild, IsPath-cases, append-IsChild}
use zoocooker.Storage.Order.{padded}
use zoocooker.Storage.Order.Decimal.{padded-NoSlash}
use zoocooker.Storage.Store.{TreeStore, counter, choose_path, create_node, create_path}
use zoocooker.Storage.Store.Outcomes.{Creates, create_node-Creates}

-- the path that `create` settles on for a requested one
abbrev pub chosen_path : Bool → Text → TreeStore → Text
chosen_path true requested s =
    requested ++ padded (counter (Dict.get requested s.sequence_counters))
chosen_path false requested s = requested

-- the store after the counter has moved
abbrev pub counted : Bool → Text → TreeStore → TreeStore
counted true requested s = record s {
  sequence_counters =
      Dict.insert requested (incr64 (counter (Dict.get requested s.sequence_counters)))
        s.sequence_counters;
}
counted false requested s = s

pub record CreatesAt (s : TreeStore) (path : Text) (bytes : Bytes) (ephemeral sequential : Bool)
    (session_id : Option SessionId) (a : Applied) (t : TreeStore) : Type 0 where
  pub requested : Text
  pub normal : normalize path ≡ ok requested
  pub not_root : requested ≢ root
  pub creates :
      Creates
        (counted sequential requested s)
        (chosen_path sequential requested s)
        bytes
        ephemeral
        session_id
        a
        t

pub create_path-steps :
    (s : TreeStore) (path requested : Text) (bytes : Bytes) (ephemeral sequential : Bool)
    (session_id : Option SessionId)
    → normalize path ≡ ok requested
    → requested ≢ root
    → create_path path bytes ephemeral sequential session_id s
      ≡ create_node
          (chosen_path sequential requested s)
          bytes
          ephemeral
          session_id
          (counted sequential requested s)
unfolding create_path choose_path
create_path-steps s path requested bytes ephemeral true session_id h k = rw (h, if_neg _ k) refl
create_path-steps s path requested bytes ephemeral false session_id h k = rw (h, if_neg _ k) refl

-- `create` stops before its counter moves, or goes on from there.
module _ {ℓ} (P : Result ZkError Applied × TreeStore → Type ℓ) where
  pub create_path-cases :
      (s : TreeStore) (path : Text) (bytes : Bytes) (ephemeral sequential : Bool)
      (session_id : Option SessionId)
      → ((e : ZkError) → P (err e, s))
      → ((requested : Text)
          → normalize path ≡ ok requested
          → requested ≢ root
          → P (
              create_node
                (chosen_path sequential requested s)
                bytes
                ephemeral
                session_id
                (counted sequential requested s)))
      → P (create_path path bytes ephemeral sequential session_id s)
  create_path-cases s path bytes ephemeral sequential session_id bad good =
      elim (Result-split (normalize path)) [
        | inl (requested, h) ↦ elim (text_eq.dec requested root) [
          | yes e ↦ unfold create_path in rw (h, if_pos _ e) (bad _)
          | no ne ↦
              rw (create_path-steps s path requested bytes ephemeral sequential session_id h ne)
                (good requested h ne)
        ]
        | inr (inl (e, h)) ↦ unfold create_path in rw h (bad e)
        | inr (inr h) ↦ absurd (normalize-ne-panic path h)
      ]

pub create_path-CreatesAt :
    (s : TreeStore) (path : Text) (bytes : Bytes) (ephemeral sequential : Bool)
    (session_id : Option SessionId) (a : Applied)
    → (create_path path bytes ephemeral sequential session_id s).0 ≡ ok a
    → CreatesAt s path bytes ephemeral sequential session_id a
        (create_path path bytes ephemeral sequential session_id s).1
create_path-CreatesAt s path bytes ephemeral sequential session_id a =
    create_path-cases
      (λ r. r.0 ≡ ok a → CreatesAt s path bytes ephemeral sequential session_id a r.1) s path bytes
      ephemeral sequential session_id (λ e h. absurd (cc))
      (λ requested normal not_root h. record {
        requested = requested;
        normal = normal;
        not_root = not_root;
        creates = create_node-Creates _ _ bytes ephemeral session_id a h;
      })

-- the path that `create` settles on is a path below the root
pub chosen_path-IsChild :
    (s : TreeStore) (path requested : Text) (sequential : Bool)
    → normalize path ≡ ok requested
    → requested ≢ root
    → IsChild (chosen_path sequential requested s)
chosen_path-IsChild s path requested sequential h ne = go sequential
  where
    valid : IsPath requested
    valid = rw (normalize-ok path requested h).0 (normalize-ok path requested h).1

    go : (b : Bool) → IsChild (chosen_path b requested s)
    go true = append-IsChild requested _ valid ne (padded-NoSlash _)
    go false = elim (IsPath-cases requested valid) [ inl e ↦ absurd (ne e) | inr c ↦ c ]

pub nodes-counted : (b : Bool) (p : Text) (s : TreeStore) → (counted b p s).nodes ≡ s.nodes
nodes-counted true p s = refl
nodes-counted false p s = refl

pub zxid-counted : (b : Bool) (p : Text) (s : TreeStore) → (counted b p s).zxid ≡ s.zxid
zxid-counted true p s = refl
zxid-counted false p s = refl
