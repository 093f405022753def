-- ===== src/Storage/Store/Same.antt =====
-- Two stores that hold the same entries, whatever the iteration order of their maps: no write tells
-- them apart.
mod Alike
mod Nodes
pub use Alike.{SameStore, SameStore-refl, SameStore-sym, SameStore-trans, SameRun}
use zoocooker.Storage.Store.Same.Nodes.{create_node-SameRun, set_node-SameRun, delete_node-SameRun}
use mathlib.Core.Logic.{if_pos}
use zoocooker.Base.{
  ℕ, ◌≡◌, ◌≢◌, Bool, true, false, Text, Option, none, some, Option-cases, inl, inr, ◌==◌, arith,
  refl, sym, ap, ◌∙◌, text_eq, if◌then◌else◌,
}
use zoocooker.Base.Dict.{get-insert, get-remove}
use zoocooker.Base.Dict
use zoocooker.Base.Exec.{Result, is_ok, Result-cases, Result-split}
use zoocooker.Protocol.Types.{
  Bytes, SessionId, Int32, incr64, Command, create, set_data, delete, Applied, ZkError,
}
use zoocooker.Protocol.Paths.{root, normalize, parent_of}
use zoocooker.Protocol.Paths.Normalize.{normalize-ne-panic}
use zoocooker.Storage.Order.{set_remove}
use zoocooker.Storage.Node.{ZNode}
use zoocooker.Storage.Store.{
  TreeStore, counter, apply, create_node, create_path, set_node, delete_node, touched, drop_child,
}
use zoocooker.Storage.Store.Outcomes.{
  Creates, Deletes, create_node-Creates, create_node_fails, set_node-Sets, set_node_fails,
  delete_node-Deletes, delete_node_fails,
}
use zoocooker.Storage.Store.Writes.{chosen_path, counted, create_path-steps}

counted-SameStore :
    (b : Bool) (requested : Text) (s t : TreeStore)
    → SameStore s t
    → SameStore (counted b requested s) (counted b requested t)
counted-SameStore true requested s t h = record {
  nodes = h.nodes;
  zxid = h.zxid;
  counters = λ q. rw (get-insert, get-insert) (ground (arith, h.counters q, h.counters requested));
}
counted-SameStore false requested s t h = h

chosen_path_same :
    (b : Bool) (requested : Text) (s t : TreeStore)
    → SameStore s t
    → chosen_path b requested s ≡ chosen_path b requested t
chosen_path_same true requested s t h = rw (h.counters requested)
chosen_path_same false requested s t h = refl

create_path-SameRun :
    (s t : TreeStore) (path : Text) (bytes : Bytes) (ephemeral sequential : Bool)
    (session_id : Option SessionId)
    → SameStore s t
    → SameRun
        (create_path path bytes ephemeral sequential session_id s)
        (create_path path bytes ephemeral sequential session_id t)
create_path-SameRun s t path bytes ephemeral sequential session_id h =
    elim (Result-split (normalize path)) [
      | inl (requested, n) ↦ elim (text_eq.dec requested root) [
        | yes e ↦ unfold create_path in rw (n, if_pos _ e) (record { reply = refl; after = h })
        | no ne ↦
            rw
              (
                create_path-steps s path requested bytes ephemeral sequential session_id n ne,
                create_path-steps t path requested bytes ephemeral sequential session_id n ne,
                chosen_path_same sequential requested s t h,
              )
              (create_node-SameRun _ _ _ bytes ephemeral session_id
                (counted-SameStore sequential requested s t h))
      ]
      | inr (inl (e, n)) ↦ unfold create_path in rw n (record { reply = refl; after = h })
      | inr (inr n) ↦ absurd (normalize-ne-panic path n)
    ]

-- A command gives the same reply on two stores with the same entries, and leaves them with the same
-- entries: the iteration order of the maps cannot be told from outside.
pub apply-SameRun :
    (s t : TreeStore) (c : Command) → SameStore s t → SameRun (apply c s) (apply c t)
unfolding apply
apply-SameRun s t (create path bytes ephemeral sequential session_id) h =
    create_path-SameRun s t path bytes ephemeral sequential session_id h
apply-SameRun s t (set_data path bytes expected) h = set_node-SameRun s t path bytes expected h
apply-SameRun s t (delete path expected) h = delete_node-SameRun s t path expected h

-- the counter of a path never stays as it was
counted-differs :
    (requested : Text) (s : TreeStore)
    → Dict.get requested (counted true requested s).sequence_counters
      ≢ Dict.get requested s.sequence_counters
counted-differs requested s e = ground (
  arith,
  get-insert requested requested (incr64 (counter (Dict.get requested s.sequence_counters)))
      s.sequence_counters,
)

-- A store whose counter has moved is no longer the same as one whose counter has not.
pub counted-not-SameStore :
    (requested : Text) (s t : TreeStore) → SameStore t s → ¬ SameStore t (counted true requested s)
counted-not-SameStore requested s t h k =
    counted-differs requested s (sym (k.counters requested) ∙ h.counters requested)
