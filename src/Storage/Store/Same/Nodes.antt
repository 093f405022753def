-- ===== src/Storage/Store/Same/Nodes.antt =====
-- The parts of create, set and delete on two stores that hold the same entries.
use zoocooker.Base.{
  ℕ, ◌≡◌, Bool, Text, Option, none, some, Option-cases, inl, inr, ◌==◌, arith, refl, sym, ap, ◌∙◌,
  text_eq, if◌then◌else◌,
}
use zoocooker.Base.Dict.{get-insert, get-remove}
use zoocooker.Base.Dict
use zoocooker.Base.Exec.{is_ok, Result-cases}
use zoocooker.Protocol.Types.{Bytes, SessionId, Int32, incr64, Applied}
use zoocooker.Protocol.Paths.{normalize, parent_of}
use zoocooker.Storage.Order.{set_remove}
use zoocooker.Storage.Node.{ZNode}
use zoocooker.Storage.Store.{TreeStore, create_node, set_node, delete_node, touched, drop_child}
use zoocooker.Storage.Store.Outcomes.{
  Creates, Deletes, create_node-Creates, create_node_fails, set_node-Sets, set_node_fails,
  delete_node-Deletes, delete_node_fails,
}
use zoocooker.Storage.Store.Same.Alike.{SameStore, SameRun}

create_node-reply :
    (s t : TreeStore) (path : Text) (bytes : Bytes) (ephemeral : Bool)
    (session_id : Option SessionId)
    → SameStore s t
    → (create_node path bytes ephemeral session_id s).0
      ≡ (create_node path bytes ephemeral session_id t).0
unfolding create_node Dict.contains_key
create_node-reply s t path bytes ephemeral session_id h = elim (Option-cases (parent_of path)) [
  | inl e ↦ ground (arith, h.nodes path)
  | inr (pp, e) ↦ ground (arith, h.nodes path, h.nodes pp)
]

created-SameStore :
    {s t s' t' : TreeStore} {path : Text} {bytes : Bytes} {ephemeral : Bool}
    {session_id : Option SessionId} {a b : Applied}
    → SameStore s t
    → Creates s path bytes ephemeral session_id a s'
    → Creates t path bytes ephemeral session_id b t'
    → SameStore s' t'
created-SameStore {s} {t} {path = path} h k l = record {
  nodes = λ q.
      rw (k.nodes, l.nodes, get-insert, get-insert, get-insert, get-insert)
        (ground (
          arith,
          h.nodes q,
          h.nodes k.parent_path,
          h.zxid,
          k.is_parent,
          l.is_parent,
          k.is_leaf,
          l.is_leaf,
          k.found,
          l.found,
          k.owned,
          l.owned,
        ));
  zxid = k.zxid ∙ ap incr64 h.zxid ∙ sym l.zxid;
  counters = λ q. rw (k.counters, l.counters) (h.counters q);
}

pub create_node-SameRun :
    (s t : TreeStore) (path : Text) (bytes : Bytes) (ephemeral : Bool)
    (session_id : Option SessionId)
    → SameStore s t
    → SameRun
        (create_node path bytes ephemeral session_id s)
        (create_node path bytes ephemeral session_id t)
create_node-SameRun s t path bytes ephemeral session_id h =
    let e = create_node-reply s t path bytes ephemeral session_id h in
    record {
      reply = e;
      after = elim (Result-cases (create_node path bytes ephemeral session_id s).0) [
        | inl (a, good) ↦
            created-SameStore h (create_node-Creates s path bytes ephemeral session_id a good)
              (create_node-Creates t path bytes ephemeral session_id a (sym e ∙ good))
        | inr bad ↦
            rw
              (
                create_node_fails s path bytes ephemeral session_id bad,
                create_node_fails t path bytes ephemeral session_id (ap is_ok (sym e) ∙ bad),
              )
              h
      ];
    }

pub set_node-SameRun :
    (s t : TreeStore) (path : Text) (bytes : Bytes) (expected : Option Int32)
    → SameStore s t
    → SameRun (set_node path bytes expected s) (set_node path bytes expected t)
set_node-SameRun s t path bytes expected h = record {
  reply = e;
  after = elim (Result-cases (set_node path bytes expected s).0) [
    | inl (a, good) ↦
        let k = set_node-Sets s path bytes expected a good in
        let l = set_node-Sets t path bytes expected a (sym e ∙ good) in
        record {
          nodes = λ q.
              rw (k.nodes, l.nodes, get-insert, get-insert)
                (ground
                  (arith, h.nodes q, h.nodes k.key, h.zxid, k.normal, l.normal, k.found, l.found));
          zxid = k.zxid ∙ ap incr64 h.zxid ∙ sym l.zxid;
          counters = λ q. rw (k.counters, l.counters) (h.counters q);
        }
    | inr bad ↦
        rw
          (
            set_node_fails s path bytes expected bad,
            set_node_fails t path bytes expected (ap is_ok (sym e) ∙ bad),
          )
          h
  ];
}
  where
    e : (set_node path bytes expected s).0 ≡ (set_node path bytes expected t).0
    e = elim (Result-cases (normalize path)) [
      | inl (key, n) ↦ unfold set_node in ground (arith, h.nodes key)
      | inr bad ↦ unfold set_node in ground arith
    ]

-- the nodes after a delete
get-drop_child :
    (pp c : Text) (z : ℕ) (s : TreeStore) (q : Text) (above : Option ZNode)
    → Dict.get pp s.nodes ≡ above
    → Dict.get q (drop_child pp c z s).nodes ≡ (
        if q == pp
        then elim above [ none ↦ none | some n ↦ some (touched n (set_remove c n.children) z) ]
        else Dict.get q s.nodes)
get-drop_child pp c z s q none e = ground arith
get-drop_child pp c z s q (some n) e =
    ground (arith, get-insert q pp (touched n (set_remove c n.children) z) s.nodes)

deleted-SameStore :
    {s t s' t' : TreeStore} {path : Text} {expected : Option Int32} {a b : Applied}
    → SameStore s t
    → Deletes s path expected a s'
    → Deletes t path expected b t'
    → SameStore s' t'
deleted-SameStore {s} {t} {path = path} h k l = record {
  nodes = λ q. ground (
    arith,
    k.nodes,
    l.nodes,
    get-drop_child k.parent_path k.child_name (incr64 s.zxid)
        (record s { nodes = Dict.remove k.key s.nodes }) q _ refl,
    get-drop_child l.parent_path l.child_name (incr64 t.zxid)
        (record t { nodes = Dict.remove l.key t.nodes }) q _ refl,
    get-remove q k.key s.nodes,
    get-remove q l.key t.nodes,
    get-remove k.parent_path k.key s.nodes,
    get-remove l.parent_path l.key t.nodes,
    h.nodes q,
    h.nodes k.parent_path,
    h.zxid,
    k.normal,
    l.normal,
    k.is_parent,
    l.is_parent,
    k.is_leaf,
    l.is_leaf,
  );
  zxid = k.zxid ∙ ap incr64 h.zxid ∙ sym l.zxid;
  counters = λ q. rw (k.counters, l.counters) (h.counters q);
}

pub delete_node-SameRun :
    (s t : TreeStore) (path : Text) (expected : Option Int32)
    → SameStore s t
    → SameRun (delete_node path expected s) (delete_node path expected t)
delete_node-SameRun s t path expected h = record {
  reply = e;
  after = elim (Result-cases (delete_node path expected s).0) [
    | inl (a, good) ↦
        deleted-SameStore h (delete_node-Deletes s path expected a good)
          (delete_node-Deletes t path expected a (sym e ∙ good))
    | inr bad ↦
        rw
          (
            delete_node_fails s path expected bad,
            delete_node_fails t path expected (ap is_ok (sym e) ∙ bad),
          )
          h
  ];
}
  where
    e : (delete_node path expected s).0 ≡ (delete_node path expected t).0
    e = elim (Result-cases (normalize path)) [
      | inl (key, n) ↦ unfold delete_node in ground (arith, h.nodes key)
      | inr bad ↦ unfold delete_node in ground arith
    ]
