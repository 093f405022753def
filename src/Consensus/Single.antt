-- ===== src/Consensus/Single.antt =====
-- `SingleNodeConsensus`: the store behind a lock.
use zoocooker.Base.{some, codes}
use zoocooker.Storage.Store.{TreeStore, apply, get_data, exists, ephemeral_paths_for_session}
use zoocooker.Consensus.Interface.{Consensus, Leadership, leader}

abbrev pub leadership : Leadership
leadership = record {
  node_id = codes "single-node";
  leader_id = some (codes "single-node");
  term = 1;
  role = leader;
}

abbrev pub single_node : Consensus TreeStore
single_node = record {
  submit = apply;
  get_data = get_data;
  exists = exists;
  leadership = λ _. leadership;
  ephemeral_paths_for_session = ephemeral_paths_for_session;
}
