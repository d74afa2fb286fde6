-- ===== src/RpcClusterChannel/Events.antt =====
-- src/RpcClusterChannel.cpp: what may happen to a client, and runs of it.
use my_rpc_project.Base.{ℕ, zero, suc, Bool, false, List, [], ◌∷◌, none, some, get_elem?}
use my_rpc_project.Protocol.{Status}
use my_rpc_project.Retry.{RetryOptions}
use my_rpc_project.LocalRegistry.{InstanceInfo}
use my_rpc_project.RpcClusterChannel.{
  Cluster, new_cluster, set_retry_options, add_instance, remove_instance, apply_instances,
}
use my_rpc_project.RpcClusterChannel.Attempts.{
  no_index, attempt_once, call_async, on_answer, on_hedge, Client, Round,
}

-- What may happen to a client; an index says which of what is deferred.
pub data Event (D : Type 0) : Type 0 where
  calls : (idempotent : Bool) (request_key : ℕ) (r : Round D) → Event D
  answers : (k : ℕ) (status : Status) (r : Round D) → Event D
  wakes : (k : ℕ) (r : Round D) → Event D
  hedges : (k : ℕ) (r : Round D) → Event D
  adds : (host : List ℕ) (port : ℕ) → Event D
  removes : (host : List ℕ) (port : ℕ) → Event D
  refreshes : (infos : List InstanceInfo) → Event D
  configures : (options : RetryOptions) → Event D

-- A list without its element at an index.
abbrev pub drop_at {ℓ} : {A : Type ℓ} → ℕ → List A → List A
drop_at k [] = []
drop_at zero (x ∷ xs) = xs
drop_at (suc k) (x ∷ xs) = x ∷ drop_at k xs

abbrev pub set_cluster : Client → Cluster → Client
set_cluster s c = record s { cluster = c }

module _ {D : Type 0} where
  unfoldable pub step : Client → Event D → Client
  step s (calls idempotent request_key r) = call_async r s idempotent request_key
  step s (answers k status r) = elim (get_elem? s.sent k) [
    | none ↦ s
    | some a ↦ on_answer r (record s { sent = drop_at k s.sent }) a status
  ]
  step s (wakes k r) = elim (get_elem? s.sleeping k) [
    | none ↦ s
    | some w ↦
        attempt_once r (record s { sleeping = drop_at k s.sleeping }) w.call w.number no_index false
  ]
  step s (hedges k r) = elim (get_elem? s.hedges k) [
    | none ↦ s
    | some h ↦ on_hedge r (record s { hedges = drop_at k s.hedges }) h
  ]
  step s (adds host port) = set_cluster s (add_instance s.cluster host port)
  step s (removes host port) = set_cluster s (remove_instance s.cluster host port)
  step s (refreshes infos) = set_cluster s (apply_instances s.cluster infos)
  step s (configures options) = set_cluster s (set_retry_options s.cluster options)

  unfoldable pub run : Client → List (Event D) → Client
  run s [] = s
  run s (e ∷ es) = run (step s e) es

abbrev pub new_client : Client
new_client = record {
  cluster = new_cluster;
  calls = [];
  next_call = 0;
  sent = [];
  sleeping = [];
  hedges = [];
  retries = 0;
  requests = [];
}
