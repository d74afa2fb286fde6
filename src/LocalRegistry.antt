-- ===== src/LocalRegistry.antt =====
-- include/Registry.h, include/LocalRegistry.h and src/LocalRegistry.cpp: leases and one-shot watches.
-- A service name is a number, ordered as the names are; a callback is a number that stands for it, and
-- `notified` records the callbacks that have run. Times are in milliseconds.
pub mod Instances
pub mod Events
pub mod Tracks
pub mod Leases
mod Tests
use my_rpc_project.Base.{
  ℕ, suc, ◌+◌, Bool, true, false, not, List, [], ◌∷◌, ◌++◌, map, Option, none, some, length, ltb,
  if◌then◌else◌,
}
use my_rpc_project.Base.Maps.{Map, find, insert, erase, keep_if, all_kept}

pub record InstanceInfo : Type 0 where
  pub service : ℕ
  pub host : List ℕ
  pub port : ℕ
  pub instance_id : ℕ

pub record Entry : Type 0 where
  pub info : InstanceInfo
  pub lease_deadline : ℕ
  pub lease_ms : ℕ

pub record ServiceState : Type 0 where
  pub instances : Map Entry
  pub watchers : List ℕ
  pub version : ℕ

pub record LocalRegistry : Type 0 where
  pub services : Map ServiceState
  pub notified : List ℕ

-- `services_[service]`.
unfoldable pub state_of : LocalRegistry → ℕ → ServiceState
state_of r service = elim (find service r.services) [
  | none ↦ record { instances = []; watchers = []; version = 0 }
  | some state ↦ state
]

-- A service's new state, and the callbacks that run once the lock is released.
unfoldable pub put_state : LocalRegistry → ℕ → ServiceState → List ℕ → LocalRegistry
put_state r service state callbacks = record {
  services = insert service state r.services;
  notified = r.notified ++ callbacks;
}

-- The entry of a new lease; 0 stands for ten seconds.
unfoldable pub new_entry : InstanceInfo → ℕ → ℕ → Entry
new_entry info lease_ms now =
    let ms = if ltb 0 lease_ms then lease_ms else 10000 in
    record { info = info; lease_deadline = now + ms; lease_ms = ms }

unfoldable pub register_service : LocalRegistry → InstanceInfo → ℕ → ℕ → LocalRegistry
register_service r info lease_ms now =
    let state = state_of r info.service in
    put_state r info.service
      (record {
        instances = insert info.instance_id (new_entry info lease_ms now) state.instances;
        watchers = [];
        version = suc state.version;
      })
      state.watchers

unfoldable pub unregister : LocalRegistry → ℕ → ℕ → LocalRegistry
unregister r service instance_id = elim (find service r.services) [
  | none ↦ r
  | some state ↦
      put_state r service
        (record {
          instances = erase instance_id state.instances;
          watchers = [];
          version = suc state.version;
        })
        state.watchers
]

-- The lease of an entry has not run out.
abbrev pub is_live : ℕ → Entry → Bool
is_live now e = ltb now e.lease_deadline

-- The callbacks to run, and the state.
unfoldable pub sweep_expired : ServiceState → ℕ → List ℕ × ServiceState
sweep_expired state now =
    let instances = keep_if (is_live now) state.instances in
    if all_kept (is_live now) state.instances
    then ([], record state { instances = instances })
    else (
      state.watchers,
      record { instances = instances; watchers = []; version = suc state.version },
    )

-- The lease of an instance that is there starts anew.
unfoldable pub renew : Map Entry → ℕ → ℕ → Map Entry
renew instances instance_id now = elim (find instance_id instances) [
  | none ↦ instances
  | some e ↦ insert instance_id (record e { lease_deadline = now + e.lease_ms }) instances
]

unfoldable pub renew_lease : LocalRegistry → ℕ → ℕ → ℕ → LocalRegistry
unfolding renew
renew_lease r service instance_id now = elim (find service r.services) [
  | none ↦ r
  | some state ↦
      let (callbacks, swept) = sweep_expired state now in
      put_state r service (record swept { instances = renew swept.instances instance_id now })
        callbacks
]

unfoldable pub infos : Map Entry → List InstanceInfo
infos [] = []
infos ((k, e) ∷ m) = e.info ∷ infos m

unfoldable pub lookup : LocalRegistry → ℕ → ℕ → List InstanceInfo × LocalRegistry
unfolding infos
lookup r service now = elim (find service r.services) [
  | none ↦ ([], r)
  | some state ↦
      let (callbacks, swept) = sweep_expired state now in
      (infos swept.instances, put_state r service swept callbacks)
]

unfoldable pub watch : LocalRegistry → ℕ → ℕ → LocalRegistry
watch r service callback =
    let state = state_of r service in
    put_state r service (record state { watchers = state.watchers ++ (callback ∷ []) }) []

unfoldable pub instance_count : LocalRegistry → ℕ → ℕ
instance_count r service = elim (find service r.services) [
  | none ↦ 0
  | some state ↦ length state.instances
]

-- One round of `sweeperLoop`, over the services in order.
unfoldable pub sweep_services : Map ServiceState → ℕ → List ℕ × Map ServiceState
sweep_services [] now = ([], [])
sweep_services ((service, state) ∷ m) now =
    let (callbacks, swept) = sweep_expired state now in
    let (more, rest) = sweep_services m now in (callbacks ++ more, (service, swept) ∷ rest)

unfoldable pub sweep_all : LocalRegistry → ℕ → LocalRegistry
unfolding sweep_services
sweep_all r now =
    let (callbacks, swept) = sweep_services r.services now in
    record { services = swept; notified = r.notified ++ callbacks }
