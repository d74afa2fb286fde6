-- ===== src/LocalRegistry/Events.antt =====
-- src/LocalRegistry.cpp: what happens to a registry, and the table of leases that it stands for.
use my_rpc_project.Base.{
  ℕ, ◌+◌, ◌≤◌, Bool, ◌&&◌, List, [], ◌∷◌, Option, none, some, ◌==◌, if◌then◌else◌,
}
use my_rpc_project.Base.Maps.{kept}
use my_rpc_project.LocalRegistry.{
  LocalRegistry, InstanceInfo, Entry, new_entry, register_service, unregister, is_live, renew_lease,
  lookup, watch, sweep_all,
}

-- Who is registered for which service, and until when.
abbrev pub Leases : Type 0
Leases = ℕ → ℕ → Option Entry

-- What an event does to the table. A sweep, a lookup and a watch leave it as it is: a lease runs out
-- by itself.
pub data Event : Type 0 where
  registers : InstanceInfo → (lease_ms now : ℕ) → Event
  unregisters : (service instance_id now : ℕ) → Event
  renews : (service instance_id now : ℕ) → Event
  looks_up : (service now : ℕ) → Event
  watches : (service callback now : ℕ) → Event
  sweeps : (now : ℕ) → Event

abbrev pub time_of : Event → ℕ
time_of (registers info lease_ms now) = now
time_of (unregisters service instance_id now) = now
time_of (renews service instance_id now) = now
time_of (looks_up service now) = now
time_of (watches service callback now) = now
time_of (sweeps now) = now

abbrev pub renewed : ℕ → Option Entry → Option Entry
renewed now none = none
renewed now (some e) = some (record e { lease_deadline = now + e.lease_ms })

-- Whether a place of the table is meant.
abbrev pub is_at : ℕ → ℕ → ℕ → ℕ → Bool
is_at service instance_id s i = (service == s) && (instance_id == i)

unfoldable pub lease_step : Leases → Event → Leases
lease_step l (registers info lease_ms now) s i =
    if is_at info.service info.instance_id s i then some (new_entry info lease_ms now) else l s i
lease_step l (unregisters service instance_id now) s i =
    if is_at service instance_id s i then none else l s i
lease_step l (renews service instance_id now) s i =
    if is_at service instance_id s i then renewed now (kept (is_live now) (l s i)) else l s i
lease_step l (looks_up service now) s i = l s i
lease_step l (watches service callback now) s i = l s i
lease_step l (sweeps now) s i = l s i

unfoldable pub step : LocalRegistry → Event → LocalRegistry
step r (registers info lease_ms now) = register_service r info lease_ms now
step r (unregisters service instance_id now) = unregister r service instance_id
step r (renews service instance_id now) = renew_lease r service instance_id now
step r (looks_up service now) = (lookup r service now).1
step r (watches service callback now) = watch r service callback
step r (sweeps now) = sweep_all r now

-- The registry, and the table, after some events.
unfoldable pub run : LocalRegistry → List Event → LocalRegistry
unfolding step
run r [] = r
run r (e ∷ es) = run (step r e) es

unfoldable pub leases : Leases → List Event → Leases
unfolding lease_step
leases l [] = l
leases l (e ∷ es) = leases (lease_step l e) es

-- The times of the events do not go back, from `t` on, and the last of them is not after `u`.
unfoldable pub IsOrdered : ℕ → List Event → ℕ → Type 0
IsOrdered t [] u = t ≤ u
IsOrdered t (e ∷ es) u = (t ≤ time_of e) × IsOrdered (time_of e) es u
