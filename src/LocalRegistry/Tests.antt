-- ===== src/LocalRegistry/Tests.antt =====
-- A run of the registry of src/LocalRegistry.cpp.
use my_rpc_project.Base.{◌≡◌, refl, List, [], ◌∷◌, arith}
use my_rpc_project.Base.Maps.{find, kept, insert, keep_if, all_kept}
use my_rpc_project.LocalRegistry.{
  InstanceInfo, lookup, infos, is_live, register_service, state_of, put_state, new_entry, watch,
  renew_lease, sweep_all, sweep_expired,
}
use my_rpc_project.LocalRegistry.Instances.{instances_of}
use my_rpc_project.LocalRegistry.Events.{
  Event, registers, renews, watches, sweeps, run, leases, IsOrdered,
}
use my_rpc_project.LocalRegistry.Leases.{nobody, no_leases, lookup-leases}

abbrev first : InstanceInfo
first = record { service = 4; host = 49 ∷ []; port = 80; instance_id = 1 }

abbrev second : InstanceInfo
second = record { service = 4; host = 50 ∷ []; port = 80; instance_id = 2 }

-- The second instance renews its lease and the first does not.
abbrev events : List Event
events =
    registers second 100 0
    ∷ watches 4 7 10
    ∷ registers first 100 20
    ∷ watches 4 8 30
    ∷ renews 4 2 90
    ∷ sweeps 150
    ∷ []

events-IsOrdered : IsOrdered 0 events 160
unfolding IsOrdered
events-IsOrdered = (
  omega arith,
  (omega arith, (omega arith, (omega arith, (omega arith, (omega arith, omega arith))))),
)

run-events-notified : (run nobody events).notified ≡ 7 ∷ 8 ∷ []
unfolding run sweep_all renew_lease find watch put_state insert register_service state_of
    sweep_expired all_kept new_entry keep_if
run-events-notified = refl

lookup-leases_example :
    let (found, r) = lookup (run nobody events) 4 160 in
    (found ≡ infos (instances_of r 4))
    × (find 2 (instances_of r 4) ≡ kept (is_live 160) (leases no_leases events 4 2))
lookup-leases_example = lookup-leases events 4 2 160 events-IsOrdered
