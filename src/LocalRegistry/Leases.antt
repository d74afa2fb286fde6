-- ===== src/LocalRegistry/Leases.antt =====
-- src/LocalRegistry.cpp against a table of leases: what is registered, and until when.
use my_rpc_project.Base.{ℕ, ◌≡◌, refl, sym, ap, ◌∙◌, List, [], ◌∷◌, none, ==_self}
use my_rpc_project.Base.Maps.{find, keep_if, kept, IsSorted}
use my_rpc_project.LocalRegistry.{LocalRegistry, state_of, is_live, infos, lookup}
use my_rpc_project.LocalRegistry.Instances.{instances_of, lookup-Puts, lookup-infos}
use my_rpc_project.LocalRegistry.Events.{
  Leases, Event, time_of, lease_step, step, run, leases, IsOrdered,
}
use my_rpc_project.LocalRegistry.Tracks.{Tracks, Tracks-later, step-Tracks, find-swept}

run-Tracks :
    (t : ℕ) (r : LocalRegistry) (l : Leases) (es : List Event) (u : ℕ)
    → IsOrdered t es u
    → Tracks t r l
    → Tracks u (run r es) (leases l es)
unfolding run leases IsOrdered
run-Tracks t r l [] u o tr = Tracks-later t u r l o tr
run-Tracks t r l (e ∷ es) u o tr =
    run-Tracks (time_of e) (step r e) (lease_step l e) es u o.1
      (step-Tracks r l e (Tracks-later t (time_of e) r l o.0 tr))

abbrev pub nobody : LocalRegistry
nobody = record { services = []; notified = [] }

abbrev pub no_leases : Leases
no_leases = λ s i. none

-- After any events of a new registry whose times do not go back, whatever was swept and looked up
-- meanwhile: a lookup gives the infos of the instances that it leaves, and those are exactly the
-- instances whose lease, in the table of leases that the events make, has not run out.
pub lookup-leases :
    (es : List Event) (s i now : ℕ)
    → IsOrdered 0 es now
    → let (found, r) = lookup (run nobody es) s now in
      (found ≡ infos (instances_of r s))
      × (find i (instances_of r s) ≡ kept (is_live now) (leases no_leases es s i))
lookup-leases es s i now o =
    let r = run nobody es in
    let start : Tracks 0 nobody no_leases = record {
      sorted = λ x. unfold instances_of state_of find IsSorted in tt;
      agree = λ x j. unfold instances_of state_of find in refl;
    } in
    let tr = run-Tracks 0 nobody no_leases es now o start in
    let left : instances_of (lookup r s now).1 s ≡ keep_if (is_live now) (instances_of r s) =
      lookup-Puts r s now s ∙ rw (==_self s) refl in
    (
      lookup-infos r s now ∙ ap infos (sym left),
      ap (find i) left ∙ find-swept now r (leases no_leases es) s i tr,
    )
