-- ===== src/RegistryClient/Ports.antt =====
-- src/LocalRegistry.cpp: the ports of the instances fit their type, whatever is registered.
use my_rpc_project.Base.{
  ℕ, suc, ◌+◌, ◌++◌, ◌^◌, ◌<◌, ◌≡◌, subst, Bool, List, [], ◌∷◌, All, some, Option-cases, Bool-cases,
  inl, inr, ltb, ◌==◌, if_elim, arith,
}
use my_rpc_project.Base.Maps.{Map, find, insert, erase, keep_if, all_kept}
use my_rpc_project.LocalRegistry.{
  LocalRegistry, ServiceState, Entry, InstanceInfo, state_of, put_state, new_entry,
  register_service, unregister, is_live, sweep_expired, renew, renew_lease, infos, lookup, watch,
  sweep_services, sweep_all,
}
use my_rpc_project.LocalRegistry.Events.{
  Event, registers, unregisters, renews, looks_up, watches, sweeps, step,
}

-- What holds of each value of a map.
abbrev pub AllValues : {V : Type 0} → (V → Type 0) → Map V → Type 0
AllValues {V} P m = All (λ (e : ℕ × V). P e.1) m

module _ {V : Type 0} (P : V → Type 0) where
  AllValues-insert : (k : ℕ) (v : V) (m : Map V) → P v → AllValues P m → AllValues P (insert k v m)
  unfolding insert
  AllValues-insert k v [] p a = (p, tt)
  AllValues-insert k v ((j, w) ∷ m) p a =
      if_elim (AllValues P) (ltb k j) (p, a)
        (if_elim (AllValues P) (j == k) (p, a.1) (a.0, AllValues-insert k v m p a.1))

  AllValues-erase : (k : ℕ) (m : Map V) → AllValues P m → AllValues P (erase k m)
  unfolding erase
  AllValues-erase k [] a = tt
  AllValues-erase k ((j, w) ∷ m) a =
      if_elim (AllValues P) (j == k) a.1 (a.0, AllValues-erase k m a.1)

  AllValues-keep_if : (test : V → Bool) (m : Map V) → AllValues P m → AllValues P (keep_if test m)
  unfolding keep_if
  AllValues-keep_if test [] a = tt
  AllValues-keep_if test ((j, w) ∷ m) a =
      if_elim (AllValues P) (test w) (a.0, AllValues-keep_if test m a.1)
        (AllValues-keep_if test m a.1)

  AllValues-find : (k : ℕ) (m : Map V) (v : V) → AllValues P m → find k m ≡ some v → P v
  unfolding find
  AllValues-find k [] v a e = absurd (grind arith)
  AllValues-find k ((j, w) ∷ m) v a e = elim (Bool-cases (j == k)) [
    | inl same ↦ let e : w ≡ v = ground (arith, e) in subst P e a.0
    | inr other ↦ AllValues-find k m v a.1 (ground arith)
  ]

abbrev HasPort : Entry → Type 0
HasPort e = e.info.port < 2 ^ 16

abbrev HavePorts : ServiceState → Type 0
HavePorts state = AllValues HasPort state.instances

abbrev pub FitPorts : LocalRegistry → Type 0
FitPorts r = AllValues HavePorts r.services

-- The port of an event fits its type.
abbrev pub FitsPort : Event → Type 0
FitsPort (registers info lease_ms now) = info.port < 2 ^ 16
FitsPort _ = Unit

state_of-HavePorts : (r : LocalRegistry) (service : ℕ) → FitPorts r → HavePorts (state_of r service)
unfolding state_of
state_of-HavePorts r service f = elim (Option-cases (find service r.services)) [
  | inl e ↦ rw (e, state_of) tt
  | inr (state, e) ↦ rw (e, state_of) (AllValues-find HavePorts service r.services state f e)
]

put_state-FitPorts :
    (r : LocalRegistry) (service : ℕ) (state : ServiceState) (callbacks : List ℕ)
    → HavePorts state
    → FitPorts r
    → FitPorts (put_state r service state callbacks)
unfolding put_state
put_state-FitPorts r service state callbacks p f =
    AllValues-insert HavePorts service state r.services p f

sweep_expired-HavePorts :
    (state : ServiceState) (now : ℕ) → HavePorts state → HavePorts (sweep_expired state now).1
unfolding sweep_expired
sweep_expired-HavePorts state now p =
    if_elim (λ (s : List ℕ × ServiceState). HavePorts s.1) (all_kept (is_live now) state.instances)
      (AllValues-keep_if HasPort (is_live now) state.instances p)
      (AllValues-keep_if HasPort (is_live now) state.instances p)

renew-HasPort :
    (m : Map Entry) (instance_id now : ℕ)
    → AllValues HasPort m
    → AllValues HasPort (renew m instance_id now)
unfolding renew
renew-HasPort m instance_id now p = elim (Option-cases (find instance_id m)) [
  | inl e ↦ rw (e, renew) p
  | inr (entry, e) ↦
      rw (e, renew)
        (AllValues-insert HasPort instance_id
          (record entry { lease_deadline = now + entry.lease_ms }) m
          (AllValues-find HasPort instance_id m entry p e) p)
]

infos-HasPort :
    (m : Map Entry) → AllValues HasPort m → All (λ (i : InstanceInfo). i.port < 2 ^ 16) (infos m)
unfolding infos
infos-HasPort [] p = tt
infos-HasPort ((k, e) ∷ m) p = (p.0, infos-HasPort m p.1)

pub lookup-FitPorts :
    (r : LocalRegistry) (service now : ℕ)
    → FitPorts r
    → All (λ (i : InstanceInfo). i.port < 2 ^ 16) (lookup r service now).0
      × FitPorts (lookup r service now).1
unfolding lookup
lookup-FitPorts r service now f = elim (Option-cases (find service r.services)) [
  | inl e ↦ rw (e, lookup, All) (tt, f)
  | inr (state, e) ↦
      let swept =
        sweep_expired-HavePorts state now (AllValues-find HavePorts service r.services state f e) in
      rw (e, lookup, All)
        (
          infos-HasPort (sweep_expired state now).1.instances swept,
          put_state-FitPorts r service (sweep_expired state now).1 (sweep_expired state now).0 swept
              f,
        )
]

unregister-FitPorts :
    (r : LocalRegistry) (service instance_id : ℕ)
    → FitPorts r
    → FitPorts (unregister r service instance_id)
unfolding unregister
unregister-FitPorts r service instance_id f = elim (Option-cases (find service r.services)) [
  | inl e ↦ rw (e, unregister) f
  | inr (state, e) ↦
      rw (e, unregister)
        (put_state-FitPorts r service
          (record {
            instances = erase instance_id state.instances;
            watchers = [];
            version = suc state.version;
          })
          state.watchers
          (AllValues-erase HasPort instance_id state.instances
            (AllValues-find HavePorts service r.services state f e))
          f)
]

renew_lease-FitPorts :
    (r : LocalRegistry) (service instance_id now : ℕ)
    → FitPorts r
    → FitPorts (renew_lease r service instance_id now)
unfolding renew_lease
renew_lease-FitPorts r service instance_id now f = elim (Option-cases (find service r.services)) [
  | inl e ↦ rw (e, renew_lease) f
  | inr (state, e) ↦
      let swept = (sweep_expired state now).1 in
      rw (e, renew_lease)
        (put_state-FitPorts r service
          (record swept { instances = renew swept.instances instance_id now })
          (sweep_expired state now).0
          (renew-HasPort swept.instances instance_id now (
            sweep_expired-HavePorts state now
              (AllValues-find HavePorts service r.services state f e)))
          f)
]

sweep_services-HavePorts :
    (m : Map ServiceState) (now : ℕ)
    → AllValues HavePorts m
    → AllValues HavePorts (sweep_services m now).1
unfolding sweep_services
sweep_services-HavePorts [] now f = tt
sweep_services-HavePorts ((service, state) ∷ m) now f =
    (sweep_expired-HavePorts state now f.0, sweep_services-HavePorts m now f.1)

pub step-FitPorts : (r : LocalRegistry) (e : Event) → FitsPort e → FitPorts r → FitPorts (step r e)
unfolding step register_service watch sweep_all new_entry
step-FitPorts r (registers info lease_ms now) h f =
    put_state-FitPorts r info.service
      (record {
        instances =
            insert info.instance_id (new_entry info lease_ms now)
              (state_of r info.service).instances;
        watchers = [];
        version = suc (state_of r info.service).version;
      })
      (state_of r info.service).watchers
      (AllValues-insert HasPort info.instance_id (new_entry info lease_ms now)
        (state_of r info.service).instances h (state_of-HavePorts r info.service f))
      f
step-FitPorts r (unregisters service instance_id now) h f =
    unregister-FitPorts r service instance_id f
step-FitPorts r (renews service instance_id now) h f =
    renew_lease-FitPorts r service instance_id now f
step-FitPorts r (looks_up service now) h f = (lookup-FitPorts r service now f).1
step-FitPorts r (watches service callback now) h f =
    put_state-FitPorts r service
      (record (state_of r service) { watchers = (state_of r service).watchers ++ (callback ∷ []) })
      [] (state_of-HavePorts r service f) f
step-FitPorts r (sweeps now) h f = sweep_services-HavePorts r.services now f
