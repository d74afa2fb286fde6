-- ===== src/LocalRegistry/Instances.antt =====
-- src/LocalRegistry.cpp, what each operation does to the instances of the services.
use my_rpc_project.Base.{
  ℕ, ◌≡◌, refl, sym, ap, ◌∙◌, List, [], ◌∷◌, Option, none, some, inl, inr, Bool-cases, ◌==◌, ==_iff,
  if◌then◌else◌,
}
use my_rpc_project.Base.Maps.{Map, find, erase, keep_if, all_kept, find-insert}
use my_rpc_project.LocalRegistry.{
  LocalRegistry, Entry, ServiceState, state_of, put_state, unregister, is_live, sweep_expired,
  renew, renew_lease, infos, lookup, sweep_services,
}

-- The instances of a service.
unfoldable pub instances_of : LocalRegistry → ℕ → Map Entry
unfolding state_of
instances_of r service = (state_of r service).instances

pub instances_of-put_state :
    (r : LocalRegistry) (s t : ℕ) (state : ServiceState) (cs : List ℕ)
    → instances_of (put_state r s state cs) t
      ≡ (if s == t then state.instances else instances_of r t)
unfolding instances_of state_of put_state
instances_of-put_state r s t state cs = elim (Bool-cases (s == t)) [
  | inl same ↦ rw (find-insert s t state r.services, same, instances_of, state_of, put_state)
  | inr other ↦ rw (find-insert s t state r.services, other, instances_of, state_of, put_state)
]

pub instances_of-found :
    (r : LocalRegistry) (s : ℕ) (state : ServiceState)
    → find s r.services ≡ some state
    → instances_of r s ≡ state.instances
unfolding instances_of state_of
instances_of-found r s state e = rw (e, instances_of, state_of)

pub sweep_expired-instances :
    (state : ServiceState) (now : ℕ)
    → (sweep_expired state now).1.instances ≡ keep_if (is_live now) state.instances
unfolding sweep_expired
sweep_expired-instances state now = elim (Bool-cases (all_kept (is_live now) state.instances)) [
  | inl unchanged ↦ rw unchanged
  | inr changed ↦ rw changed
]

pub sweep_services-find :
    (m : Map ServiceState) (now s : ℕ)
    → find s (sweep_services m now).1
      ≡ elim (find s m) [ none ↦ none | some state ↦ some (sweep_expired state now).1 ]
unfolding sweep_services find
sweep_services-find [] now s = refl
sweep_services-find ((k, state) ∷ m) now s = elim (Bool-cases (k == s)) [
  | inl same ↦ rw same
  | inr other ↦ rw other (sweep_services-find m now s)
]

pub instances_of-missing :
    (r : LocalRegistry) (s : ℕ) → find s r.services ≡ none → instances_of r s ≡ []
unfolding instances_of state_of
instances_of-missing r s e = rw (e, instances_of, state_of)

-- A table in which one service has the instances `m`.
abbrev pub Puts : LocalRegistry → LocalRegistry → ℕ → Map Entry → Type 0
Puts r q s m = (x : ℕ) → instances_of q x ≡ (if s == x then m else instances_of r x)

-- Where nothing is put, as the service is not there and `m` is empty.
nothing-Puts :
    (r : LocalRegistry) (s : ℕ) (m : Map Entry) → find s r.services ≡ none → m ≡ [] → Puts r r s m
nothing-Puts r s m e empty x = elim (Bool-cases (s == x)) [
  | inl same ↦
      rw same
        (ap (instances_of r) (sym ((==_iff s x).0 same)) ∙ instances_of-missing r s e ∙ sym empty)
  | inr other ↦ rw other
]

pub unregister-Puts :
    (r : LocalRegistry) (s id : ℕ) → Puts r (unregister r s id) s (erase id (instances_of r s))
unfolding unregister erase
unregister-Puts r s id = go (find s r.services) refl
  where
    go :
        (o : Option ServiceState)
        → find s r.services ≡ o
        → Puts r (unregister r s id) s (erase id (instances_of r s))
    go none e =
        rw (e, unregister)
          (nothing-Puts r s (erase id (instances_of r s)) e
            (ap (erase id) (instances_of-missing r s e)))
    go (some state) e = λ x.
        rw (e, unregister, instances_of-found r s state e)
          (instances_of-put_state r s x _ state.watchers)

pub renew_lease-Puts :
    (r : LocalRegistry) (s id now : ℕ)
    → Puts r (renew_lease r s id now) s (renew (keep_if (is_live now) (instances_of r s)) id now)
unfolding renew_lease renew keep_if find
renew_lease-Puts r s id now = go (find s r.services) refl
  where
    go :
        (o : Option ServiceState)
        → find s r.services ≡ o
        → Puts r
            (renew_lease r s id now)
            s
            (renew (keep_if (is_live now) (instances_of r s)) id now)
    go none e =
        rw (e, renew_lease)
          (nothing-Puts r s (renew (keep_if (is_live now) (instances_of r s)) id now) e
            (ap (λ m. renew (keep_if (is_live now) m) id now) (instances_of-missing r s e)))
    go (some state) e = λ x.
        rw (e, renew_lease, instances_of-found r s state e)
          (instances_of-put_state r s x _ _
            ∙ ap (λ m. if s == x then renew m id now else instances_of r x)
                (sweep_expired-instances state now))

pub lookup-Puts :
    (r : LocalRegistry) (s now : ℕ)
    → Puts r (lookup r s now).1 s (keep_if (is_live now) (instances_of r s))
unfolding lookup keep_if
lookup-Puts r s now = go (find s r.services) refl
  where
    go :
        (o : Option ServiceState)
        → find s r.services ≡ o
        → Puts r (lookup r s now).1 s (keep_if (is_live now) (instances_of r s))
    go none e =
        rw (e, lookup)
          (nothing-Puts r s (keep_if (is_live now) (instances_of r s)) e
            (ap (keep_if (is_live now)) (instances_of-missing r s e)))
    go (some state) e = λ x.
        rw (e, lookup, instances_of-found r s state e)
          (instances_of-put_state r s x _ _
            ∙ ap (λ m. if s == x then m else instances_of r x) (sweep_expired-instances state now))

-- `lookup` gives the instances that it leaves.
pub lookup-infos :
    (r : LocalRegistry) (s now : ℕ)
    → (lookup r s now).0 ≡ infos (keep_if (is_live now) (instances_of r s))
unfolding lookup keep_if infos
lookup-infos r s now = go (find s r.services) refl
  where
    go :
        (o : Option ServiceState)
        → find s r.services ≡ o
        → (lookup r s now).0 ≡ infos (keep_if (is_live now) (instances_of r s))
    go none e = rw (e, lookup, instances_of-missing r s e)
    go (some state) e =
        rw (e, lookup, instances_of-found r s state e)
          (ap infos (sweep_expired-instances state now))
