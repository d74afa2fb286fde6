-- ===== src/LocalRegistry/Tracks.antt =====
-- src/LocalRegistry.cpp: every operation keeps the registry in step with the table of leases.
use my_rpc_project.Base.{
  ℕ, ◌≤◌, ◌≡◌, refl, sym, ap, ◌∙◌, subst, false, Option, none, some, inl, inr, Bool-cases,
  Option-cases, ◌==◌, ==_iff, ==_self, if◌then◌else◌, arith,
}
use my_rpc_project.Base.Maps.{
  Map, find, insert, erase, keep_if, kept, IsSorted, find-insert, find-erase, find-keep_if,
  insert-IsSorted, erase-IsSorted, keep_if-IsSorted,
}
use my_rpc_project.LocalRegistry.{
  LocalRegistry, InstanceInfo, Entry, new_entry, register_service, unregister, is_live,
  sweep_expired, renew, renew_lease, lookup, watch, sweep_all,
}
use my_rpc_project.LocalRegistry.Instances.{
  instances_of, instances_of-put_state, instances_of-found, sweep_expired-instances,
  instances_of-missing, sweep_services-find, Puts, unregister-Puts, renew_lease-Puts, lookup-Puts,
}
use my_rpc_project.LocalRegistry.Events.{
  Leases, Event, registers, unregisters, renews, looks_up, watches, sweeps, time_of, renewed,
  lease_step, step,
}

-- The registry is in order, and at time `t` and later it knows the live leases of the table.
pub record Tracks (t : ℕ) (r : LocalRegistry) (l : Leases) : Type 0 where
  pub sorted : (s : ℕ) → IsSorted (instances_of r s)
  pub agree : (s i : ℕ) → kept (is_live t) (find i (instances_of r s)) ≡ kept (is_live t) (l s i)

kept-later :
    (t u : ℕ) (a b : Option Entry)
    → t ≤ u
    → kept (is_live t) a ≡ kept (is_live t) b
    → kept (is_live u) a ≡ kept (is_live u) b
kept-later t u none none h e = refl
kept-later t u none (some b) h e = ground arith
kept-later t u (some a) none h e = ground arith
kept-later t u (some a) (some b) h e = ground arith

pub Tracks-later : (t u : ℕ) (r : LocalRegistry) (l : Leases) → t ≤ u → Tracks t r l → Tracks u r l
Tracks-later t u r l h k = record {
  sorted = k.sorted;
  agree = λ s i. kept-later t u (find i (instances_of r s)) (l s i) h (k.agree s i);
}

-- A service's instances are put where the table changes at that service only.
put-Tracks :
    (t : ℕ) (r q : LocalRegistry) (l k : Leases) (s : ℕ) (m : Map Entry)
    → Tracks t r l
    → Puts r q s m
    → IsSorted m
    → ((i : ℕ) → kept (is_live t) (find i m) ≡ kept (is_live t) (k s i))
    → ((x i : ℕ) → (s == x) ≡ false → k x i ≡ l x i)
    → Tracks t q k
put-Tracks t r q l k s m tr puts sorted agree others = record {
  sorted = λ x. elim (Bool-cases (s == x)) [
    | inl same ↦ subst IsSorted (sym (puts x ∙ rw same refl)) sorted
    | inr other ↦ subst IsSorted (sym (puts x ∙ rw other refl)) (tr.sorted x)
  ];
  agree = λ x i. elim (Bool-cases (s == x)) [
    | inl same ↦
        ap (λ n. kept (is_live t) (find i n)) (puts x ∙ rw same refl)
        ∙ agree i
        ∙ ap (λ y. kept (is_live t) (k y i)) ((==_iff s x).0 same)
    | inr other ↦
        ap (λ n. kept (is_live t) (find i n)) (puts x ∙ rw other refl)
        ∙ tr.agree x i
        ∙ ap (kept (is_live t)) (sym (others x i other))
  ];
}

kept-kept : (t : ℕ) (o : Option Entry) → kept (is_live t) (kept (is_live t) o) ≡ kept (is_live t) o
kept-kept t none = refl
kept-kept t (some e) = ground arith

-- A sweep changes nothing that is live.
pub find-swept :
    (t : ℕ) (r : LocalRegistry) (l : Leases) (s i : ℕ)
    → Tracks t r l
    → find i (keep_if (is_live t) (instances_of r s)) ≡ kept (is_live t) (l s i)
find-swept t r l s i tr = find-keep_if (is_live t) i (instances_of r s) (tr.sorted s) ∙ tr.agree s i

find-renew :
    (m : Map Entry) (id now i : ℕ)
    → find i (renew m id now) ≡ (if id == i then renewed now (find id m) else find i m)
unfolding renew
find-renew m id now i = elim (Option-cases (find id m)) [
  | inl missing ↦ elim (Bool-cases (id == i)) [
    | inl same ↦
        rw (missing, renew, same) (ap (λ k. find k m) (sym ((==_iff id i).0 same)) ∙ missing)
    | inr other ↦ rw (missing, renew, other)
  ]
  | inr (e, there) ↦ elim (Bool-cases (id == i)) [
    | inl same ↦ rw (there, renew, same) (find-insert id i _ m ∙ rw same refl)
    | inr other ↦ rw (there, renew, other) (find-insert id i _ m ∙ rw other refl)
  ]
]

renew-IsSorted : (m : Map Entry) (id now : ℕ) → IsSorted m → IsSorted (renew m id now)
unfolding renew
renew-IsSorted m id now s = elim (Option-cases (find id m)) [
  | inl missing ↦ rw (missing, renew) s
  | inr (e, there) ↦ rw (there, renew) (insert-IsSorted id _ m s)
]

register-Tracks :
    (r : LocalRegistry) (l : Leases) (info : InstanceInfo) (lease_ms now : ℕ)
    → Tracks now r l
    → Tracks now (register_service r info lease_ms now) (lease_step l (registers info lease_ms now))
unfolding register_service instances_of lease_step
register-Tracks r l info lease_ms now tr =
    let s = info.service in
    let id = info.instance_id in
    let e = new_entry info lease_ms now in
    put-Tracks now r (register_service r info lease_ms now) l _ s (insert id e (instances_of r s))
      tr (λ x. instances_of-put_state r s x _ _)
      (insert-IsSorted id e (instances_of r s) (tr.sorted s))
      (λ i. elim (Bool-cases (id == i)) [
        | inl same ↦ rw (find-insert id i e (instances_of r s), ==_self s, same) refl
        | inr other ↦ rw (find-insert id i e (instances_of r s), ==_self s, other) (tr.agree s i)
      ])
      (λ x i other. rw other refl)

unregister-Tracks :
    (r : LocalRegistry) (l : Leases) (s id now : ℕ)
    → Tracks now r l
    → Tracks now (unregister r s id) (lease_step l (unregisters s id now))
unfolding lease_step
unregister-Tracks r l s id now tr =
    put-Tracks now r (unregister r s id) l _ s (erase id (instances_of r s)) tr
      (unregister-Puts r s id) (erase-IsSorted id (instances_of r s) (tr.sorted s))
      (λ i. elim (Bool-cases (id == i)) [
        | inl same ↦ rw (find-erase id i (instances_of r s) (tr.sorted s), ==_self s, same) refl
        | inr other ↦
            rw (find-erase id i (instances_of r s) (tr.sorted s), ==_self s, other) (tr.agree s i)
      ])
      (λ x i other. rw other refl)

renew-Tracks :
    (r : LocalRegistry) (l : Leases) (s id now : ℕ)
    → Tracks now r l
    → Tracks now (renew_lease r s id now) (lease_step l (renews s id now))
unfolding lease_step
renew-Tracks r l s id now tr =
    let m = keep_if (is_live now) (instances_of r s) in
    put-Tracks now r (renew_lease r s id now) l _ s (renew m id now) tr
      (renew_lease-Puts r s id now)
      (renew-IsSorted m id now (keep_if-IsSorted (is_live now) (instances_of r s) (tr.sorted s)))
      (λ i. elim (Bool-cases (id == i)) [
        | inl same ↦
            rw (find-renew m id now i, ==_self s, same)
              (ap (λ o. kept (is_live now) (renewed now o)) (find-swept now r l s id tr)
                ∙ ap (λ j. kept (is_live now) (renewed now (kept (is_live now) (l s j))))
                    ((==_iff id i).0 same))
        | inr other ↦
            rw (find-renew m id now i, ==_self s, other)
              (ap (kept (is_live now)) (find-swept now r l s i tr) ∙ kept-kept now (l s i))
      ])
      (λ x i other. rw other refl)

lookup-Tracks :
    (r : LocalRegistry) (l : Leases) (s now : ℕ) → Tracks now r l → Tracks now (lookup r s now).1 l
lookup-Tracks r l s now tr =
    put-Tracks now r (lookup r s now).1 l l s (keep_if (is_live now) (instances_of r s)) tr
      (lookup-Puts r s now) (keep_if-IsSorted (is_live now) (instances_of r s) (tr.sorted s))
      (λ i. ap (kept (is_live now)) (find-swept now r l s i tr) ∙ kept-kept now (l s i))
      (λ x i other. refl)

watch-Tracks :
    (r : LocalRegistry) (l : Leases) (s callback now : ℕ)
    → Tracks now r l
    → Tracks now (watch r s callback) l
unfolding watch instances_of
watch-Tracks r l s callback now tr =
    put-Tracks now r (watch r s callback) l l s (instances_of r s) tr
      (λ x. instances_of-put_state r s x _ _) (tr.sorted s) (tr.agree s) (λ x i other. refl)

instances_of-sweep_all :
    (r : LocalRegistry) (s now : ℕ)
    → instances_of (sweep_all r now) s ≡ keep_if (is_live now) (instances_of r s)
unfolding sweep_all keep_if
instances_of-sweep_all r s now = elim (Option-cases (find s r.services)) [
  | inl missing ↦
      instances_of-missing (sweep_all r now) s
        (sweep_services-find r.services now s ∙ rw missing refl)
      ∙ sym (ap (keep_if (is_live now)) (instances_of-missing r s missing))
  | inr (state, there) ↦
      instances_of-found (sweep_all r now) s (sweep_expired state now).1
        (sweep_services-find r.services now s ∙ rw there refl)
      ∙ sweep_expired-instances state now
      ∙ sym (ap (keep_if (is_live now)) (instances_of-found r s state there))
]

sweep-Tracks :
    (r : LocalRegistry) (l : Leases) (now : ℕ) → Tracks now r l → Tracks now (sweep_all r now) l
sweep-Tracks r l now tr = record {
  sorted = λ s.
      subst IsSorted (sym (instances_of-sweep_all r s now))
        (keep_if-IsSorted (is_live now) (instances_of r s) (tr.sorted s));
  agree = λ s i.
      ap (λ m. kept (is_live now) (find i m)) (instances_of-sweep_all r s now)
      ∙ ap (kept (is_live now)) (find-swept now r l s i tr)
      ∙ kept-kept now (l s i);
}

pub step-Tracks :
    (r : LocalRegistry) (l : Leases) (e : Event)
    → Tracks (time_of e) r l
    → Tracks (time_of e) (step r e) (lease_step l e)
unfolding step lease_step
step-Tracks r l (registers info lease_ms now) tr = register-Tracks r l info lease_ms now tr
step-Tracks r l (unregisters s id now) tr = unregister-Tracks r l s id now tr
step-Tracks r l (renews s id now) tr = renew-Tracks r l s id now tr
step-Tracks r l (looks_up s now) tr = lookup-Tracks r l s now tr
step-Tracks r l (watches s callback now) tr = watch-Tracks r l s callback now tr
step-Tracks r l (sweeps now) tr = sweep-Tracks r l now tr
