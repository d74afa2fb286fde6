-- ===== src/RpcClusterChannel/Membership.antt =====
-- src/RpcClusterChannel.cpp: the instances after a change of the set.
use my_rpc_project.Base.{
  ℕ, zero, suc, ◌+◌, ◌≤◌, ◌<◌, ◌≡◌, ◌∙◌, refl, sym, ap, subst, true, false, List, [], ◌∷◌, ◌++◌,
  none, some, length, length-append, append-nil, append_assoc, replicate, inl, inr, ◌⊎◌, Bool-cases,
  Option-cases, arith,
}
use my_rpc_project.CircuitBreaker.{CircuitBreaker}
use my_rpc_project.LocalRegistry.{InstanceInfo, LocalRegistry, lookup}
use my_rpc_project.RpcClusterChannel.{
  Instance, Cluster, same_text, is_at, find_instance, instance_for, next_instances, is_listed,
  removed, apply_instances, discover, default_breaker,
}

same_text-eq : (bs cs : List ℕ) → same_text bs cs ≡ true → bs ≡ cs
unfolding same_text
same_text-eq [] [] h = refl
same_text-eq [] (c ∷ cs) h = absurd (grind arith)
same_text-eq (b ∷ bs) [] h = absurd (grind arith)
same_text-eq (b ∷ bs) (c ∷ cs) h = ground (arith, same_text-eq bs cs)

-- An instance stands for an info.
abbrev pub IsFor : InstanceInfo → Instance → Type 0
IsFor info i = (i.host ≡ info.host) × (i.port ≡ info.port)

is_at_lem :
    (host : List ℕ) (port : ℕ) (i : Instance)
    → is_at host port i ≡ true
    → (i.host ≡ host) × (i.port ≡ port)
unfolding is_at
is_at_lem host port i h = ground (arith, same_text-eq i.host host)

find_instance_lem :
    (host : List ℕ) (port : ℕ) (is : List Instance) (i : Instance)
    → find_instance host port is ≡ some i
    → (i.host ≡ host) × (i.port ≡ port)
unfolding find_instance
find_instance_lem host port [] i e = absurd (grind arith)
find_instance_lem host port (k ∷ is) i e = elim (Bool-cases (is_at host port k)) [
  | inl here ↦
      let same : k ≡ i = let h : some k ≡ some i = rw here at e in cc in
      subst (λ (x : Instance). (x.host ≡ host) × (x.port ≡ port)) same (is_at_lem host port k here)
  | inr there ↦
      find_instance_lem host port is i
        (let h : find_instance host port is ≡ some i = rw there at e in h)
]

-- The instance for an info: the old one of the address where there is one, and else one with a channel
-- from `n` on and below `m`.
abbrev pub Placed : List Instance → ℕ → ℕ → InstanceInfo → Instance → Type 0
Placed old n m info i =
    IsFor info i
    × ((find_instance info.host info.port old ≡ some i)
        ⊎ ((find_instance info.host info.port old ≡ none) × (n ≤ i.channel) × (i.channel < m)))

-- One instance for each info, in their order.
abbrev pub Follows : List Instance → ℕ → ℕ → List InstanceInfo → List Instance → Type 0
Follows old n m [] [] = Unit
Follows old n m [] (i ∷ is) = ⊥
Follows old n m (info ∷ infos) [] = ⊥
Follows old n m (info ∷ infos) (i ∷ is) = Placed old n m info i × Follows old n m infos is

-- The breakers, and some new ones after them.
abbrev pub Extends : List CircuitBreaker → List CircuitBreaker → Type 0
Extends breakers all = (k : ℕ) × (all ≡ breakers ++ replicate k default_breaker)

Extends-le :
    (breakers all : List CircuitBreaker) → Extends breakers all → length breakers ≤ length all
Extends-le breakers all (k, e) =
    omega (arith, ap length e, length-append breakers (replicate k default_breaker))

instance_for-Placed :
    (old : List Instance) (n m : ℕ) (breakers : List CircuitBreaker) (info : InstanceInfo)
    → n ≤ length breakers
    → length (instance_for old breakers info.host info.port).1 ≤ m
    → Placed old n m info (instance_for old breakers info.host info.port).0
instance_for-Placed old n m breakers info h l =
    elim (Option-cases (find_instance info.host info.port old)) [
      | inl new ↦
          let fresh : Instance = record {
            host = info.host;
            port = info.port;
            channel = length breakers;
          } in
          let e : instance_for old breakers info.host info.port
              ≡ (fresh, breakers ++ (default_breaker ∷ [])) =
            unfold instance_for in rw (new, instance_for) refl in
          subst (λ (p : Instance × List CircuitBreaker). Placed old n m info p.0) (sym e)
            (
              (refl, refl),
              inr (
                new,
                h,
                omega (
                  arith,
                  ap (λ (p : Instance × List CircuitBreaker). length p.1) e,
                  length-append breakers (default_breaker ∷ []),
                ),
              ),
            )
      | inr (x, kept) ↦
          let e : instance_for old breakers info.host info.port ≡ (x, breakers) =
            unfold instance_for in rw (kept, instance_for) refl in
          subst (λ (p : Instance × List CircuitBreaker). Placed old n m info p.0) (sym e)
            (find_instance_lem info.host info.port old x kept, inl kept)
    ]

instance_for-Extends :
    (old : List Instance) (breakers : List CircuitBreaker) (host : List ℕ) (port : ℕ)
    → Extends breakers (instance_for old breakers host port).1
instance_for-Extends old breakers host port = elim (Option-cases (find_instance host port old)) [
  | inl new ↦ (1, unfold instance_for in rw (new, instance_for) refl)
  | inr (x, kept) ↦ (0, unfold instance_for in rw (kept, instance_for) (sym (append-nil breakers)))
]

replicate-add :
    {A : Type 0} (j k : ℕ) (b : A) → replicate (j + k) b ≡ replicate j b ++ replicate k b
replicate-add zero k b = ap (λ i. replicate i b) (omega arith)
replicate-add (suc j) k b =
    let e : suc j + k ≡ suc (j + k) = omega arith in
    ap (λ i. replicate i b) e ∙ ap (◌∷◌ b) (replicate-add j k b)

Extends-trans : (xs ys zs : List CircuitBreaker) → Extends xs ys → Extends ys zs → Extends xs zs
Extends-trans xs ys zs (j, e) (k, f) = (
  j + k,
  f
      ∙ ap (λ u. u ++ replicate k default_breaker) e
      ∙ append_assoc xs (replicate j default_breaker) (replicate k default_breaker)
      ∙ ap (λ u. xs ++ u) (sym (replicate-add j k default_breaker)),
)

next_instances-Extends :
    (old : List Instance) (breakers : List CircuitBreaker) (infos : List InstanceInfo)
    → Extends breakers (next_instances old breakers infos).1
unfolding next_instances
next_instances-Extends old breakers [] = (0, sym (append-nil breakers))
next_instances-Extends old breakers (info ∷ infos) =
    let made = (instance_for old breakers info.host info.port).1 in
    Extends-trans breakers made (next_instances old made infos).1
      (instance_for-Extends old breakers info.host info.port)
      (next_instances-Extends old made infos)

next_instances-Follows :
    (old : List Instance) (n m : ℕ) (breakers : List CircuitBreaker) (infos : List InstanceInfo)
    → n ≤ length breakers
    → length (next_instances old breakers infos).1 ≤ m
    → Follows old n m infos (next_instances old breakers infos).0
unfolding next_instances
next_instances-Follows old n m breakers [] h l = tt
next_instances-Follows old n m breakers (info ∷ infos) h l =
    let made = (instance_for old breakers info.host info.port).1 in
    let grown = Extends-le breakers made (instance_for-Extends old breakers info.host info.port) in
    let more =
      Extends-le made (next_instances old made infos).1 (next_instances-Extends old made infos) in
    (
      instance_for-Placed old n m breakers info h (omega arith),
      next_instances-Follows old n m made infos (omega arith) l,
    )

-- An info stands for the instance.
abbrev pub IsGiven : Instance → List InstanceInfo → Type 0
IsGiven i [] = ⊥
IsGiven i (info ∷ infos) = IsFor info i ⊎ IsGiven i infos

-- The channels of exactly the instances that no info stands for, in their order, each once.
abbrev pub AreGone : List InstanceInfo → List Instance → List ℕ → Type 0
AreGone infos [] [] = Unit
AreGone infos [] (c ∷ cs) = ⊥
AreGone infos (i ∷ is) cs =
    (IsGiven i infos × AreGone infos is cs)
    ⊎ ((¬ IsGiven i infos) × (rest : List ℕ) × (cs ≡ i.channel ∷ rest) × AreGone infos is rest)

same_text_self : (bs : List ℕ) → same_text bs bs ≡ true
unfolding same_text
same_text_self [] = refl
same_text_self (b ∷ bs) = ground (arith, same_text_self bs)

is_at-IsFor :
    (info : InstanceInfo) (i : Instance) → IsFor info i → is_at info.host info.port i ≡ true
unfolding is_at
is_at-IsFor info i (host, port) =
    let same : same_text i.host info.host ≡ true =
      subst (λ h. same_text i.host h ≡ true) host (same_text_self i.host) in
    ground (arith, same, port)

is_listed-IsGiven :
    (i : Instance) (infos : List InstanceInfo) → is_listed i infos ≡ true → IsGiven i infos
unfolding is_listed
is_listed-IsGiven i [] h = absurd (grind arith)
is_listed-IsGiven i (info ∷ infos) h = elim (Bool-cases (is_at info.host info.port i)) [
  | inl here ↦ inl (is_at_lem info.host info.port i here)
  | inr there ↦ inr (is_listed-IsGiven i infos (ground arith))
]

IsGiven-is_listed :
    (i : Instance) (infos : List InstanceInfo) → is_listed i infos ≡ false → ¬ IsGiven i infos
unfolding is_listed
IsGiven-is_listed i [] h g = g
IsGiven-is_listed i (info ∷ infos) h (inl here) = let at = is_at-IsFor info i here in ground arith
IsGiven-is_listed i (info ∷ infos) h (inr there) = IsGiven-is_listed i infos (ground arith) there

removed-AreGone :
    (is : List Instance) (infos : List InstanceInfo) → AreGone infos is (removed is infos)
unfolding removed
removed-AreGone [] infos = tt
removed-AreGone (i ∷ is) infos = elim (Bool-cases (is_listed i infos)) [
  | inl stays ↦ rw stays (inl (is_listed-IsGiven i infos stays, removed-AreGone is infos))
  | inr goes ↦
      rw goes
        (inr (IsGiven-is_listed i infos goes, removed is infos, refl, removed-AreGone is infos))
]

-- After `setDiscovery` and after each notification of its watch: the cluster has one instance for each
-- info that the lookup gives, in their order, at its address. It is the old one, with its channel, where
-- the address had one, and else one with a channel and a breaker that are new. Every breaker that there
-- was is as it was, and new ones are in their first state. Stopped besides the channels that were stopped
-- before are the channels of exactly the old instances whose address is not given any more, in order.
pub discover-Follows :
    (r : LocalRegistry) (c : Cluster) (service callback now : ℕ)
    → let infos = (lookup r service now).0 in
      let d = (discover r c service callback now).1 in
      Follows c.instances (length c.breakers) (length d.breakers) infos d.instances
      × Extends c.breakers d.breakers
      × (gone : List ℕ) × (d.stopped ≡ c.stopped ++ gone)
      × AreGone infos c.instances gone
unfolding discover apply_instances
discover-Follows r c service callback now =
    let infos = (lookup r service now).0 in
    let all = (next_instances c.instances c.breakers infos).1 in
    (
      next_instances-Follows c.instances (length c.breakers) (length all) c.breakers infos
          (omega arith) (omega arith),
      next_instances-Extends c.instances c.breakers infos,
      removed c.instances infos,
      refl,
      removed-AreGone c.instances infos,
    )
