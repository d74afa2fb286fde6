-- ===== src/RpcClusterChannel.antt =====
-- include/RpcClusterChannel.h and src/RpcClusterChannel.cpp: the set of instances. A channel is a
-- number, in the order in which channels are made and started; the breaker made with it stands at that
-- place of `breakers`, since both are shared pointers that outlive the instance.
pub mod Membership
pub mod Attempts
pub mod Events
pub mod Ledger
pub mod Completion
pub mod Credit
pub mod Spending
pub mod Requests
pub mod Hedging
mod Tests
use my_rpc_project.Base.{
  ℕ, zero, suc, ◌+◌, Bool, true, false, not, ◌&&◌, List, [], ◌∷◌, ◌++◌, Option, none, some, length,
  ◌==◌, if◌then◌else◌,
}
use my_rpc_project.CircuitBreaker.{CircuitBreaker, new_breaker}
use my_rpc_project.Retry.{RetryOptions, RetryBudget, default_options, reset}
use my_rpc_project.LocalRegistry.{InstanceInfo, LocalRegistry, lookup, watch}

pub record Instance : Type 0 where
  pub host : List ℕ
  pub port : ℕ
  pub channel : ℕ

-- `stopped`: the channels that have been told to stop.
pub record Cluster : Type 0 where
  pub instances : List Instance
  pub breakers : List CircuitBreaker
  pub stopped : List ℕ
  pub retry_options : RetryOptions
  pub retry_budget : RetryBudget

abbrev pub new_cluster : Cluster
new_cluster = record {
  instances = [];
  breakers = [];
  stopped = [];
  retry_options = default_options;
  retry_budget = record { max_tokens = 10; tokens = 10 };
}

-- `==` on strings.
unfoldable pub same_text : List ℕ → List ℕ → Bool
same_text [] [] = true
same_text [] (c ∷ cs) = false
same_text (b ∷ bs) [] = false
same_text (b ∷ bs) (c ∷ cs) = b == c && same_text bs cs

unfoldable pub is_at : List ℕ → ℕ → Instance → Bool
unfolding same_text
is_at host port i = same_text i.host host && i.port == port

unfoldable pub find_instance : List ℕ → ℕ → List Instance → Option Instance
find_instance host port [] = none
find_instance host port (i ∷ is) = if is_at host port i then some i else find_instance host port is

abbrev pub default_breaker : CircuitBreaker
default_breaker = new_breaker 5 10000

-- The instance that stands next for an address: the old one, or one with a new channel and breaker.
unfoldable pub instance_for :
    List Instance → List CircuitBreaker → List ℕ → ℕ → Instance × List CircuitBreaker
instance_for old breakers host port = elim (find_instance host port old) [
  | some i ↦ (i, breakers)
  | none ↦ (
    record { host = host; port = port; channel = length breakers },
    breakers ++ (default_breaker ∷ []),
  )
]

unfoldable pub add_instance : Cluster → List ℕ → ℕ → Cluster
unfolding instance_for
add_instance c host port = elim (find_instance host port c.instances) [
  | some i ↦ c
  | none ↦
      let (i, breakers) = instance_for [] c.breakers host port in
      record c { instances = c.instances ++ (i ∷ []); breakers = breakers }
]

unfoldable pub without : List ℕ → ℕ → List Instance → List Instance
without host port [] = []
without host port (i ∷ is) =
    if is_at host port i then without host port is else i ∷ without host port is

unfoldable pub remove_instance : Cluster → List ℕ → ℕ → Cluster
unfolding without
remove_instance c host port = record c { instances = without host port c.instances }

unfoldable pub instance_count : Cluster → ℕ
instance_count c = length c.instances

unfoldable pub set_retry_options : Cluster → RetryOptions → Cluster
set_retry_options c options = record c {
  retry_options = options;
  retry_budget = reset options.budget_tokens;
}

-- The first loop of `applyInstances`.
unfoldable pub next_instances :
    List Instance → List CircuitBreaker → List InstanceInfo → List Instance × List CircuitBreaker
next_instances old breakers [] = ([], breakers)
next_instances old breakers (info ∷ infos) =
    let (i, made) = instance_for old breakers info.host info.port in
    let (next, all) = next_instances old made infos in (i ∷ next, all)

unfoldable pub is_listed : Instance → List InstanceInfo → Bool
is_listed i [] = false
is_listed i (info ∷ infos) = if is_at info.host info.port i then true else is_listed i infos

-- The channels of the instances that have gone.
unfoldable pub removed : List Instance → List InstanceInfo → List ℕ
removed [] infos = []
removed (i ∷ is) infos =
    if is_listed i infos then removed is infos else i.channel ∷ removed is infos

unfoldable pub apply_instances : Cluster → List InstanceInfo → Cluster
apply_instances c infos =
    let (next, breakers) = next_instances c.instances c.breakers infos in
    record c {
      instances = next;
      breakers = breakers;
      stopped = c.stopped ++ removed c.instances infos;
    }

-- `setDiscovery`, and what the callback of its watch does again: look up, apply, watch. `callback`
-- stands for the callback.
unfoldable pub discover : LocalRegistry → Cluster → ℕ → ℕ → ℕ → LocalRegistry × Cluster
discover r c service callback now =
    let (infos, swept) = lookup r service now in
    (watch swept service callback, apply_instances c infos)
