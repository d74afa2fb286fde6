-- ===== src/LoadBalancer/Ring.antt =====
-- src/LoadBalancer.cpp: the balancer by consistent hashing. `std::sort` is an insertion sort; which of
-- two equal hashes comes first is left open by the library, and is the order of insertion here.
use my_rpc_project.Base.{
  ℕ, zero, suc, ◌+◌, ◌/◌, ◌%◌, ◌≡◌, ◌≢◌, ◌<◌, refl, subst, ◌⊎◌, inl, inr, Option-cases, Bool, true,
  false, List, [], ◌∷◌, ◌++◌, All, Option, none, some, length, ltb, leb, ◌==◌, ==_self,
  if◌then◌else◌, Bool-cases, arith,
}
use my_rpc_project.Protocol.{fnv1a32}
use my_rpc_project.LoadBalancer.{InstanceState, Double, healthy_indices, p2c_pick, wrr_pick}
use my_rpc_project.LoadBalancer.Picks.{
  IsHealthyAt, IsPick, healthy_indices-IsHealthyAt, healthy_indices-nil, p2c_pick-IsPick,
  wrr_pick-IsPick,
}

pub record RingEntry : Type 0 where
  pub hash : ℕ
  pub instance_index : ℕ

pub record Ring : Type 0 where
  pub virtual_nodes : ℕ
  pub entries : List RingEntry
  pub ring_version : ℕ

abbrev pub new_ring : ℕ → Ring
new_ring virtual_nodes = record {
  virtual_nodes = if ltb 0 virtual_nodes then virtual_nodes else 160;
  entries = [];
  ring_version = 0;
}

-- The decimal digits of a number, as characters; a size_t has at most 20.
unfoldable pub digits : ℕ → ℕ → List ℕ → List ℕ
digits zero n more = more
digits (suc fuel) n more =
    let these = (48 + n % 10) ∷ more in
    let all = digits fuel (n / 10) these in if ltb n 10 then these else all

abbrev pub to_string : ℕ → List ℕ
to_string n = digits 20 n []

-- The virtual nodes of an instance, from one of them on.
unfoldable pub nodes : ℕ → ℕ → ℕ → List RingEntry
nodes i v zero = []
nodes i v (suc more) =
    record { hash = fnv1a32 (to_string i ++ (35 ∷ to_string v)); instance_index = i }
    ∷ nodes i (suc v) more

unfoldable pub all_nodes : ℕ → List ℕ → List RingEntry
all_nodes virtual_nodes [] = []
all_nodes virtual_nodes (i ∷ is) = nodes i 0 virtual_nodes ++ all_nodes virtual_nodes is

unfoldable pub insert_entry : RingEntry → List RingEntry → List RingEntry
insert_entry e [] = e ∷ []
insert_entry e (f ∷ fs) =
    let rest = insert_entry e fs in if leb e.hash f.hash then e ∷ f ∷ fs else f ∷ rest

unfoldable pub sort : List RingEntry → List RingEntry
sort [] = []
sort (e ∷ es) = insert_entry e (sort es)

unfoldable pub rebuild : {D : Type 0} → Ring → List (InstanceState D) → Ring
rebuild r states = record r { entries = sort (all_nodes r.virtual_nodes (healthy_indices states)) }

-- The first entry whose hash is not below the key.
unfoldable pub lower_bound : ℕ → List RingEntry → Option RingEntry
lower_bound key [] = none
lower_bound key (e ∷ es) = let rest = lower_bound key es in if ltb e.hash key then rest else some e

-- `fnv1a32("default", 7)` where no key is set.
unfoldable pub key_of : ℕ → ℕ
key_of request_key =
    if request_key == 0 then fnv1a32 (100 ∷ 101 ∷ 102 ∷ 97 ∷ 117 ∷ 108 ∷ 116 ∷ []) else request_key

unfoldable pub pick_in : List RingEntry → ℕ → ℕ → ℕ
pick_in [] n request_key = n
pick_in (e ∷ es) n request_key = elim (lower_bound (key_of request_key) (e ∷ es)) [
  | none ↦ e.instance_index
  | some f ↦ f.instance_index
]

-- `if (ringVersion_ != states.size() + 1)`.
unfoldable pub refresh : {D : Type 0} → Ring → List (InstanceState D) → Ring
refresh r states =
    if r.ring_version == length states + 1
    then r
    else record (rebuild r states) { ring_version = length states + 1 }

-- `ConsistentHashBalancer::pick`: the index, and the ring.
unfoldable pub ring_pick : {D : Type 0} → Ring → List (InstanceState D) → ℕ → ℕ × Ring
ring_pick r states request_key =
    let now = refresh r states in (pick_in now.entries (length states) request_key, now)

module _ (P : ℕ → Type 0) where
  -- The instances of all entries.
  abbrev AllEntries : List RingEntry → Type 0
  AllEntries es = All (λ e. P e.instance_index) es

  nodes-AllEntries :
      (i v n : ℕ) (es : List RingEntry) → P i → AllEntries es → AllEntries (nodes i v n ++ es)
  unfolding nodes
  nodes-AllEntries i v zero es p a = a
  nodes-AllEntries i v (suc n) es p a = (p, nodes-AllEntries i (suc v) n es p a)

  all_nodes-AllEntries : (n : ℕ) (is : List ℕ) → All P is → AllEntries (all_nodes n is)
  unfolding all_nodes
  all_nodes-AllEntries n [] a = tt
  all_nodes-AllEntries n (i ∷ is) a =
      nodes-AllEntries i 0 n (all_nodes n is) a.0 (all_nodes-AllEntries n is a.1)

  AllEntries-if :
      (b : Bool) (xs ys : List RingEntry)
      → AllEntries xs
      → AllEntries ys
      → AllEntries (if b then xs else ys)
  AllEntries-if true xs ys a c = a
  AllEntries-if false xs ys a c = c

  insert_entry-AllEntries :
      (e : RingEntry) (es : List RingEntry)
      → P e.instance_index
      → AllEntries es
      → AllEntries (insert_entry e es)
  unfolding insert_entry
  insert_entry-AllEntries e [] p a = (p, tt)
  insert_entry-AllEntries e (f ∷ fs) p a =
      AllEntries-if (leb e.hash f.hash) (e ∷ f ∷ fs) (f ∷ insert_entry e fs) (p, a)
        (a.0, insert_entry-AllEntries e fs p a.1)

  sort-AllEntries : (es : List RingEntry) → AllEntries es → AllEntries (sort es)
  unfolding sort
  sort-AllEntries [] a = tt
  sort-AllEntries (e ∷ es) a = insert_entry-AllEntries e (sort es) a.0 (sort-AllEntries es a.1)

  index-if :
      (b : Bool) (o : Option RingEntry) (e f : RingEntry)
      → ((g : RingEntry) → o ≡ some g → P g.instance_index)
      → P e.instance_index
      → (if b then o else some e) ≡ some f
      → P f.instance_index
  index-if true o e f later p found = later f found
  index-if false o e f later p found =
      let same : e ≡ f = cc in subst (λ (g : RingEntry). P g.instance_index) same p

  lower_bound-found :
      (key : ℕ) (es : List RingEntry) (f : RingEntry)
      → AllEntries es
      → lower_bound key es ≡ some f
      → P f.instance_index
  unfolding lower_bound
  lower_bound-found key [] f a found = absurd (grind arith)
  lower_bound-found key (e ∷ es) f a found =
      index-if (ltb e.hash key) (lower_bound key es) e f (λ g. lower_bound-found key es g a.1) a.0
        found

  pick_in-found :
      (es : List RingEntry) (n request_key : ℕ)
      → AllEntries es
      → P (pick_in es n request_key) ⊎ ((pick_in es n request_key ≡ n) × (es ≡ []))
  unfolding pick_in
  pick_in-found [] n request_key a = inr (refl, refl)
  pick_in-found (e ∷ es) n request_key a =
      elim (Option-cases (lower_bound (key_of request_key) (e ∷ es))) [
        | inl past ↦ inl (rw (past, pick_in) a.0)
        | inr (f, found) ↦
            inl (rw (found, pick_in) (lower_bound-found (key_of request_key) (e ∷ es) f a found))
      ]

insert_entry-nil : (e : RingEntry) (es : List RingEntry) → insert_entry e es ≢ []
unfolding insert_entry
insert_entry-nil e [] h = grind arith
insert_entry-nil e (f ∷ fs) h = grind arith

sort-nil : (es : List RingEntry) → sort es ≡ [] → es ≡ []
unfolding sort
sort-nil [] h = refl
sort-nil (e ∷ es) h = absurd (insert_entry-nil e (sort es) h)

all_nodes-nil : (n : ℕ) (is : List ℕ) → n ≢ 0 → all_nodes n is ≡ [] → is ≡ []
unfolding all_nodes nodes
all_nodes-nil zero is positive h = absurd (positive refl)
all_nodes-nil (suc n) [] positive h = refl
all_nodes-nil (suc n) (i ∷ is) positive h = absurd (grind arith)

ring_pick-IsPick :
    {D : Type 0} (r : Ring) (states : List (InstanceState D)) (request_key : ℕ)
    → (r.ring_version == length states + 1) ≡ false
    → r.virtual_nodes ≢ 0
    → IsPick states (ring_pick r states request_key).0
unfolding ring_pick refresh rebuild
ring_pick-IsPick r states request_key changed positive =
    let is = healthy_indices states in
    let made = all_nodes r.virtual_nodes is in
    rw (changed, refresh)
      (elim (pick_in-found (IsHealthyAt states) (sort made) (length states) request_key (
        sort-AllEntries (IsHealthyAt states) made (
          all_nodes-AllEntries (IsHealthyAt states) r.virtual_nodes is
            (healthy_indices-IsHealthyAt states)))) [
              | inl found ↦ inl found
              | inr (past, empty) ↦ inr (
                past,
                healthy_indices-nil states
                    (all_nodes-nil r.virtual_nodes is positive (sort-nil made empty)),
              )
            ])

-- The ring is made anew only where the number of instances changes: for the same key, a second pick
-- among as many instances gives the same one, whichever of them have become unhealthy meanwhile.
pub ring_pick-again :
    {D : Type 0} (r : Ring) (states later : List (InstanceState D)) (request_key : ℕ)
    → length later ≡ length states
    → (ring_pick (ring_pick r states request_key).1 later request_key).0
      ≡ (ring_pick r states request_key).0
unfolding ring_pick refresh
ring_pick-again r states later request_key same =
    elim (Bool-cases (r.ring_version == length states + 1)) [
      | inl kept ↦ rw (same, kept, refresh, kept) refl
      | inr made ↦ rw (same, made, refresh, ==_self (length states + 1)) refl
    ]

-- All three balancers pick a healthy instance where there is one and give the number of instances where
-- there is none: power of two choices with any two draws among the healthy instances, weighted rounds
-- from any current weights, and consistent hashing where the ring is made anew with virtual nodes.
pub balancers-IsPick :
    {D : Type 0} (ops : Double D) (states : List (InstanceState D)) (x y : ℕ) (current : List D)
    (r : Ring) (request_key : ℕ)
    → (length (healthy_indices states) ≢ 0
        → (x < length (healthy_indices states)) × (y < length (healthy_indices states)))
    → (r.ring_version == length states + 1) ≡ false
    → r.virtual_nodes ≢ 0
    → ((m : ℕ) × ((p2c_pick ops states x y ≡ some m) × IsPick states m))
      × IsPick states (wrr_pick ops current states).0
      × IsPick states (ring_pick r states request_key).0
balancers-IsPick ops states x y current r request_key draws changed positive = (
  p2c_pick-IsPick ops states x y draws,
  wrr_pick-IsPick ops current states,
  ring_pick-IsPick r states request_key changed positive,
)
