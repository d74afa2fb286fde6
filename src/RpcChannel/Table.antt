-- ===== src/RpcChannel/Table.antt =====
-- src/RpcChannel.cpp, the table of pending calls: `pending_` and the queue `freeSlots_`.
use my_rpc_project.Base.{
  ℕ, zero, suc, ◌+◌, ◌≤◌, ◌<◌, ◌≡◌, refl, ap, List, [], ◌∷◌, ◌++◌, Option, none, some, length, set,
  get_elem?, count, count-append, ◌==◌, if◌then◌else◌, arith, length-append,
}
use my_rpc_project.RpcChannel.{PendingCall, active, slot_of, find_pending, take_slot}

abbrev pub Slots : Type 0
Slots = List (Option PendingCall)

abbrev vacant : Option PendingCall → ℕ
vacant none = 1
vacant (some pc) = 0

-- 1 for an empty slot of the table, 0 for a slot in use or outside the table.
pub vacancy : Slots → ℕ → ℕ
vacancy [] s = 0
vacancy (x ∷ p) zero = vacant x
vacancy (x ∷ p) (suc s) = vacancy p s

-- How often an entry is the call `c`.
abbrev pub holds : ℕ → Option PendingCall → ℕ
holds c none = 0
holds c (some pc) = if pc.call == c then 1 else 0

-- The entry of each slot carries the id of the slot, and the free queue holds the empty slots, each
-- once.
pub record IsTable (pending : Slots) (free : List ℕ) : Type 0 where
  pub ids : (s : ℕ) (pc : PendingCall) → get_elem? pending s ≡ some (some pc) → pc.id ≡ s + 1
  pub vacant : (s : ℕ) → count s free ≡ vacancy pending s

vacancy-le_one : (p : Slots) (s : ℕ) → vacancy p s ≤ 1
unfolding vacancy
vacancy-le_one [] s = omega arith
vacancy-le_one (x ∷ p) zero = ground arith
vacancy-le_one (x ∷ p) (suc s) = vacancy-le_one p s

vacant_entry : (p : Slots) (s : ℕ) → 1 ≤ vacancy p s → get_elem? p s ≡ some none
unfolding vacancy
vacant_entry [] s h = absurd (omega arith)
vacant_entry (none ∷ p) zero h = refl
vacant_entry (some pc ∷ p) zero h = absurd (omega arith)
vacant_entry (x ∷ p) (suc s) h = vacant_entry p s h

-- What writing `v` over `old` does to the table.
vacancy-set :
    (p : Slots) (i s : ℕ) (old v : Option PendingCall)
    → get_elem? p i ≡ some old
    → vacancy (set p i v) s + (if i == s then vacant old else 0)
      ≡ vacancy p s + (if i == s then vacant v else 0)
unfolding vacancy
vacancy-set [] i s old v e = cc
vacancy-set (x ∷ p) zero zero old v e = ground arith
vacancy-set (x ∷ p) zero (suc s) old v e = ground arith
vacancy-set (x ∷ p) (suc i) zero old v e = ground arith
vacancy-set (x ∷ p) (suc i) (suc s) old v e = ground (arith, vacancy-set p i s old v e)

pub count-active-set :
    (c : ℕ) (p : Slots) (i : ℕ) (old v : Option PendingCall)
    → get_elem? p i ≡ some old
    → count c (active (set p i v)) + holds c old ≡ count c (active p) + holds c v
unfolding active
count-active-set c [] i old v e = cc
count-active-set c (none ∷ p) zero old none e = ground arith
count-active-set c (none ∷ p) zero old (some pc) e = ground arith
count-active-set c (some qc ∷ p) zero old none e = ground arith
count-active-set c (some qc ∷ p) zero old (some pc) e = ground arith
count-active-set c (none ∷ p) (suc i) old v e = count-active-set c p i old v e
count-active-set c (some qc ∷ p) (suc i) old v e = ground (arith, count-active-set c p i old v e)

pub get_elem?-set :
    (p : Slots) (i s : ℕ) (old v : Option PendingCall)
    → get_elem? p i ≡ some old
    → get_elem? (set p i v) s ≡ (if i == s then some v else get_elem? p s)
get_elem?-set [] i s old v e = cc
get_elem?-set (x ∷ p) zero zero old v e = ground arith
get_elem?-set (x ∷ p) zero (suc s) old v e = ground arith
get_elem?-set (x ∷ p) (suc i) zero old v e = ground arith
get_elem?-set (x ∷ p) (suc i) (suc s) old v e = ground (arith, get_elem?-set p i s old v e)

-- What `find_pending` finds stands in the slot of the id, and carries that id.
pub find_pending-some :
    (p : Slots) (id : ℕ) (pc : PendingCall)
    → find_pending p id ≡ some pc
    → (get_elem? p (slot_of id) ≡ some (some pc)) × (pc.id ≡ id)
unfolding find_pending
find_pending-some p id pc e = ground arith

-- A slot in use is emptied and queued for reuse.
pub release-IsTable :
    (p : Slots) (free : List ℕ) (i : ℕ) (pc : PendingCall)
    → get_elem? p i ≡ some (some pc)
    → IsTable p free
    → IsTable (set p i none) (free ++ (i ∷ []))
release-IsTable p free i pc e t = record {
  ids = λ s qc h. ground (arith, get_elem?-set p i s (some pc) none e, t.ids s qc);
  vacant = λ s.
      ground (arith, count-append s free (i ∷ []), vacancy-set p i s (some pc) none e, t.vacant s);
}

get_elem?-snoc :
    (p : Slots) (v : Option PendingCall) (s : ℕ)
    → get_elem? (p ++ (v ∷ [])) s ≡ (if length p == s then some v else get_elem? p s)
get_elem?-snoc [] v zero = refl
get_elem?-snoc [] v (suc s) = ground arith
get_elem?-snoc (x ∷ p) v zero = ground arith
get_elem?-snoc (x ∷ p) v (suc s) = ground (arith, get_elem?-snoc p v s)

vacancy-snoc :
    (p : Slots) (s : ℕ)
    → vacancy (p ++ (none ∷ [])) s ≡ vacancy p s + (if length p == s then 1 else 0)
unfolding vacancy
vacancy-snoc [] zero = refl
vacancy-snoc [] (suc s) = ground arith
vacancy-snoc (x ∷ p) zero = ground arith
vacancy-snoc (x ∷ p) (suc s) = ground (arith, vacancy-snoc p s)

active-snoc : (p : Slots) → active (p ++ (none ∷ [])) ≡ active p
unfolding active
active-snoc [] = refl
active-snoc (none ∷ p) = active-snoc p
active-snoc (some pc ∷ p) = ap (◌∷◌ pc.call) (active-snoc p)

-- What a new call gets: a slot that was empty, in a table that holds the same calls and is in order
-- once the call is in it.
pub record Taken (p : Slots) (pc : PendingCall) (slot : ℕ) (q : Slots) (rest : List ℕ)
    : Type 0 where
  pub empty : get_elem? q slot ≡ some none
  pub below : slot < length p + 1
  pub size : length q ≤ length p + 1
  pub same : active q ≡ active p
  pub in_order : pc.id ≡ slot + 1 → IsTable (set q slot (some pc)) rest

pub get_elem?-lt :
    (p : Slots) (i : ℕ) (v : Option PendingCall) → get_elem? p i ≡ some v → i < length p
get_elem?-lt [] i v e = cc
get_elem?-lt (x ∷ p) zero v e = omega arith
get_elem?-lt (x ∷ p) (suc i) v e = omega (arith, get_elem?-lt p i v e)

pub take_slot-Taken :
    (p : Slots) (free : List ℕ) (pc : PendingCall)
    → IsTable p free
    → let t = take_slot p free in Taken p pc t.0 t.1 t.2
unfolding take_slot
take_slot-Taken p [] pc t = record {
  empty = ground (arith, get_elem?-snoc p none (length p));
  below = omega arith;
  size = omega (arith, length-append p (none ∷ []));
  same = active-snoc p;
  in_order = λ e. record {
    ids = λ s qc h. ground (
      arith,
      get_elem?-set (p ++ (none ∷ [])) (length p) s none (some pc),
      get_elem?-snoc p none (length p),
      get_elem?-snoc p none s,
      t.ids s qc,
    );
    vacant = λ s. ground (
      arith,
      vacancy-set (p ++ (none ∷ [])) (length p) s none (some pc),
      get_elem?-snoc p none (length p),
      vacancy-snoc p s,
      t.vacant s,
    );
  };
}
take_slot-Taken p (i ∷ rest) pc t =
    let e : get_elem? p i ≡ some none = vacant_entry p i (ground (arith, t.vacant i)) in
    record {
      empty = e;
      below = omega (arith, get_elem?-lt p i none e);
      size = omega arith;
      same = refl;
      in_order = λ k. record {
        ids = λ s qc h. ground (arith, get_elem?-set p i s none (some pc) e, t.ids s qc);
        vacant =
            λ s. ground (arith, vacancy-set p i s none (some pc) e, t.vacant s, vacancy-le_one p i);
      };
    }

pub empty-IsTable : IsTable [] []
unfolding vacancy
empty-IsTable = record { ids = λ s pc e. cc; vacant = λ s. refl }
