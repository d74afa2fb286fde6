-- ===== src/MemoryPool/Sharing.antt =====
-- include/MemoryPool.h: who has an object, and what state it is in.
use my_rpc_project.Base.{
  ℕ, zero, suc, ◌+◌, ◌<◌, ◌≡◌, refl, ap, subst, false, List, [], ◌∷◌, ◌++◌, Option, none, some,
  length, length-append, length-replicate, get_elem?, replicate, count, ltb, ◌==◌, if◌then◌else◌,
  Bool-cases, inl, inr, arith,
}
use my_rpc_project.MemoryPool.{
  MemoryPool, down_from, modify, drop_at, new_pool, take_from, acquire, give_back, release,
}

-- An object is asked for; the holder at a place of `held` gives it back, or writes to it.
pub data Event (T : Type 0) : Type 0 where
  acquires : Event T
  releases : (k : ℕ) → Event T
  writes : (k : ℕ) (value : T) → Event T

count-drop_at :
    (c k : ℕ) (xs : List ℕ) (x : ℕ)
    → get_elem? xs k ≡ some x
    → count c xs ≡ (if x == c then 1 else 0) + count c (drop_at k xs)
unfolding drop_at
count-drop_at c k [] x e = absurd (grind arith)
count-drop_at c zero (y ∷ ys) x e = let same : y ≡ x = cc in ground arith
count-drop_at c (suc k) (y ∷ ys) x e = ground (arith, count-drop_at c k ys x e)

count-down_from : (c n : ℕ) → count c (down_from n) ≡ (if ltb c n then 1 else 0)
count-down_from c zero = ground arith
count-down_from c (suc n) = ground (arith, count-down_from c n)

module _ {T : Type 0} where
  abbrev mapped : (T → T) → Option T → Option T
  mapped f none = none
  mapped f (some x) = some (f x)

  mapped_back : (f : T → T) (o : Option T) (y : T) → mapped f o ≡ some y → (x : T) × (f x ≡ y)
  mapped_back f none y e = absurd (grind arith)
  mapped_back f (some x) y e = (x, cc)

  length-modify : (f : T → T) (i : ℕ) (xs : List T) → length (modify f i xs) ≡ length xs
  unfolding modify
  length-modify f i [] = refl
  length-modify f zero (x ∷ xs) = refl
  length-modify f (suc i) (x ∷ xs) = ap suc (length-modify f i xs)

  get_elem?-modify :
      (f : T → T) (i j : ℕ) (xs : List T)
      → get_elem? (modify f i xs) j ≡ (if i == j then mapped f (get_elem? xs j) else get_elem? xs j)
  unfolding modify
  get_elem?-modify f i j [] = ground arith
  get_elem?-modify f zero zero (x ∷ xs) = refl
  get_elem?-modify f zero (suc j) (x ∷ xs) = ground arith
  get_elem?-modify f (suc i) zero (x ∷ xs) = ground arith
  get_elem?-modify f (suc i) (suc j) (x ∷ xs) = ground (arith, get_elem?-modify f i j xs)

  modify_apart :
      (f : T → T) (i j : ℕ) (xs : List T) (x : T)
      → (i == j) ≡ false
      → get_elem? (modify f i xs) j ≡ some x
      → get_elem? xs j ≡ some x
  modify_apart f i j xs x other e = ground (arith, get_elem?-modify f i j xs)

  get_elem?-snoc :
      (xs : List T) (x : T) (j : ℕ)
      → get_elem? (xs ++ (x ∷ [])) j ≡ (if j == length xs then some x else get_elem? xs j)
  get_elem?-snoc [] x zero = refl
  get_elem?-snoc [] x (suc j) = ground arith
  get_elem?-snoc (y ∷ ys) x zero = ground arith
  get_elem?-snoc (y ∷ ys) x (suc j) = ground (arith, get_elem?-snoc ys x j)

  get_elem?-lt : (xs : List T) (j : ℕ) → j < length xs → (x : T) × (get_elem? xs j ≡ some x)
  get_elem?-lt [] j h = absurd (omega arith)
  get_elem?-lt (x ∷ xs) zero h = (x, refl)
  get_elem?-lt (x ∷ xs) (suc j) h = get_elem?-lt xs j (omega arith)

  get_elem?-replicate : (n : ℕ) (x y : T) (j : ℕ) → get_elem? (replicate n x) j ≡ some y → x ≡ y
  get_elem?-replicate zero x y j e = absurd (grind arith)
  get_elem?-replicate (suc n) x y zero e = cc
  get_elem?-replicate (suc n) x y (suc j) e = get_elem?-replicate n x y j e

-- `IsClean` is what `reset` brings about, and what a new object is.
module _ {T : Type 0} (fresh : T) (reset : T → T) (IsClean : T → Type 0)
    (clean_fresh : IsClean fresh) (clean_reset : (x : T) → IsClean (reset x)) where
  unfoldable pub write : MemoryPool T → T → Option ℕ → MemoryPool T
  write p value none = p
  write p value (some i) = record p { storage = modify (λ x. value) i p.storage }

  unfoldable pub step : MemoryPool T → Event T → MemoryPool T
  step p acquires = (acquire fresh reset p).1
  step p (releases k) = release fresh reset p k
  step p (writes k value) = write p value (get_elem? p.held k)

  unfoldable pub run : MemoryPool T → List (Event T) → MemoryPool T
  run p [] = p
  run p (e ∷ es) = run (step p e) es

  -- Each object is on the free list or with one holder, and is clean if it is free.
  record IsShared (p : MemoryPool T) : Type 0 where
    once :
        (i : ℕ) → count i p.free_list + count i p.held ≡ (if ltb i (length p.storage) then 1 else 0)
    clean : (i : ℕ) (x : T) → get_elem? p.storage i ≡ some x → 0 < count i p.free_list → IsClean x

  take_from-IsShared :
      (p : MemoryPool T) (free : List ℕ)
      → p.free_list ≡ free
      → IsShared p
      → IsShared (take_from fresh reset p free).1
  unfolding take_from
  take_from-IsShared p [] e s = record {
    once = λ i. ground (arith, s.once i, ap (count i) e, length-append p.storage (fresh ∷ []));
    clean = λ i x there free. absurd (ground (arith, ap (count i) e));
  }
  take_from-IsShared p (j ∷ rest) e s = record {
    once = λ i. ground (arith, s.once i, ap (count i) e);
    clean = λ i x there free. s.clean i x there (ground (arith, ap (count i) e));
  }

  -- The object that `acquire` takes from a free list.
  taken :
      (p : MemoryPool T) (free : List ℕ)
      → p.free_list ≡ free
      → IsShared p
      → let i = (take_from fresh reset p free).0 in
        count i p.held ≡ 0
        × (x : T) × (get_elem? (take_from fresh reset p free).1.storage i ≡ some x)
        × IsClean x
  unfolding take_from
  taken p [] e s = (
    ground (arith, s.once (length p.storage)),
    fresh,
    ground (arith, get_elem?-snoc p.storage fresh (length p.storage)),
    clean_fresh,
  )
  taken p (j ∷ rest) e s =
      let free : 0 < count j p.free_list = ground (arith, ap (count j) e) in
      let (x, there) = get_elem?-lt p.storage j (ground (arith, s.once j)) in
      (ground (arith, s.once j), x, there, s.clean j x there free)

  give_back-IsShared :
      (p : MemoryPool T) (k : ℕ) (o : Option ℕ)
      → get_elem? p.held k ≡ o
      → IsShared p
      → IsShared (give_back fresh reset p k o)
  unfolding give_back
  give_back-IsShared p k none e s = s
  give_back-IsShared p k (some i) e s = record {
    once = λ j.
        ground (arith, s.once j, count-drop_at j k p.held i e, length-modify reset i p.storage);
    clean = λ j x there free. elim (Bool-cases (i == j)) [
      | inl same ↦
          let y =
            mapped_back reset (get_elem? p.storage j) x
              (ground (arith, get_elem?-modify reset i j p.storage)) in
          subst IsClean y.1 (clean_reset y.0)
      | inr other ↦ s.clean j x (modify_apart reset i j p.storage x other there) (ground arith)
    ];
  }

  write-IsShared :
      (p : MemoryPool T) (k : ℕ) (value : T) (o : Option ℕ)
      → get_elem? p.held k ≡ o
      → IsShared p
      → IsShared (write p value o)
  unfolding write
  write-IsShared p k value none e s = s
  write-IsShared p k value (some i) e s = record {
    once = λ j. ground (arith, s.once j, length-modify (λ x. value) i p.storage);
    clean = λ j x there free. elim (Bool-cases (i == j)) [
      | inl same ↦ absurd (ground (arith, s.once j, count-drop_at j k p.held i e))
      | inr other ↦ s.clean j x (modify_apart (λ y. value) i j p.storage x other there) free
    ];
  }

  step-IsShared : (p : MemoryPool T) (e : Event T) → IsShared p → IsShared (step p e)
  unfolding step acquire release
  step-IsShared p acquires s = take_from-IsShared p p.free_list refl s
  step-IsShared p (releases k) s = give_back-IsShared p k (get_elem? p.held k) refl s
  step-IsShared p (writes k value) s = write-IsShared p k value (get_elem? p.held k) refl s

  run-IsShared : (es : List (Event T)) (p : MemoryPool T) → IsShared p → IsShared (run p es)
  unfolding run
  run-IsShared [] p s = s
  run-IsShared (e ∷ es) p s = run-IsShared es (step p e) (step-IsShared p e s)

  new_pool-IsShared : (size : ℕ) → IsShared (new_pool fresh reset size)
  new_pool-IsShared size = record {
    once = λ i. ground (arith, count-down_from i size, length-replicate size fresh);
    clean = λ i x there free. subst IsClean (get_elem?-replicate size fresh x i there) clean_fresh;
  }

  -- Whatever the callers of a new pool did, whatever they wrote to the objects they held: the object
  -- that `acquire` returns is one that no caller holds, and its state is that of a new or reset object.
  pub acquire-IsClean :
      (size : ℕ) (es : List (Event T))
      → let p = run (new_pool fresh reset size) es in
        let (i, q) = acquire fresh reset p in
        count i p.held ≡ 0 × (x : T) × (get_elem? q.storage i ≡ some x) × IsClean x
  unfolding acquire
  acquire-IsClean size es =
      let p = run (new_pool fresh reset size) es in
      taken p p.free_list refl
        (run-IsShared es (new_pool fresh reset size) (new_pool-IsShared size))
