-- ===== src/Base/Maps.antt =====
-- `std::map` from numbers: a list of keys and values in the order of the keys.
use my_rpc_project.Base.Compare.{ltb, ◌==◌, if◌then◌else◌, Bool-cases, ltb→lt}
use my_rpc_project.Base.Lists.{All}
use Prim.Native.Nat.{ℕ, ◌<◌}
use mathlib.Core.Path.{◌≡◌, refl}
use mathlib.Core.Logic.{inl, inr}
use mathlib.Core.Bool.{Bool, true, false}
use mathlib.Core.Option.{Option, none, some}
use mathlib.Core.List.{List, [], ◌∷◌}
use native.Mathlib.Omega.{arith}

abbrev pub Map : Type 0 → Type 0
Map V = List (ℕ × V)

module _ {V : Type 0} where
  -- `find`, with none for `end()`.
  unfoldable pub find : ℕ → Map V → Option V
  find k [] = none
  find k ((j, v) ∷ m) = if j == k then some v else find k m

  -- `m[k] = v`.
  unfoldable pub insert : ℕ → V → Map V → Map V
  insert k v [] = (k, v) ∷ []
  insert k v ((j, w) ∷ m) =
      if ltb k j then (k, v) ∷ (j, w) ∷ m else if j == k then (k, v) ∷ m else (j, w) ∷ insert k v m

  unfoldable pub erase : ℕ → Map V → Map V
  erase k [] = []
  erase k ((j, v) ∷ m) = if j == k then m else (j, v) ∷ erase k m

  -- The loop that erases the entries that fail a test.
  unfoldable pub keep_if : (V → Bool) → Map V → Map V
  keep_if test [] = []
  keep_if test ((j, v) ∷ m) = if test v then (j, v) ∷ keep_if test m else keep_if test m

  -- Whether it erases any.
  unfoldable pub all_kept : (V → Bool) → Map V → Bool
  all_kept test [] = true
  all_kept test ((j, v) ∷ m) = if test v then all_kept test m else false

  -- All keys are above `k`, and the keys are in order, each once.
  abbrev pub IsAbove : ℕ → Map V → Type 0
  IsAbove k m = All (λ (e : ℕ × V). k < e.0) m

  unfoldable pub IsSorted : Map V → Type 0
  IsSorted [] = Unit
  IsSorted ((j, v) ∷ m) = IsAbove j m × IsSorted m

  pub find-IsAbove : (k : ℕ) (m : Map V) → IsAbove k m → find k m ≡ none
  unfolding find
  find-IsAbove k [] a = refl
  find-IsAbove k ((j, v) ∷ m) a = ground (arith, find-IsAbove k m a.1)

  IsAbove-trans : (j k : ℕ) (m : Map V) → j < k → IsAbove k m → IsAbove j m
  IsAbove-trans j k [] h a = tt
  IsAbove-trans j k ((i, v) ∷ m) h a = (omega (arith, a.0), IsAbove-trans j k m h a.1)

  pub find-insert :
      (k j : ℕ) (v : V) (m : Map V) → find j (insert k v m) ≡ (if k == j then some v else find j m)
  unfolding find insert
  find-insert k j v [] = refl
  find-insert k j v ((i, w) ∷ m) = ground (arith, find-insert k j v m)

  pub find-erase :
      (k j : ℕ) (m : Map V) → IsSorted m → find j (erase k m) ≡ (if k == j then none else find j m)
  unfolding find erase IsSorted
  find-erase k j [] s = ground arith
  find-erase k j ((i, w) ∷ m) s = ground (arith, find-erase k j m s.1, find-IsAbove i m s.0)

  -- What a test leaves of an entry.
  abbrev pub kept : (V → Bool) → Option V → Option V
  kept test none = none
  kept test (some v) = if test v then some v else none

  pub find-keep_if :
      (test : V → Bool) (j : ℕ) (m : Map V)
      → IsSorted m
      → find j (keep_if test m) ≡ kept test (find j m)
  unfolding find keep_if IsSorted
  find-keep_if test j [] s = refl
  find-keep_if test j ((i, w) ∷ m) s =
      ground (arith, find-keep_if test j m s.1, find-IsAbove i m s.0)

  IsAbove-insert : (i k : ℕ) (v : V) (m : Map V) → i < k → IsAbove i m → IsAbove i (insert k v m)
  unfolding insert
  IsAbove-insert i k v [] h a = (h, tt)
  IsAbove-insert i k v ((j, w) ∷ m) h a = ground (arith, IsAbove-insert i k v m h a.1)

  pub insert-IsSorted : (k : ℕ) (v : V) (m : Map V) → IsSorted m → IsSorted (insert k v m)
  unfolding insert IsSorted
  insert-IsSorted k v [] s = (tt, tt)
  insert-IsSorted k v ((j, w) ∷ m) s = elim (Bool-cases (ltb k j)) [
    | inl below ↦ rw below ((ltb→lt k j below, IsAbove-trans k j m (ltb→lt k j below) s.0), s)
    | inr not_below ↦ elim (Bool-cases (j == k)) [
      | inl same ↦ rw (not_below, same) (ground (arith, s.0), s.1)
      | inr above ↦
          rw (not_below, above)
            (IsAbove-insert j k v m (ground arith) s.0, insert-IsSorted k v m s.1)
    ]
  ]

  IsAbove-erase : (i k : ℕ) (m : Map V) → IsAbove i m → IsAbove i (erase k m)
  unfolding erase
  IsAbove-erase i k [] a = tt
  IsAbove-erase i k ((j, w) ∷ m) a = ground (arith, IsAbove-erase i k m a.1)

  pub erase-IsSorted : (k : ℕ) (m : Map V) → IsSorted m → IsSorted (erase k m)
  unfolding erase IsSorted
  erase-IsSorted k [] s = tt
  erase-IsSorted k ((j, w) ∷ m) s = ground (arith, IsAbove-erase j k m s.0, erase-IsSorted k m s.1)

  IsAbove-keep_if : (i : ℕ) (test : V → Bool) (m : Map V) → IsAbove i m → IsAbove i (keep_if test m)
  unfolding keep_if
  IsAbove-keep_if i test [] a = tt
  IsAbove-keep_if i test ((j, w) ∷ m) a = ground (arith, IsAbove-keep_if i test m a.1)

  pub keep_if-IsSorted : (test : V → Bool) (m : Map V) → IsSorted m → IsSorted (keep_if test m)
  unfolding keep_if IsSorted
  keep_if-IsSorted test [] s = tt
  keep_if-IsSorted test ((j, w) ∷ m) s =
      ground (arith, IsAbove-keep_if j test m s.0, keep_if-IsSorted test m s.1)
