-- ===== src/Histogram/Buckets.antt =====
-- src/Histogram.cpp: what the rendered counts stand for.
use my_rpc_project.Base.{
  ℕ, zero, suc, ◌+◌, ◌%◌, ◌^◌, ◌<◌, ◌≡◌, refl, sym, ap, ap₂, subst, ◌∙◌, Bool, true, List, [], ◌∷◌,
  map, length, replicate, length-replicate, All, if◌then◌else◌, Bool-cases, inl, inr, arith,
}
use mathlib.Core.Path.{fun_ext}
use my_rpc_project.Histogram.{
  Histogram, new_histogram, increment, cumulate, render, upper_bound, observe,
}

module _ {D : Type 0} (below : D → D → Bool) (add : D → D → D) where
  -- What is below a bound is below the later ones.
  abbrev pub IsIncreasing : List D → Type 0
  IsIncreasing [] = Unit
  IsIncreasing (b ∷ bs) =
      All (λ c. (v : D) → below v b ≡ true → below v c ≡ true) bs × IsIncreasing bs

  unfoldable pub observe_all : Histogram D → List D → Histogram D
  observe_all h [] = h
  observe_all h (v ∷ vs) = observe_all (observe below add h v) vs

  -- How many values are below a bound.
  unfoldable pub how_many : D → List D → ℕ
  how_many b [] = 0
  how_many b (v ∷ vs) = (if below v b then 1 else 0) + how_many b vs

  abbrev raise : D → D × ℕ → D × ℕ
  raise v (b, n) = (b, (n + (if below v b then 1 else 0)) % 2 ^ 64)

  -- Where all bounds are above the value, one more before them is one more for each.
  cumulate-more :
      (v : D) (m n : ℕ) (bs : List D) (cs : List ℕ)
      → n ≡ (m + 1) % 2 ^ 64
      → length cs ≡ suc (length bs)
      → All (λ b. below v b ≡ true) bs
      → ((cumulate n bs cs).0 ≡ map (raise v) (cumulate m bs cs).0)
        × ((cumulate n bs cs).1 ≡ ((cumulate m bs cs).1 + 1) % 2 ^ 64)
  unfolding cumulate
  cumulate-more v m n bs [] e l a = absurd (omega arith)
  cumulate-more v m n [] (c ∷ cs) e l a = (refl, omega arith)
  cumulate-more v m n (b ∷ bs) (c ∷ cs) e l a =
      let grown : (n + c) % 2 ^ 64 ≡ ((m + c) % 2 ^ 64 + 1) % 2 ^ 64 = omega arith in
      let (lines, last) =
        cumulate-more v ((m + c) % 2 ^ 64) ((n + c) % 2 ^ 64) bs cs grown (omega arith) a.1 in
      let head : (n + c) % 2 ^ 64 ≡ ((m + c) % 2 ^ 64 + (if below v b then 1 else 0)) % 2 ^ 64 =
        rw a.0 grown in
      (ap₂ ◌∷◌ (ap (λ (k : ℕ). (b, k)) head) lines, last)

  length-increment : (i : ℕ) (cs : List ℕ) → length (increment i cs) ≡ length cs
  unfolding increment
  length-increment i [] = refl
  length-increment zero (c ∷ cs) = refl
  length-increment (suc i) (c ∷ cs) = ap suc (length-increment i cs)

  each_under :
      (v b : D) (bs : List D)
      → below v b ≡ true
      → All (λ c. (w : D) → below w b ≡ true → below w c ≡ true) bs
      → All (λ c. below v c ≡ true) bs
  each_under v b [] h a = tt
  each_under v b (c ∷ bs) h a = (a.0 v h, each_under v b bs h a.1)

  -- A value raises the lines of the bounds that it is below, and the last one.
  cumulate-increment :
      (v : D) (m : ℕ) (bs : List D) (cs : List ℕ)
      → m < 2 ^ 64
      → length cs ≡ suc (length bs)
      → IsIncreasing bs
      → let old = cumulate m bs cs in
        let new = cumulate m bs (increment (upper_bound below add v bs) cs) in
        (new.0 ≡ map (raise v) old.0) × (new.1 ≡ (old.1 + 1) % 2 ^ 64)
  unfolding cumulate increment upper_bound
  cumulate-increment v m bs [] small l s = absurd (omega arith)
  cumulate-increment v m [] (c ∷ cs) small l s = (refl, omega arith)
  cumulate-increment v m (b ∷ bs) (c ∷ cs) small l s = elim (Bool-cases (below v b)) [
    | inl under ↦
        let grown : (m + (c + 1) % 2 ^ 64) % 2 ^ 64 ≡ ((m + c) % 2 ^ 64 + 1) % 2 ^ 64 =
          omega arith in
        let (lines, last) =
          cumulate-more v ((m + c) % 2 ^ 64) ((m + (c + 1) % 2 ^ 64) % 2 ^ 64) bs cs grown
            (omega arith) (each_under v b bs under s.0) in
        rw under (ap₂ ◌∷◌ (ap (λ (k : ℕ). (b, k)) grown) lines, last)
    | inr over ↦
        let (lines, last) =
          cumulate-increment v ((m + c) % 2 ^ 64) bs cs (omega arith) (omega arith) s.1 in
        let same : (m + c) % 2 ^ 64 ≡ ((m + c) % 2 ^ 64 + 0) % 2 ^ 64 = omega arith in
        rw over (ap₂ ◌∷◌ (ap (λ (k : ℕ). (b, k)) same) lines, last)
  ]

  -- The lines stand for `k` values below each bound, and the last one and the count for `t` values.
  record Counts (bounds : List D) (k : D → ℕ) (t : ℕ) (h : Histogram D) : Type 0 where
    same : h.bounds ≡ bounds
    sized : length h.counts ≡ suc (length h.bounds)
    lines : (render h).0 ≡ map (λ b. (b, k b % 2 ^ 64)) bounds
    last : (render h).1 ≡ t % 2 ^ 64
    total : h.count ≡ t % 2 ^ 64

  map-raise :
      (v : D) (k : D → ℕ) (bs : List D)
      → map (raise v) (map (λ b. (b, k b % 2 ^ 64)) bs)
        ≡ map (λ b. (b, (k b + (if below v b then 1 else 0)) % 2 ^ 64)) bs
  map-raise v k [] = refl
  map-raise v k (b ∷ bs) =
      let n : (k b % 2 ^ 64 + (if below v b then 1 else 0)) % 2 ^ 64
          ≡ (k b + (if below v b then 1 else 0)) % 2 ^ 64 =
        omega arith in
      ap₂ ◌∷◌ (ap (λ (i : ℕ). (b, i)) n) (map-raise v k bs)

  observe-Counts :
      (bounds : List D) (k : D → ℕ) (t : ℕ) (h : Histogram D) (v : D)
      → IsIncreasing bounds
      → Counts bounds k t h
      → Counts bounds (λ b. k b + (if below v b then 1 else 0)) (t + 1) (observe below add h v)
  unfolding observe render
  observe-Counts bounds k t h v s c =
      let (lines, last) =
        cumulate-increment v 0 h.bounds h.counts (omega arith) c.sized
          (subst IsIncreasing (sym c.same) s) in
      record {
        same = c.same;
        sized = length-increment (upper_bound below add v h.bounds) h.counts ∙ c.sized;
        lines = lines ∙ ap (map (raise v)) c.lines ∙ map-raise v k bounds;
        last = omega (arith, last, c.last);
        total = omega (arith, c.total);
      }

  observe_all-Counts :
      (bounds : List D) (k : D → ℕ) (t : ℕ) (h : Histogram D) (vs : List D)
      → IsIncreasing bounds
      → Counts bounds k t h
      → Counts bounds (λ b. k b + how_many b vs) (t + length vs) (observe_all h vs)
  unfolding observe_all how_many
  observe_all-Counts bounds k t h [] s c = record {
    same = c.same;
    sized = c.sized;
    lines = c.lines ∙ ap (λ g. map g bounds) (fun_ext (λ b. ap (λ n. (b, n)) (omega arith)));
    last = omega (arith, c.last);
    total = omega (arith, c.total);
  }
  observe_all-Counts bounds k t h (v ∷ vs) s c =
      let r =
        observe_all-Counts bounds (λ b. k b + (if below v b then 1 else 0)) (t + 1)
          (observe below add h v) vs s (observe-Counts bounds k t h v s c) in
      record {
        same = r.same;
        sized = r.sized;
        lines = r.lines ∙ ap (λ g. map g bounds) (fun_ext (λ b. ap (λ n. (b, n)) (omega arith)));
        last = omega (arith, r.last);
        total = omega (arith, r.total);
      }

  zeros :
      (m : ℕ) (bs : List D)
      → m ≡ 0
      → ((cumulate m bs (replicate (suc (length bs)) 0)).0 ≡ map (λ b. (b, 0)) bs)
        × ((cumulate m bs (replicate (suc (length bs)) 0)).1 ≡ 0)
  unfolding cumulate
  zeros m [] e = (refl, omega arith)
  zeros m (b ∷ bs) e =
      let n : (m + 0) % 2 ^ 64 ≡ 0 = omega arith in
      let (lines, last) = zeros ((m + 0) % 2 ^ 64) bs n in
      (ap₂ ◌∷◌ (ap (λ (i : ℕ). (b, i)) n) lines, last)

  -- After any observations of a new histogram whose bounds increase: the line of each bound has the
  -- number of values that are below it, strictly, and the line of +Inf and the count have the number of
  -- all values, each up to 2^64.
  pub render-how_many :
      (zero_ms : D) (bounds vs : List D)
      → IsIncreasing bounds
      → let h = observe_all (new_histogram zero_ms bounds) vs in
        ((render h).0 ≡ map (λ b. (b, how_many b vs % 2 ^ 64)) bounds)
        × ((render h).1 ≡ length vs % 2 ^ 64)
        × (h.count ≡ length vs % 2 ^ 64)
  render-how_many zero_ms bounds vs s =
      let (lines, last) = zeros 0 bounds refl in
      let start : Counts bounds (λ b. 0) 0 (new_histogram zero_ms bounds) = record {
        same = refl;
        sized = length-replicate (suc (length bounds)) 0;
        lines = unfold render in lines;
        last = unfold render in last;
        total = refl;
      } in
      let c = observe_all-Counts bounds (λ b. 0) 0 (new_histogram zero_ms bounds) vs s start in
      (
        c.lines ∙ ap (λ g. map g bounds) (fun_ext (λ b. ap (λ n. (b, n)) (omega arith))),
        omega (arith, c.last),
        omega (arith, c.total),
      )
