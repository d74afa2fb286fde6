-- ===== src/CircuitBreaker/Probes.antt =====
-- src/CircuitBreaker.cpp: what an open circuit lets through, and how long it stays open.
use my_rpc_project.Base.{
  ℕ, ◌+◌, ◌-◌, ◌≤◌, ◌<◌, ◌≡◌, refl, Bool, true, false, List, [], ◌∷◌, ◌++◌, All, leb, inl, inr,
  Bool-cases, if_elim, if◌then◌else◌, arith,
}
use my_rpc_project.CircuitBreaker.{
  CircuitBreaker, State, Bucket, roll_window, last_is_old, record_outcome, count_last, decide,
  allow_request, on_success, on_error,
}

-- A request asks for leave, or a result comes in.
pub data Event : Type 0 where
  asks succeeds fails : (now : ℕ) → Event

abbrev pub time_of : Event → ℕ
time_of (asks now) = now
time_of (succeeds now) = now
time_of (fails now) = now

abbrev pub IsRequest : Event → Type 0
IsRequest (asks now) = Unit
IsRequest _ = ⊥

-- The requests that are let through.
unfoldable pub passed : List Bool → ℕ
passed [] = 0
passed (b ∷ bs) = (if b then 1 else 0) + passed bs

-- The circuit stands open, as it was opened.
record StandsOpen (opened_at isolation : ℕ) (c : CircuitBreaker) : Type 0 where
  is_open : c.state ≡ State.open_circuit
  opened : c.opened_at ≡ opened_at
  isolated : c.last_isolation ≡ isolation

pub record_outcome-keeps :
    (P : CircuitBreaker → Type 0)
    → ((c : CircuitBreaker) (bs : List Bucket) → P c → P (record c { buckets = bs }))
    → (c : CircuitBreaker) (error : Bool) (now : ℕ) → P c
    → P (record_outcome c error now)
unfolding record_outcome roll_window
record_outcome-keeps P with_buckets c error now p =
    if_elim (λ d. P (record d { buckets = count_last error d.buckets }))
      (last_is_old c.window_ms now c.buckets) (with_buckets c _ p) (with_buckets c _ p)

module _ (over_threshold : ℕ → ℕ → Bool) where
  unfoldable pub answer : CircuitBreaker → Event → List Bool × CircuitBreaker
  answer c (asks now) = let (ok, d) = allow_request over_threshold c now in (ok ∷ [], d)
  answer c (succeeds now) = ([], on_success c now)
  answer c (fails now) = ([], on_error c now)

  -- The answers to the requests, in order, and the breaker.
  unfoldable pub run : CircuitBreaker → List Event → List Bool × CircuitBreaker
  unfolding answer
  run c [] = ([], c)
  run c (e ∷ es) = let (oks, d) = answer c e in let (more, last) = run d es in (oks ++ more, last)

  passed-append : (xs ys : List Bool) → passed (xs ++ ys) ≡ passed xs + passed ys
  unfolding passed
  passed-append [] ys = omega arith
  passed-append (x ∷ xs) ys = omega (arith, passed-append xs ys)

  closed_for :
      (o i : ℕ) (c : CircuitBreaker) (e : Event)
      → time_of e - o < i
      → StandsOpen o i c
      → StandsOpen o i (answer c e).1 × (passed (answer c e).0 ≡ 0)
  unfolding answer allow_request decide roll_window on_success on_error passed
  closed_for o i c (asks now) h s =
      let shut : leb c.last_isolation (now - c.opened_at) ≡ false =
        ground (arith, s.isolated, s.opened) in
      rw (s.is_open, shut)
        (record { is_open = refl; opened = s.opened; isolated = s.isolated }, refl)
  closed_for o i c (succeeds now) h s = rw s.is_open (
    record_outcome-keeps (StandsOpen o i)
        (λ d bs k. record { is_open = k.is_open; opened = k.opened; isolated = k.isolated })
        (record (roll_window c now) { state = State.open_circuit }) false now
        (record { is_open = refl; opened = s.opened; isolated = s.isolated }),
    refl,
  )
  closed_for o i c (fails now) h s = rw s.is_open (
    record_outcome-keeps (StandsOpen o i)
        (λ d bs k. record { is_open = k.is_open; opened = k.opened; isolated = k.isolated })
        (record (roll_window c now) { state = State.open_circuit }) true now
        (record { is_open = refl; opened = s.opened; isolated = s.isolated }),
    refl,
  )

  run-StandsOpen :
      (o i : ℕ) (c : CircuitBreaker) (es : List Event)
      → All (λ e. time_of e - o < i) es
      → StandsOpen o i c
      → StandsOpen o i (run c es).1 × (passed (run c es).0 ≡ 0)
  unfolding run passed
  run-StandsOpen o i c [] a s = (s, refl)
  run-StandsOpen o i c (e ∷ es) a s =
      let (t, none_now) = closed_for o i c e a.0 s in
      let (u, none_later) = run-StandsOpen o i (answer c e).1 es a.1 t in
      (
        u,
        omega (arith, none_now, none_later, passed-append (answer c e).0 (run (answer c e).1 es).0),
      )

  -- An open circuit lets no request through before its isolation is over, whatever results of
  -- earlier requests come in, and stays open as it is.
  pub run-open :
      (c : CircuitBreaker) (es : List Event)
      → c.state ≡ State.open_circuit
      → All (λ e. time_of e - c.opened_at < c.last_isolation) es
      → (passed (run c es).0 ≡ 0) × ((run c es).1.state ≡ State.open_circuit)
  run-open c es e a =
      let (s, none_passed) =
        run-StandsOpen c.opened_at c.last_isolation c es a
          (record { is_open = e; opened = refl; isolated = refl }) in
      (none_passed, s.is_open)

  run-half_open :
      (c : CircuitBreaker) (es : List Event)
      → c.state ≡ State.half_open
      → All IsRequest es
      → (passed (run c es).0 ≡ 0) × ((run c es).1.state ≡ State.half_open)
  unfolding run answer allow_request roll_window decide passed
  run-half_open c [] e a = (refl, e)
  run-half_open c (asks now ∷ es) e a =
      let (none_passed, still) =
        run-half_open (record (roll_window c now) { state = State.half_open }) es refl a.1 in
      rw e (omega (arith, none_passed), still)
  run-half_open c (succeeds now ∷ es) e a = absurd a.0
  run-half_open c (fails now ∷ es) e a = absurd a.0

  -- Until a result comes in, at most one request passes an open circuit, however many ask and when.
  pub run-one_probe :
      (c : CircuitBreaker) (es : List Event)
      → c.state ≡ State.open_circuit
      → All IsRequest es
      → passed (run c es).0 ≤ 1
  unfolding run answer allow_request roll_window decide passed
  run-one_probe c [] e a = omega arith
  run-one_probe c (asks now ∷ es) e a =
      elim (Bool-cases (leb c.last_isolation (now - c.opened_at))) [
        | inl over ↦
            rw (e, over)
              (omega (
                arith,
                (run-half_open (record (roll_window c now) { state = State.half_open }) es refl
                    a.1).0,
              ))
        | inr shut ↦
            rw (e, shut)
              (omega (
                arith,
                run-one_probe (record (roll_window c now) { state = State.open_circuit }) es refl
                    a.1,
              ))
      ]
  run-one_probe c (succeeds now ∷ es) e a = absurd a.0
  run-one_probe c (fails now ∷ es) e a = absurd a.0
