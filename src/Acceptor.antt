-- ===== src/Acceptor.antt =====
-- include/Acceptor.h and src/Acceptor.cpp as built for Linux, with its socket bound. The answers of
-- `accept` are a list, after which it has no connection to give.
use my_rpc_project.Base.{ℕ, Bool, true, false, List, [], ◌∷◌, if◌then◌else◌}

-- What a call of `accept` does: a descriptor, or an `errno`.
pub data Accepted : Type 0 where
  gives : (connfd : ℕ) → Accepted
  interrupted : Accepted
  again : Accepted
  fails : Accepted

pub record Acceptor : Type 0 where
  pub listening : Bool
  pub reading : Bool

abbrev pub bound : Acceptor
bound = record { listening = false; reading = false }

-- Whether the call returns, and the acceptor; `listened` is the answer of the system call.
unfoldable pub listen : Bool → Acceptor → Bool × Acceptor
listen listened a =
    if a.listening
    then (true, a)
    else if listened
    then (true, record { listening = true; reading = true })
    else (false, a)

unfoldable pub stop : Acceptor → Acceptor
stop a = if a.listening then record { listening = false; reading = false } else a

-- With the callback, and what it changes.
unfoldable pub handle_read {ℓ} : {S : Type ℓ} → (ℕ → S → S) → List Accepted → S → S
handle_read callback [] s = s
handle_read callback (gives connfd ∷ more) s = handle_read callback more (callback connfd s)
handle_read callback (interrupted ∷ more) s = handle_read callback more s
handle_read callback (again ∷ more) s = s
handle_read callback (fails ∷ more) s = s
