-- ===== src/RegistryClient/Remote.antt =====
-- src/RegistryClient.cpp and src/rpc_registry_server.cpp together, call by call.
use my_rpc_project.Base.{
  ℕ, ◌^◌, ◌<◌, ◌≡◌, refl, ap, ◌∙◌, sym, List, [], ◌∷◌, ◌++◌, Option, none, some, All,
}
use my_rpc_project.Protocol.{Status}
use my_rpc_project.Serializer.{Value}
use my_rpc_project.LocalRegistry.{
  LocalRegistry, InstanceInfo, unregister, renew_lease, lookup, watch, sweep_all,
}
use my_rpc_project.RegistryServer.{
  find, find_field, str, num, instance_values, on_register, on_unregister, on_renew, on_lookup,
  on_watch,
}
use my_rpc_project.RegistryClient.{
  register_request, instance_request, lookup_request, read_instances, read_lookup, read_array,
}
use my_rpc_project.LocalRegistry.Events.{
  Event, registers, unregisters, renews, looks_up, watches, sweeps, step, run,
}
use my_rpc_project.RegistryClient.Values.{read_instances-instance_values, on_register_lem}
use my_rpc_project.RegistryClient.Ports.{FitPorts, FitsPort, lookup-FitPorts, step-FitPorts}

-- What the client asks the server: `poll` is one turn of `watchLoop`, whose loop makes a call for each.
-- `done` stands for the callback that answers the poll.
pub data Request : Type 0 where
  registration : InstanceInfo → (lease_ms now : ℕ) → Request
  removal renewal : (service instance_id now : ℕ) → Request
  query : (service now : ℕ) → Request
  poll : (service done now : ℕ) → Request

-- What becomes of a call: it is answered in time; its request arrives, and it ends without an answer; or
-- its request does not arrive.
pub data Fate : Type 0 where
  answered : Fate
  unanswered : Fate
  lost : Fate

pub data Action : Type 0 where
  calls : Request → Fate → Action
  sweep : (now : ℕ) → Action

-- What a request asks of the registry.
abbrev pub asked : Request → Event
asked (registration info lease_ms now) = registers info lease_ms now
asked (removal service instance_id now) = unregisters service instance_id now
asked (renewal service instance_id now) = renews service instance_id now
asked (query service now) = looks_up service now
asked (poll service done now) = watches service done now

-- The events that reach the registry.
abbrev pub reached : Action → List Event
reached (calls q lost) = []
reached (calls q answered) = asked q ∷ []
reached (calls q unanswered) = asked q ∷ []
reached (sweep now) = sweeps now ∷ []

unfoldable pub reached_by : List Action → List Event
reached_by [] = []
reached_by (a ∷ rest) = reached a ++ reached_by rest

-- The port and the lease of a registration fit their types.
abbrev pub Fits : Action → Type 0
Fits (calls (registration info lease_ms now) fate) = (info.port < 2 ^ 16) × (lease_ms < 2 ^ 32)
Fits _ = Unit

module _ (name_of : ℕ → List ℕ) (number_of : List ℕ → ℕ)
    (named : (service : ℕ) → number_of (name_of service) ≡ service) where
  -- What a call gives the client: the status, none where it has no answer, and the instances that
  -- `lookup` reads, which are read from an empty value where it has none.
  abbrev pub Outcome : Type 0
  Outcome = Option Status × Option (List InstanceInfo)

  abbrev plain : Status × LocalRegistry → Outcome × LocalRegistry
  plain (status, after) = ((some status, some []), after)

  abbrev held : Option Status × LocalRegistry → Outcome × LocalRegistry
  held (status, after) = ((status, some []), after)

  abbrev read : Status × Value × LocalRegistry → Outcome × LocalRegistry
  read (status, resp, after) = ((some status, read_lookup name_of number_of resp), after)

  -- A request on the server, and what its answer gives.
  unfoldable pub serve : LocalRegistry → Request → Outcome × LocalRegistry
  serve r (registration info lease_ms now) =
      plain (on_register name_of number_of r now (register_request name_of number_of info lease_ms))
  serve r (removal service instance_id now) =
      plain
        (on_unregister name_of number_of r (instance_request name_of number_of service instance_id))
  serve r (renewal service instance_id now) =
      plain
        (on_renew name_of number_of r now (instance_request name_of number_of service instance_id))
  serve r (query service now) =
      read (on_lookup name_of number_of r now (lookup_request name_of number_of service))
  serve r (poll service done now) =
      held (on_watch name_of number_of r done (lookup_request name_of number_of service))

  abbrev no_answer : Outcome
  no_answer = (none, read_lookup name_of number_of Value.null)

  -- The sweeper is the server's own.
  unfoldable pub remote_step : LocalRegistry → Action → List Outcome × LocalRegistry
  remote_step r (calls q answered) = let (outcome, after) = serve r q in (outcome ∷ [], after)
  remote_step r (calls q unanswered) = (no_answer ∷ [], (serve r q).1)
  remote_step r (calls q lost) = (no_answer ∷ [], r)
  remote_step r (sweep now) = ([], sweep_all r now)

  unfoldable pub remote_run : LocalRegistry → List Action → List Outcome × LocalRegistry
  remote_run r [] = ([], r)
  remote_run r (a ∷ rest) =
      let (outcomes, next) = remote_step r a in
      let (more, last) = remote_run next rest in (outcomes ++ more, last)

  -- What the registry itself would answer to a request.
  unfoldable pub answer : LocalRegistry → Request → Outcome
  answer r (query service now) = (some Status.ok, some (lookup r service now).0)
  answer r (poll service done now) = (none, some [])
  answer r _ = (some Status.ok, some [])

  unfoldable pub given : LocalRegistry → Action → List Outcome
  given r (calls q answered) = answer r q ∷ []
  given r (calls q unanswered) = (none, some []) ∷ []
  given r (calls q lost) = (none, some []) ∷ []
  given r (sweep now) = []

  unfoldable pub given_by : LocalRegistry → List Action → List Outcome
  given_by r [] = []
  given_by r (a ∷ rest) = given r a ++ given_by (run r (reached a)) rest

  serve-answer :
      (r : LocalRegistry) (q : Request)
      → Fits (calls q answered)
      → FitPorts r
      → serve r q ≡ (answer r q, step r (asked q))
  unfolding serve answer step on_unregister on_renew on_lookup on_watch instance_request
      lookup_request str num find find_field read_lookup read_array
  serve-answer r (registration info lease_ms now) h f =
      ap plain (on_register_lem name_of number_of named r now lease_ms info h.0 h.1)
  serve-answer r (removal service instance_id now) h f =
      ap (λ s. plain (Status.ok, unregister r s instance_id)) (named service)
  serve-answer r (renewal service instance_id now) h f =
      ap (λ s. plain (Status.ok, renew_lease r s instance_id now)) (named service)
  serve-answer r (query service now) h f =
      let outcome : Option (List InstanceInfo) → LocalRegistry → Outcome × LocalRegistry =
        λ infos after. ((some Status.ok, infos), after) in
      ap
        (λ s.
          outcome
            (read_instances name_of number_of
              (instance_values name_of number_of (lookup r s now).0))
            (lookup r s now).1)
        (named service)
      ∙ ap (λ infos. outcome infos (lookup r service now).1)
          (read_instances-instance_values name_of number_of named (lookup r service now).0
            (lookup-FitPorts r service now f).0)
  serve-answer r (poll service done now) h f = ap (λ s. held (none, watch r s done)) (named service)

  Fits-answered : (q : Request) (fate : Fate) → Fits (calls q fate) → Fits (calls q answered)
  Fits-answered (registration info lease_ms now) fate h = h
  Fits-answered (removal service instance_id now) fate h = tt
  Fits-answered (renewal service instance_id now) fate h = tt
  Fits-answered (query service now) fate h = tt
  Fits-answered (poll service done now) fate h = tt

  Fits-FitsPort : (q : Request) (fate : Fate) → Fits (calls q fate) → FitsPort (asked q)
  Fits-FitsPort (registration info lease_ms now) fate h = h.0
  Fits-FitsPort (removal service instance_id now) fate h = tt
  Fits-FitsPort (renewal service instance_id now) fate h = tt
  Fits-FitsPort (query service now) fate h = tt
  Fits-FitsPort (poll service done now) fate h = tt

  remote_step-run :
      (r : LocalRegistry) (a : Action)
      → Fits a
      → FitPorts r
      → remote_step r a ≡ (given r a, run r (reached a))
  unfolding remote_step given run step read_lookup read_array find find_field
  remote_step-run r (calls q answered) h f =
      ap (λ (o : Outcome × LocalRegistry). (o.0 ∷ [], o.1)) (serve-answer r q h f)
  remote_step-run r (calls q unanswered) h f =
      ap (λ (o : Outcome × LocalRegistry). ((none, some []) ∷ [], o.1))
        (serve-answer r q (Fits-answered q unanswered h) f)
  remote_step-run r (calls q lost) h f = refl
  remote_step-run r (sweep now) h f = refl

  run-FitPorts :
      (r : LocalRegistry) (a : Action) → Fits a → FitPorts r → FitPorts (run r (reached a))
  unfolding run
  run-FitPorts r (calls q answered) h f = step-FitPorts r (asked q) (Fits-FitsPort q answered h) f
  run-FitPorts r (calls q unanswered) h f =
      step-FitPorts r (asked q) (Fits-FitsPort q unanswered h) f
  run-FitPorts r (calls q lost) h f = f
  run-FitPorts r (sweep now) h f = step-FitPorts r (sweeps now) tt f

  run-append : (r : LocalRegistry) (es ds : List Event) → run r (es ++ ds) ≡ run (run r es) ds
  unfolding run
  run-append r [] ds = refl
  run-append r (e ∷ es) ds = run-append (step r e) es ds

  remote_run-from :
      (r : LocalRegistry) (actions : List Action)
      → All Fits actions
      → FitPorts r
      → remote_run r actions ≡ (given_by r actions, run r (reached_by actions))
  unfolding remote_run given_by reached_by run
  remote_run-from r [] h f = refl
  remote_run-from r (a ∷ rest) h f =
      let after : List Outcome × LocalRegistry → List Outcome × LocalRegistry =
        λ o. (o.0 ++ (remote_run o.1 rest).0, (remote_run o.1 rest).1) in
      ap after (remote_step-run r a h.0 f)
      ∙ ap (λ (o : List Outcome × LocalRegistry). (given r a ++ o.0, o.1))
          (remote_run-from (run r (reached a)) rest h.1 (run-FitPorts r a h.0 f))
      ∙ ap (λ (s : LocalRegistry). (given_by r (a ∷ rest), s))
          (sym (run-append r (reached a) (reached_by rest)))

  -- A registry client and the registry server, call by call: over any registrations, removals,
  -- renewals, lookups, single polls for changes and sweeps from a new registry on, whose ports and
  -- leases fit their types, where each call is answered, or arrives and gets no answer, or does not
  -- arrive, the server's registry goes through the states that the requests that arrive and the sweeps
  -- give. Each answered registration, removal, renewal and lookup is accepted, an answered lookup reads
  -- exactly the instances that the registry gives, in their order, and a poll that arrives is kept in
  -- the registry with no answer given at that time. A call without an answer reads no instances. What
  -- follows a poll, its answer on a change and the next poll of the loop, is not part of this.
  pub remote_run-run :
      (actions : List Action)
      → All Fits actions
      → let r : LocalRegistry = record { services = []; notified = [] } in
        remote_run r actions ≡ (given_by r actions, run r (reached_by actions))
  remote_run-run actions h = remote_run-from (record { services = []; notified = [] }) actions h tt
