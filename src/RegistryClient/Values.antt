-- ===== src/RegistryClient/Values.antt =====
-- src/RegistryClient.cpp and src/rpc_registry_server.cpp: each reads the values that the other writes.
use my_rpc_project.Base.{ℕ, ◌^◌, ◌<◌, ◌≡◌, refl, ap, ap₂, ◌∙◌, List, [], ◌∷◌, some, All, arith}
use my_rpc_project.Protocol.{Status}
use my_rpc_project.LocalRegistry.{LocalRegistry, InstanceInfo, register_service}
use my_rpc_project.RegistryServer.{
  find, find_field, str, num, instance_value, instance_values, on_register,
}
use my_rpc_project.RegistryClient.{with_instance, register_request, instance_of, read_instances}

module _ (name_of : ℕ → List ℕ) (number_of : List ℕ → ℕ)
    (named : (service : ℕ) → number_of (name_of service) ≡ service) where
  pub read_instances-instance_values :
      (infos : List InstanceInfo)
      → All (λ (info : InstanceInfo). info.port < 2 ^ 16) infos
      → read_instances name_of number_of (instance_values name_of number_of infos) ≡ some infos
  unfolding read_instances instance_values instance_value instance_of find find_field
  read_instances-instance_values [] a = refl
  read_instances-instance_values (info ∷ infos) a =
      let read : ℕ → ℕ → InstanceInfo = λ service port. record {
        service = service;
        host = info.host;
        port = port;
        instance_id = info.instance_id;
      } in
      ap₂ with_instance (ap some (ap₂ read (named info.service) (omega (arith, a.0))))
        (read_instances-instance_values infos a.1)

  pub on_register_lem :
      (r : LocalRegistry) (now lease_ms : ℕ) (info : InstanceInfo)
      → info.port < 2 ^ 16
      → lease_ms < 2 ^ 32
      → on_register name_of number_of r now (register_request name_of number_of info lease_ms)
        ≡ (Status.ok, register_service r info lease_ms now)
  unfolding on_register register_request str num find find_field
  on_register_lem r now lease_ms info port lease =
      let made : ℕ → ℕ → ℕ → Status × LocalRegistry = λ service port lease. (
        Status.ok,
        register_service r
            (record {
              service = service;
              host = info.host;
              port = port;
              instance_id = info.instance_id;
            })
            lease now,
      ) in
      ap₂ (made (number_of (name_of info.service))) (omega (arith, port)) (omega (arith, lease))
      ∙ ap (λ s. made s info.port lease_ms) (named info.service)
