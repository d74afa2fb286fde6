-- ===== src/RegistryServer.antt =====
-- src/rpc_registry_server.cpp, include/RegistryProtocol.h and `Value::find` of include/Serializer.h. A
-- service is a number in the registry; `name_of` and `number_of` are its name as text, and back.
use my_rpc_project.Base.{ℕ, ◌%◌, ◌^◌, List, [], ◌∷◌, Option, none, some, ◌==◌, if◌then◌else◌}
use my_rpc_project.Protocol.{Status}
use my_rpc_project.Serializer.{
  Value, string, uint64, array, structure, Elements, no_elements, element, Fields, no_fields, field,
}
use my_rpc_project.LocalRegistry.{
  LocalRegistry, InstanceInfo, register_service, unregister, renew_lease, lookup, watch,
}

abbrev pub k_f_service : ℕ
k_f_service = 1

abbrev pub k_f_host : ℕ
k_f_host = 2

abbrev pub k_f_port : ℕ
k_f_port = 3

abbrev pub k_f_instance_id : ℕ
k_f_instance_id = 4

abbrev pub k_f_lease_ms : ℕ
k_f_lease_ms = 5

abbrev pub k_f_instances : ℕ
k_f_instances = 6

unfoldable pub find_field : ℕ → Fields → Option Value
find_field id no_fields = none
find_field id (field i v fs) = if i == id then some v else find_field id fs

unfoldable pub find : Value → ℕ → Option Value
find (structure fs) id = find_field id fs
find _ id = none

abbrev pub as_str : Option Value → Option (List ℕ)
as_str (some (string s)) = some s
as_str _ = none

abbrev pub as_num : Option Value → Option ℕ
as_num (some (uint64 n)) = some n
as_num _ = none

unfoldable pub str : Value → ℕ → Option (List ℕ)
str req id = as_str (find req id)

unfoldable pub num : Value → ℕ → Option ℕ
num req id = as_num (find req id)

abbrev pub or_default : Option ℕ → ℕ
or_default none = 10000
or_default (some lease) = lease

module _ (name_of : ℕ → List ℕ) (number_of : List ℕ → ℕ) where
  unfoldable pub instance_value : InstanceInfo → Value
  instance_value info = structure (
      field k_f_service (string (name_of info.service)) (
        field k_f_host (string info.host) (
          field k_f_port (uint64 info.port)
            (field k_f_instance_id (uint64 info.instance_id) no_fields))))

  unfoldable pub instance_values : List InstanceInfo → Elements
  instance_values [] = no_elements
  instance_values (info ∷ infos) = element (instance_value info) (instance_values infos)

  -- The status of an answer, and the registry. `now` is the registry's clock.
  unfoldable pub on_register : LocalRegistry → ℕ → Value → Status × LocalRegistry
  on_register r now req = elim (str req k_f_service) [
    | none ↦ (Status.invalid_argument, r)
    | some service ↦ elim (str req k_f_host) [
      | none ↦ (Status.invalid_argument, r)
      | some host ↦ elim (num req k_f_port) [
        | none ↦ (Status.invalid_argument, r)
        | some port ↦ elim (num req k_f_instance_id) [
          | none ↦ (Status.invalid_argument, r)
          | some id ↦
              let info : InstanceInfo = record {
                service = number_of service;
                host = host;
                port = port % 2 ^ 16;
                instance_id = id;
              } in
              (Status.ok, register_service r info (or_default (num req k_f_lease_ms) % 2 ^ 32) now)
        ]
      ]
    ]
  ]

  unfoldable pub on_unregister : LocalRegistry → Value → Status × LocalRegistry
  on_unregister r req = elim (str req k_f_service) [
    | none ↦ (Status.invalid_argument, r)
    | some service ↦ elim (num req k_f_instance_id) [
      | none ↦ (Status.invalid_argument, r)
      | some id ↦ (Status.ok, unregister r (number_of service) id)
    ]
  ]

  unfoldable pub on_renew : LocalRegistry → ℕ → Value → Status × LocalRegistry
  on_renew r now req = elim (str req k_f_service) [
    | none ↦ (Status.invalid_argument, r)
    | some service ↦ elim (num req k_f_instance_id) [
      | none ↦ (Status.invalid_argument, r)
      | some id ↦ (Status.ok, renew_lease r (number_of service) id now)
    ]
  ]

  -- With the response; one that is not written is null.
  unfoldable pub on_lookup : LocalRegistry → ℕ → Value → Status × Value × LocalRegistry
  on_lookup r now req = elim (str req k_f_service) [
    | none ↦ (Status.invalid_argument, Value.null, r)
    | some service ↦
        let (infos, after) = lookup r (number_of service) now in
        (
          Status.ok,
          structure (field k_f_instances (array (instance_values infos)) no_fields),
          after,
        )
  ]

  -- `done` is the callback that answers a watch; a refused one is answered at once.
  unfoldable pub on_watch : LocalRegistry → ℕ → Value → Option Status × LocalRegistry
  on_watch r done req = elim (str req k_f_service) [
    | none ↦ (some Status.invalid_argument, r)
    | some service ↦ (none, watch r (number_of service) done)
  ]
