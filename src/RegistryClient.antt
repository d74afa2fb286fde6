-- ===== src/RegistryClient.antt =====
-- include/RegistryClient.h and src/RegistryClient.cpp: the requests of the client and what it reads from
-- the answers. A call of the channel is answered, and the answer is an argument.
pub mod Ports
pub mod Values
pub mod Remote
mod Tests
use my_rpc_project.Base.{
  ℕ, zero, suc, ◌+◌, ◌%◌, ◌^◌, Bool, true, false, List, [], ◌∷◌, Option, none, some, ◌==◌,
  if◌then◌else◌,
}
use my_rpc_project.Protocol.{Status}
use my_rpc_project.Serializer.{
  Value, string, uint64, array, structure, Elements, no_elements, element, Fields, no_fields, field,
}
use my_rpc_project.LocalRegistry.{InstanceInfo}
use my_rpc_project.RegistryServer.{
  k_f_service, k_f_host, k_f_port, k_f_instance_id, k_f_lease_ms, k_f_instances, find,
}

-- `asString` and `asUint64`, which throw where the value is of another type.
abbrev pub as_string : Value → Option (List ℕ)
as_string (string s) = some s
as_string _ = none

abbrev pub as_uint64 : Value → Option ℕ
as_uint64 (uint64 n) = some n
as_uint64 _ = none

abbrev pub make_request : ℕ → List ℕ → Value
make_request id value = structure (field id (string value) no_fields)

-- The elements that are instances; none where one throws.
abbrev pub with_instance :
    Option InstanceInfo → Option (List InstanceInfo) → Option (List InstanceInfo)
with_instance (some info) (some infos) = some (info ∷ infos)
with_instance _ _ = none

module _ (name_of : ℕ → List ℕ) (number_of : List ℕ → ℕ) where
  unfoldable pub register_request : InstanceInfo → ℕ → Value
  register_request info lease_ms = structure (
      field k_f_service (string (name_of info.service)) (
        field k_f_host (string info.host) (
          field k_f_port (uint64 info.port) (
            field k_f_instance_id (uint64 info.instance_id)
              (field k_f_lease_ms (uint64 lease_ms) no_fields)))))

  -- The request of `unregister` and of `renewLease`.
  unfoldable pub instance_request : ℕ → ℕ → Value
  instance_request service instance_id = structure (
      field k_f_service (string (name_of service))
        (field k_f_instance_id (uint64 instance_id) no_fields))

  unfoldable pub lookup_request : ℕ → Value
  lookup_request service = make_request k_f_service (name_of service)

  abbrev pub info_of : Option (List ℕ) → Option (List ℕ) → Option ℕ → Option ℕ → Option InstanceInfo
  info_of (some service) (some host) (some port) (some instance_id) = some record {
    service = number_of service;
    host = host;
    port = port % 2 ^ 16;
    instance_id = instance_id;
  }
  info_of _ _ _ _ = none

  unfoldable pub instance_of : Value → Value → Value → Value → Option InstanceInfo
  instance_of s h p id = info_of (as_string s) (as_string h) (as_uint64 p) (as_uint64 id)

  unfoldable pub read_instances : Elements → Option (List InstanceInfo)
  read_instances no_elements = some []
  read_instances (element elem es) =
      let rest = read_instances es in
      elim (find elem k_f_service) [
        | none ↦ rest
        | some s ↦ elim (find elem k_f_host) [
          | none ↦ rest
          | some h ↦ elim (find elem k_f_port) [
            | none ↦ rest
            | some p ↦ elim (find elem k_f_instance_id) [
              | none ↦ rest
              | some id ↦ with_instance (instance_of s h p id) rest
            ]
          ]
        ]
      ]

  unfoldable pub read_array : Option Value → Option (List InstanceInfo)
  read_array (some (array es)) = read_instances es
  read_array _ = some []

  -- What `lookup` makes of the answer.
  unfoldable pub read_lookup : Value → Option (List InstanceInfo)
  read_lookup resp = read_array (find resp k_f_instances)

-- How often `watchLoop` calls back, from the statuses of its polls until it ends.
unfoldable pub watch_loop : List ℕ → ℕ
watch_loop [] = 0
watch_loop (status ∷ polls) = if status == 0 then suc (watch_loop polls) else watch_loop polls
