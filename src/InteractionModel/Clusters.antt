-- ===== src/InteractionModel/Clusters.antt =====
-- src/clusters: the command handlers of the four servers, each of which sends at most one answer, and
-- their attributes. The embedded certificates, the attestation key and the signing request are parameters.
use Prim.Native.String.{String}
use package.text.Mathlib.Text.{◌==◌}
use matternode.Prelude.{
  ℕ, Bool, false, List, [], ◌++◌, if◌then◌else◌, Option, none, some, pos, same, Result, ok, throw,
  ◌>>=◌, range_error, type_error, reference_error,
}
use matternode.Buffer.{Buffer}
use matternode.Tlv.{
  integer, fraction, num, field, untagged, struct, uint8, uint32, buffer, other, Value, Values,
  undefined, number, bigint, text, bytes, array_of, nil, cons, Platform,
}
use matternode.Tlv.Reader.{decode_json, value_at}
use matternode.Tlv.Writer.{encode}
use matternode.InteractionModel.{Reply, property}
use matternode.InteractionModel.Attributes.{
  Attribute, basic_attributes, general_commissioning_attributes, network_commissioning_attributes,
}
use matternode.InteractionModel.Paths.{CommandPath}
use matternode.InteractionModel.Responses.{send_response_status, send_response_data}

pub data Cluster : Type 0 where
  basic general_commissioning network_commissioning operational_credentials : Cluster

-- The cluster map of InteractionModel.
unfoldable pub cluster_named : String → Option Cluster
cluster_named name =
    if name == "ClusterBasicServer"
    then some basic
    else if name == "ClusterGeneralCommissioningServer"
    then some general_commissioning
    else if name == "ClusterNetworkCommissioningServer"
    then some network_commissioning
    else if name == "ClusterOperationalCredentialsServer"
    then some operational_credentials
    else none

-- getAttribute, which the server of the operational credentials lacks.
unfoldable pub get_attribute : Cluster → Value → Result (Option Attribute)
get_attribute basic id = ok (property basic_attributes id)
get_attribute general_commissioning id = ok (property general_commissioning_attributes id)
get_attribute network_commissioning id = ok (property network_commissioning_attributes id)
get_attribute operational_credentials id = throw type_error

-- v === n
abbrev pub is_number : Value → ℕ → Bool
is_number (number (integer z)) n = same z (pos n)
is_number _ n = false

-- Test certificates, Crypto.Sign with the attestation key, the attestation challenge of the exchange's
-- session and the signing request of a new key pair.
pub record Credentials : Type 0 where
  pub pai_certificate : Buffer
  pub dac_certificate : Buffer
  pub certification_declaration : Buffer
  pub sign : Buffer → Result Buffer
  pub attestation_challenge : Option Buffer
  pub csr : Result Buffer

-- An error code, and an empty text.
no_error : Values
no_error = cons (field 0 other (num 0)) (cons (field 1 other (text [])) nil)

module _ (platform : Platform) where
  respond : CommandPath → ℕ → Values → Result (List Reply)
  respond path command_id command_data =
      send_response_data platform (record path { command_id = num command_id }) command_data

  unfoldable pub on_general_commissioning : CommandPath → Result (List Reply)
  unfolding respond no_error
  on_general_commissioning path =
      if is_number path.command_id 0
      then respond path 1 no_error
      else if is_number path.command_id 2
      then respond path 3 no_error
      else if is_number path.command_id 4
      then send_response_status platform path 0
      else ok []

  -- The value of the first field of the first command, by places.
  command_field : Buffer → Result Value
  command_field app = do
    decoded ← decode_json platform app
    message ← value_at (array_of decoded) 0
    commands ← value_at message 2
    command ← value_at commands 0
    value_at command 1

  -- v == n
  loosely_equals : Value → ℕ → Bool
  loosely_equals undefined n = false
  loosely_equals (number (integer z)) n = same z (pos n)
  loosely_equals (number (fraction bits)) n = false
  loosely_equals (bigint z) n = same z (pos n)
  loosely_equals v n = elim (platform.to_number v) [
    | integer z ↦ same z (pos n)
    | fraction bits ↦ false
  ]

  -- v.toString('hex') for the log: numbers take a radix there.
  log_hex : Value → Result Value
  log_hex undefined = throw type_error
  log_hex (number n) = throw range_error
  log_hex (bigint z) = throw range_error
  log_hex v = ok v

  -- elements signed together with the challenge of the session.
  signed_elements : Credentials → Value → Result (Buffer × Buffer)
  signed_elements credentials template = do
    elements ← encode platform [] template
    challenge ← elim credentials.attestation_challenge [ none ↦ throw type_error | some c ↦ ok c ]
    signature ← credentials.sign (elements ++ challenge)
    ok (elements, signature)

  two_buffers : Buffer × Buffer → Values
  two_buffers (a, b) = cons (field 0 buffer (bytes a)) (cons (field 1 buffer (bytes b)) nil)

  unfoldable pub on_certificate_chain_request :
      Credentials → Buffer → CommandPath → Result (List Reply)
  unfolding command_field loosely_equals respond
  on_certificate_chain_request credentials app path = do
    fields ← command_field app
    kind ← value_at fields 0
    let certificate =
        if loosely_equals kind 2 then credentials.pai_certificate else credentials.dac_certificate
    respond path 3 (cons (field 0 buffer (bytes certificate)) nil)

  unfoldable pub on_attestation_request : Credentials → Buffer → CommandPath → Result (List Reply)
  unfolding command_field log_hex signed_elements two_buffers respond
  on_attestation_request credentials app path = do
    fields ← command_field app
    nonce ← value_at fields 0
    nonce ← log_hex nonce
    signed ← signed_elements credentials (
        untagged struct (
          cons (field 1 buffer (bytes credentials.certification_declaration))
            (cons (field 2 buffer nonce) (cons (field 3 uint32 (num 0)) nil))))
    respond path 1 (two_buffers signed)

  unfoldable pub on_csr_request : Credentials → Buffer → CommandPath → Result (List Reply)
  unfolding command_field signed_elements two_buffers respond
  on_csr_request credentials app path = do
    fields ← command_field app
    nonce ← value_at fields 0
    csr ← credentials.csr
    signed ←
        signed_elements credentials
          (untagged struct (cons (field 1 buffer (bytes csr)) (cons (field 2 buffer nonce) nil)))
    respond path 5 (two_buffers signed)

  unfoldable pub on_add_trusted_root : Buffer → CommandPath → Result (List Reply)
  unfolding command_field
  on_add_trusted_root app path = do
    fields ← command_field app
    root ← value_at fields 0
    send_response_status platform path 0

  -- The certificates are read and kept nowhere; the fourth field stands for the vendor too.
  unfoldable pub on_add_noc : Buffer → CommandPath → Result (List Reply)
  unfolding command_field log_hex respond
  on_add_noc app path = do
    fields ← command_field app
    noc ← value_at fields 0
    icac ← value_at fields 1
    ipk ← value_at fields 2
    admin_subject_id ← value_at fields 3
    noc ← log_hex noc
    respond path 8 (cons (field 0 uint8 (num 0)) (cons (field 1 uint8 (num 1)) nil))

  unfoldable pub on_operational_credentials :
      Credentials → Buffer → CommandPath → Result (List Reply)
  on_operational_credentials credentials app path =
      if is_number path.command_id 0
      then on_attestation_request credentials app path
      else if is_number path.command_id 2
      then on_certificate_chain_request credentials app path
      else if is_number path.command_id 4
      then on_csr_request credentials app path
      else if is_number path.command_id 11
      then on_add_trusted_root app path
      else if is_number path.command_id 6
      then on_add_noc app path
      else ok []

  -- onCommand of each server. The handlers of the basic cluster name an exchange that is not declared, and
  -- the network cluster's cases a class that is not.
  unfoldable pub on_command : Credentials → Cluster → Buffer → CommandPath → Result (List Reply)
  on_command credentials basic app path =
      if is_number path.command_id 0 then throw reference_error else ok []
  on_command credentials general_commissioning app path = on_general_commissioning path
  on_command credentials network_commissioning app path = throw reference_error
  on_command credentials operational_credentials app path =
      on_operational_credentials credentials app path
