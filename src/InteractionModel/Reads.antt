-- ===== src/InteractionModel/Reads.antt =====
-- src/protocols/interaction_model/ImReadMixin.js: the handler of a read request.
pub mod Lookups
pub mod Unserved
pub mod Formats
pub mod Reports
use matternode.Prelude.{
  List, [], ◌∷◌, if◌then◌else◌, Option, none, some, pos, Result, ok, throw, ◌>>=◌, type_error,
}
use matternode.Buffer.{Buffer}
use matternode.Tlv.{Value, Values, bytes, array_of, nil, cons, Platform, num}
use matternode.Tlv.Reader.{decode_json, value_at, find_tag}
use matternode.Tlv.Writer.{
  put_struct_start, put_array_start, put_unsigned_int, put_container_end, put,
}
use matternode.InteractionModel.{Reply, Run, run_of, Endpoints, stringified}
use matternode.InteractionModel.Attributes.{Attribute}
use matternode.InteractionModel.Clusters.{Cluster, get_attribute}
use matternode.InteractionModel.Commands.{cluster_at, entry_value}
use matternode.InteractionModel.Paths.{
  AttributePath, is_defined, new_attribute_path, serialize_attribute_path,
}

attribute_of : Option Cluster → Value → Result (Option Attribute)
attribute_of none id = ok none
attribute_of (some cluster) id = get_attribute cluster id

unfoldable pub get_attribute_on_endpoint :
    Endpoints → Value → AttributePath → Result (Option Attribute)
unfolding attribute_of
get_attribute_on_endpoint endpoints endpoint_id path = do
  cluster ← cluster_at endpoints endpoint_id path.cluster_id
  attribute_of cluster path.attribute_id

module _ (platform : Platform) where
  unfoldable pub report_attribute : Buffer → Attribute → AttributePath → Result Buffer
  report_attribute buf attribute path =
      put_struct_start buf none none
      >>= (λ b. put_struct_start b (some (pos 1)) none)
      >>= (λ b. put_unsigned_int platform b (num 0x79cea838) (some (pos 0)) none)
      >>= (λ b. serialize_attribute_path platform path b 1)
      >>= (λ b. put platform b attribute.value (some (pos 2)) none)
      >>= put_container_end
      >>= put_container_end

  report_found : Buffer → Option Attribute → AttributePath → Result Buffer
  report_found buf none path = ok buf
  report_found buf (some attribute) path = report_attribute buf attribute path

  -- A path without an endpoint is one of each endpoint that has the attribute.
  report_everywhere : Endpoints → Endpoints → Buffer → AttributePath → Result Buffer
  unfolding report_found
  report_everywhere endpoints [] buf path = ok buf
  report_everywhere endpoints ((key, classes) ∷ keys) buf path = do
    attribute ← get_attribute_on_endpoint endpoints (num key) path
    reported ← report_found buf attribute (record path { endpoint_id = num key })
    report_everywhere endpoints keys reported path

  unfoldable pub report_entry : Endpoints → Buffer → Value → Result Buffer
  unfolding report_found report_everywhere
  report_entry endpoints buf entry = do
    tlv ← entry_value entry
    path ← new_attribute_path tlv
    if is_defined path.endpoint_id
        then (do
          attribute ← get_attribute_on_endpoint endpoints path.endpoint_id path
          report_found buf attribute path)
        else report_everywhere endpoints endpoints buf path

  unfoldable pub report_entries : Endpoints → Buffer → Values → Result Buffer
  report_entries endpoints buf nil = ok buf
  report_entries endpoints buf (cons entry rest) =
      report_entry endpoints buf entry >>= λ b. report_entries endpoints b rest

  -- forEach of the attribute list.
  report_list : Endpoints → Buffer → Value → Result Buffer
  report_list endpoints buf (array_of entries) = report_entries endpoints buf entries
  report_list endpoints buf (bytes []) = ok buf
  report_list endpoints buf other = throw type_error

  read_report : Endpoints → Buffer → Result (List Reply)
  unfolding report_list
  read_report endpoints app = do
    decoded ← decode_json platform app
    logged ← stringified decoded
    params ← value_at (array_of logged) 0
    attributes ← find_tag params 0
    payload ←
        put_struct_start [] none none
        >>= (λ b. put_array_start b (some (pos 1)) none)
        >>= (λ b. report_list endpoints b attributes)
        >>= put_container_end
        >>= put_container_end
    ok (record { opcode = 5; app = payload } ∷ [])

  unfoldable pub on_read_request : Endpoints → Buffer → Run
  unfolding read_report
  on_read_request endpoints app = run_of (read_report endpoints app)
