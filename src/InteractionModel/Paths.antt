-- ===== src/InteractionModel/Paths.antt =====
-- src/protocols/interaction_model/CommandPath.js and AttributePath.js. The texts of toString are for the log.
pub mod Members
pub mod RoundTrip
use matternode.Prelude.{
  ℕ, List, [], if◌then◌else◌, Bool, true, false, Option, none, some, pos, Result, ok, ◌>>=◌,
}
use matternode.Buffer.{Buffer}
use matternode.Tlv.{
  TypeName, field, list, uint16, Fields, Value, Values, undefined, array_of, object, nil, cons,
  Platform,
}
use matternode.Tlv.Reader.{find_tag}
use matternode.Tlv.Writer.{put_list_start, put_unsigned_int, put_container_end}

-- v != undefined
abbrev pub is_defined : Value → Bool
is_defined undefined = false
is_defined _ = true

-- `attribute_id` is read by serialize and set by nothing.
pub record CommandPath : Type 0 where
  pub endpoint_id : Value
  pub cluster_id : Value
  pub command_id : Value
  pub attribute_id : Value

unfoldable pub new_command_path : Value → Result CommandPath
new_command_path tlv =
    if is_defined tlv
    then (do
      endpoint_id ← find_tag tlv 0
      cluster_id ← find_tag tlv 1
      command_id ← find_tag tlv 2
      ok record {
        endpoint_id = endpoint_id;
        cluster_id = cluster_id;
        command_id = command_id;
        attribute_id = undefined;
      })
    else ok record {
      endpoint_id = undefined;
      cluster_id = undefined;
      command_id = undefined;
      attribute_id = undefined;
    }

-- A member that is undefined is left out.
unfoldable pub put_member : Platform → Value → Value → ℕ → Buffer → Result Buffer
put_member platform member v tag buf =
    if is_defined member then put_unsigned_int platform buf v (some (pos tag)) none else ok buf

unfoldable pub serialize_command_path : Platform → CommandPath → Buffer → ℕ → Result Buffer
unfolding put_member
serialize_command_path platform path buf tag =
    put_list_start buf (some (pos tag)) none
    >>= put_member platform path.endpoint_id path.endpoint_id 0
    >>= put_member platform path.cluster_id path.cluster_id 1
    >>= put_member platform path.command_id path.attribute_id 2
    >>= put_container_end

unfoldable pub command_path_template : CommandPath → ℕ → Value
command_path_template path tag = field tag list (
    array_of (
      cons (field 0 uint16 path.endpoint_id)
        (cons (field 1 uint16 path.cluster_id) (cons (field 2 uint16 path.command_id) nil))))

pub record AttributePath : Type 0 where
  pub enable_tag_compression : Value
  pub node_id : Value
  pub endpoint_id : Value
  pub cluster_id : Value
  pub attribute_id : Value

abbrev pub empty_attribute_path : AttributePath
empty_attribute_path = record {
  enable_tag_compression = undefined;
  node_id = undefined;
  endpoint_id = undefined;
  cluster_id = undefined;
  attribute_id = undefined;
}

unfoldable pub new_attribute_path : Value → Result AttributePath
new_attribute_path tlv =
    if is_defined tlv
    then (do
      enable_tag_compression ← find_tag tlv 0
      node_id ← find_tag tlv 1
      endpoint_id ← find_tag tlv 2
      cluster_id ← find_tag tlv 3
      attribute_id ← find_tag tlv 4
      ok record {
        enable_tag_compression = enable_tag_compression;
        node_id = node_id;
        endpoint_id = endpoint_id;
        cluster_id = cluster_id;
        attribute_id = attribute_id;
      })
    else ok empty_attribute_path

unfoldable pub serialize_attribute_path : Platform → AttributePath → Buffer → ℕ → Result Buffer
unfolding put_member
serialize_attribute_path platform path buf tag =
    put_list_start buf (some (pos tag)) none
    >>= put_member platform path.node_id path.node_id 1
    >>= put_member platform path.endpoint_id path.endpoint_id 2
    >>= put_member platform path.cluster_id path.cluster_id 3
    >>= put_member platform path.attribute_id path.attribute_id 4
    >>= put_container_end
