-- ===== src/InteractionModel/Commands.antt =====
-- src/protocols/interaction_model/ImCommandMixin.js: the handler of an invoke request.
pub mod Answers
pub mod Formats
use matternode.Prelude.{List, [], Option, none, some, Result, ok, throw, ◌>>=◌, type_error}
use matternode.Buffer.{Buffer}
use matternode.Tlv.{Value, Values, undefined, bytes, array_of, object, nil, cons, Platform}
use matternode.Tlv.Reader.{decode_json, value_at, find_tag}
use matternode.InteractionModel.{
  Reply, Run, done, run_of, and_then, property, Endpoints, stringified,
}
use matternode.InteractionModel.Clusters.{Cluster, Credentials, cluster_named, on_command}
use matternode.InteractionModel.Paths.{CommandPath, new_command_path}

-- entry.value
unfoldable pub entry_value : Value → Result Value
entry_value undefined = throw type_error
entry_value (object fields v) = ok v
entry_value other = ok undefined

-- The cluster of a path: the class that the endpoint has for it, if that has a server. An unknown endpoint
-- has no properties.
unfoldable pub cluster_at : Endpoints → Value → Value → Result (Option Cluster)
cluster_at endpoints endpoint_id cluster_id = elim (property endpoints endpoint_id) [
  | none ↦ throw type_error
  | some classes ↦ elim (property classes cluster_id) [
    | none ↦ ok none
    | some name ↦ ok (cluster_named name)
  ]
]

module _ (platform : Platform) (credentials : Credentials) (endpoints : Endpoints) where
  dispatch : Option Cluster → Buffer → CommandPath → Result (List Reply)
  dispatch none app path = ok []
  dispatch (some cluster) app path = on_command platform credentials cluster app path

  unfoldable pub on_one_command : Buffer → Value → Result (List Reply)
  unfolding dispatch
  on_one_command app command = do
    value ← entry_value command
    path_tlv ← find_tag value 0
    path ← new_command_path path_tlv
    command_data ← find_tag value 1
    cluster ← cluster_at endpoints path.endpoint_id path.cluster_id
    dispatch cluster app path

  unfoldable pub on_commands : Buffer → Values → Run
  on_commands app nil = done
  on_commands app (cons command rest) =
      and_then (run_of (on_one_command app command)) (on_commands app rest)

  -- forEach of the command list; the bytes of a buffer have no value.
  on_command_list : Buffer → Value → Run
  on_command_list app (array_of commands) = on_commands app commands
  on_command_list app (bytes []) = done
  on_command_list app other = run_of (throw type_error)

  command_list : Buffer → Result Value
  command_list app = do
    decoded ← decode_json platform app
    logged ← stringified decoded
    params ← value_at (array_of logged) 0
    suppress_response ← find_tag params 0
    timed_request ← find_tag params 1
    find_tag params 2

  on_parsed : Buffer → Result Value → Run
  on_parsed app (throw error) = run_of (throw error)
  on_parsed app (ok commands) = on_command_list app commands

  unfoldable pub on_invoke_command_request : Buffer → Run
  unfolding on_command_list command_list on_parsed
  on_invoke_command_request app = on_parsed app (command_list app)
