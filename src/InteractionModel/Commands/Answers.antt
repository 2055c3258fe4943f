-- ===== src/InteractionModel/Commands/Answers.antt =====
-- An invoke request for the general commissioning cluster, from its bytes to the bytes of the answers.
use matternode.Prelude.{
  ℕ, ◌^◌, ◌<◌, ◌≡◌, refl, ◌⊎◌, inl, inr, List, [], ◌∷◌, none, some, arith, ok, false, All,
}
use mathlib.Core.List.{map}
use matternode.Buffer.{Buffer}
use matternode.Tlv.{num, Value, nil, cons, Platform}
use matternode.Tlv.Element.{
  context, anonymous, container, struct, Elements, no_more, more, json_of, json_of_each, print,
  value_of, IsElement, AreElements, container_kind,
}
use matternode.Tlv.Element.Templates.{decode_json-print, value_of-small}
use matternode.Tlv.Reader.{decode_json, value_at, find_entry, find_tag}
use matternode.InteractionModel.{Reply, and_then, Endpoints, any_bigint, stringified}
use matternode.InteractionModel.Clusters.{
  general_commissioning, Credentials, on_command, on_general_commissioning,
}
use matternode.InteractionModel.Commands.{
  cluster_at, entry_value, on_one_command, on_commands, on_invoke_command_request,
}
use matternode.InteractionModel.Responses.{send_response_status, send_response_data}
use matternode.InteractionModel.Commands.Formats.{
  Invoke, path_members, path_element, command_elements, request_element, data_element,
  answer_element, path_of, new_command_path-members, status_template-Writes, data_template-Writes,
}

abbrev IsAnswered : ℕ → Type 0
IsAnswered k = (k ≡ 0) ⊎ (k ≡ 2) ⊎ (k ≡ 4)

-- The reply to a command.
abbrev pub answer : Platform → Invoke → Reply
answer platform c = record { opcode = 9; app = print platform (answer_element c) }

module _ (platform : Platform) (e c : ℕ) (he : e < 256 ^ 4) (hc : c < 256 ^ 4) where
  on_general_commissioning-answer :
      (k : ℕ) (fields : Elements)
      → IsAnswered k
      → on_general_commissioning platform (path_of e c k)
        ≡ ok (
            answer platform (record { endpoint = e; cluster = c; command = k; fields = fields })
            ∷ [])
  unfolding on_general_commissioning answer_element send_response_data send_response_status
      data_element
  on_general_commissioning-answer k fields (inl p) =
      rw p (rw (data_template-Writes platform e c 1 he hc (omega arith) []) refl)
  on_general_commissioning-answer k fields (inr (inl p)) =
      rw p (rw (data_template-Writes platform e c 3 he hc (omega arith) []) refl)
  on_general_commissioning-answer k fields (inr (inr p)) =
      rw p (rw (status_template-Writes platform e c 4 he hc (omega arith) []) refl)

-- A command of the general commissioning server that it has a handler for, with numbers and fields that fit.
abbrev pub ForGeneral : Platform → Endpoints → Invoke → Type 0
ForGeneral platform endpoints c =
    (c.endpoint < 256 ^ 4)
    × (c.cluster < 256 ^ 4)
    × IsAnswered c.command
    × AreElements platform c.fields
    × (any_bigint (json_of_each c.fields) ≡ false)
    × (cluster_at endpoints (num c.endpoint) (num c.cluster) ≡ ok (some general_commissioning))

command_json : Invoke → Value
unfolding command_elements
command_json c = json_of (
    container anonymous struct (
      more (path_element c.endpoint c.cluster c.command)
        (more (container (context 1) struct c.fields) no_more)))

answered-lt : (k : ℕ) → IsAnswered k → k < 256 ^ 4
answered-lt k h = ground arith

module _ (platform : Platform) (credentials : Credentials) (endpoints : Endpoints)
    (app : Buffer) where
  on_one_command-answer :
      (c : Invoke)
      → ForGeneral platform endpoints c
      → on_one_command platform credentials endpoints app (command_json c)
        ≡ ok (answer platform c ∷ [])
  unfolding on_one_command command_json entry_value find_tag find_entry json_of path_element
      container_kind on_command
  on_one_command-answer c h =
      rw
        (new_command_path-members platform c.endpoint c.cluster c.command h.0 h.1
          (answered-lt c.command h.2))
        (rw (h.5) (
          on_general_commissioning-answer platform c.endpoint c.cluster h.0 h.1 c.command c.fields
            h.2))

  on_commands-answers :
      (cs : List Invoke)
      → All (ForGeneral platform endpoints) cs
      → on_commands platform credentials endpoints app (json_of_each (command_elements cs))
        ≡ record { sent = map (answer platform) cs; error = none }
  unfolding on_commands command_elements json_of command_json and_then
  on_commands-answers [] h = refl
  on_commands-answers (c ∷ cs) h =
      rw (on_one_command-answer c h.0) (rw (on_commands-answers cs h.1) refl)

path_element-IsElement :
    (platform : Platform) (e c k : ℕ)
    → e < 256 ^ 4
    → c < 256 ^ 4
    → k < 256 ^ 4
    → IsElement platform (path_element e c k)
unfolding path_element
path_element-IsElement platform e c k he hc hk = omega arith

answer_element-IsElement :
    (platform : Platform) (e c k : ℕ) (fields : Elements)
    → e < 256 ^ 4
    → c < 256 ^ 4
    → IsAnswered k
    → IsElement platform
        (answer_element (record { endpoint = e; cluster = c; command = k; fields = fields }))
unfolding answer_element path_element
answer_element-IsElement platform e c k fields he hc (inl p) = rw p (omega arith)
answer_element-IsElement platform e c k fields he hc (inr (inl p)) = rw p (omega arith)
answer_element-IsElement platform e c k fields he hc (inr (inr p)) = rw p (omega arith)

answers-decode :
    (platform : Platform) (endpoints : Endpoints) (cs : List Invoke)
    → All (ForGeneral platform endpoints) cs
    → All
        (λ c.
          decode_json platform (answer platform c).app ≡ ok (cons (json_of (answer_element c)) nil))
        cs
answers-decode platform endpoints [] h = tt
answers-decode platform endpoints (c ∷ cs) h = (
  decode_json-print platform (answer_element c) (
      answer_element-IsElement platform c.endpoint c.cluster c.command c.fields (h.0).0 (h.0).1
        (h.0).2),
  answers-decode platform endpoints cs h.1,
)

command_elements-AreElements :
    (platform : Platform) (endpoints : Endpoints) (cs : List Invoke)
    → All (ForGeneral platform endpoints) cs
    → AreElements platform (command_elements cs)
unfolding command_elements
command_elements-AreElements platform endpoints [] h = tt
command_elements-AreElements platform endpoints (c ∷ cs) h = (
  (
    tt,
    (
      path_element-IsElement platform c.endpoint c.cluster c.command (h.0).0 (h.0).1
          (answered-lt c.command (h.0).2),
      ((omega arith, (h.0).3), tt),
    ),
  ),
  command_elements-AreElements platform endpoints cs h.1,
)

commands-without_bigint :
    (platform : Platform) (endpoints : Endpoints) (cs : List Invoke)
    → All (ForGeneral platform endpoints) cs
    → any_bigint (json_of_each (command_elements cs)) ≡ false
unfolding any_bigint command_elements json_of path_element path_members
commands-without_bigint platform endpoints [] h = refl
commands-without_bigint platform endpoints (c ∷ cs) h =
    rw
      (
        value_of-small c.endpoint (h.0).0,
        value_of-small c.cluster (h.0).1,
        value_of-small c.command (answered-lt c.command (h.0).2),
        (h.0).4,
        commands-without_bigint platform endpoints cs h.1,
      )
      refl

-- An invoke request whose commands are for endpoints and clusters that the general commissioning server
-- serves, each ArmFailSafe, SetRegulatoryConfig or CommissioningComplete with fields whose JSON has no
-- BigInt, is answered once for each
-- command, in order and without an error: the first two by data under the next command's id, the third by
-- a status, each with the path's endpoint and cluster. The JSON that a peer decodes from an answer is the
-- one of its element.
pub on_invoke_command_request-answers :
    (platform : Platform) (credentials : Credentials) (endpoints : Endpoints) (cs : List Invoke)
    → All (ForGeneral platform endpoints) cs
    → (on_invoke_command_request platform credentials endpoints
          (print platform (request_element cs))
        ≡ record { sent = map (answer platform) cs; error = none })
      × All
          (λ c.
            decode_json platform (answer platform c).app
            ≡ ok (cons (json_of (answer_element c)) nil))
          cs
unfolding on_invoke_command_request stringified value_at find_tag find_entry json_of request_element
on_invoke_command_request-answers platform credentials endpoints cs h = (
  rw (read, quiet)
      (on_commands-answers platform credentials endpoints (print platform (request_element cs)) cs
        h),
  answers-decode platform endpoints cs h,
)
  where
    quiet : any_bigint (cons (json_of (request_element cs)) nil) ≡ false
    quiet =
        unfold any_bigint json_of value_of in
        rw (commands-without_bigint platform endpoints cs h) refl

    read :
        decode_json platform (print platform (request_element cs))
        ≡ ok (cons (json_of (request_element cs)) nil)
    read = decode_json-print platform (request_element cs) (
      tt,
      (
        (omega arith, tt),
        (
          (omega arith, tt),
          ((omega arith, command_elements-AreElements platform endpoints cs h), tt),
        ),
      ),
    )
