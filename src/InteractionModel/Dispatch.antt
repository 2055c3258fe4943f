-- ===== src/InteractionModel/Dispatch.antt =====
-- src/protocols/interaction_model/InteractionModel.js: the handler of a message by its opcode. The handlers
-- of the other opcodes only log; that of 10 too, since the mixins leave it so.
pub mod Unanswered
use matternode.Prelude.{ℕ, ◌==◌, if◌then◌else◌}
use matternode.Buffer.{Buffer}
use matternode.Tlv.{Platform}
use matternode.InteractionModel.{Run, done, Endpoints}
use matternode.InteractionModel.Clusters.{Credentials}
use matternode.InteractionModel.Commands.{on_invoke_command_request}
use matternode.InteractionModel.Reads.{on_read_request}

module _ (platform : Platform) (credentials : Credentials) (endpoints : Endpoints) where
  unfoldable pub on_protocol_message : ℕ → Buffer → Run
  on_protocol_message opcode app =
      if opcode == 2
      then on_read_request platform endpoints app
      else if opcode == 8
      then on_invoke_command_request platform credentials endpoints app
      else done
