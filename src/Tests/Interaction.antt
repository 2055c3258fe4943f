-- ===== src/Tests/Interaction.antt =====
-- An invoke request, a read request and a path at concrete values.
use Prim.Native.String.{String}
use mathlib.Core.List.{map}
use matternode.Prelude.{
  ℕ, ◌++◌, All, ◌≡◌, refl, inl, inr, none, some, [], ◌∷◌, arith, ok, type_error, ◌>>=◌, false, List,
}
use matternode.Tlv.{array_of, nil, cons, num, undefined}
use matternode.Tlv.Element.{
  Elements, print_each, container, list, no_more, more, scalar, context, unsigned, json_of,
  value_of, print,
}
use matternode.Tlv.Codec.Numbers.{width}
use matternode.Tlv.Reader.{decode_json, value_at}
use matternode.InteractionModel.{Endpoints, any_bigint, property, property_key, entry_at}
use matternode.InteractionModel.Clusters.{cluster_named, Credentials}
use matternode.InteractionModel.Attributes.{Attribute}
use matternode.Buffer.{Buffer}
use matternode.InteractionModel.Paths.{new_attribute_path, serialize_attribute_path}
use matternode.InteractionModel.Paths.Members.{open_path_members, open_path}
use matternode.InteractionModel.Paths.RoundTrip.{new_attribute_path-serialize}
use matternode.InteractionModel.Reads.{on_read_request}
use matternode.InteractionModel.Reads.Formats.{Read, read_request_element, report_message}
use matternode.InteractionModel.Reads.Reports.{on_read_request-reports}
use matternode.InteractionModel.Reads.Unserved.{on_read_request_unserved}
use matternode.InteractionModel.Commands.{cluster_at, on_invoke_command_request}
use matternode.InteractionModel.Commands.Formats.{
  Invoke, command_elements, path_element, request_element, answer_element,
}
use matternode.InteractionModel.Commands.Answers.{answer, on_invoke_command_request-answers}
use matternode.InteractionModel.Dispatch.{on_protocol_message}
use matternode.InteractionModel.Dispatch.Unanswered.{on_protocol_message_bigint}
use matternode.Tests.Tlv.{plain_platform}

abbrev root_clusters : List (ℕ × String)
root_clusters = (40, "ClusterBasicServer") ∷ (48, "ClusterGeneralCommissioningServer") ∷ []

abbrev root_endpoint : Endpoints
root_endpoint = (0, root_clusters) ∷ []

abbrev test_credentials : Credentials
test_credentials = record {
  pai_certificate = 1 ∷ [];
  dac_certificate = 2 ∷ [];
  certification_declaration = 3 ∷ [];
  sign = ok;
  attestation_challenge = some (4 ∷ []);
  csr = ok (5 ∷ []);
}

abbrev vendor_id : Attribute
vendor_id = record { name = "VendorID"; kind = "vendor_id"; nullable = false; value = num 65521 }

abbrev vendor_name : Attribute
vendor_name = record {
  name = "VendorName";
  kind = "char_string";
  nullable = false;
  value = undefined;
}

-- ArmFailSafe with an expiry, and CommissioningComplete.
abbrev arm : Invoke
arm = record {
  endpoint = 0;
  cluster = 48;
  command = 0;
  fields = more (scalar (context 0) (unsigned 60)) no_more;
}

abbrev complete : Invoke
complete = record { endpoint = 0; cluster = 48; command = 4; fields = no_more }

on_invoke_command_request-answers_example :
    (on_invoke_command_request plain_platform test_credentials root_endpoint
        (print plain_platform (request_element (arm ∷ complete ∷ [])))
      ≡ record { sent = map (answer plain_platform) (arm ∷ complete ∷ []); error = none })
    × All
        (λ c.
          decode_json plain_platform (answer plain_platform c).app
          ≡ ok (cons (json_of (answer_element c)) nil))
        (arm ∷ complete ∷ [])
unfolding any_bigint json_of value_of width cluster_at property property_key entry_at cluster_named
on_invoke_command_request-answers_example =
    on_invoke_command_request-answers plain_platform test_credentials root_endpoint
      (arm ∷ complete ∷ [])
      (
        (omega arith, omega arith, inl refl, omega arith, refl, refl),
        ((omega arith, omega arith, inr (inr refl), tt, refl, refl), tt),
      )

-- The vendor's id, the vendor's name, which has no value, and an attribute of a cluster that is not there.
abbrev three_reads : List Read
three_reads =
    record { endpoint = 0; cluster = 40; id = 2; found = some (vendor_id) }
    ∷ record { endpoint = 0; cluster = 40; id = 1; found = some (vendor_name) }
    ∷ record { endpoint = 0; cluster = 6; id = 0; found = none }
    ∷ []

on_read_request-reports_example :
    (on_read_request plain_platform root_endpoint
        (print plain_platform (read_request_element three_reads))
      ≡ record {
        sent = record { opcode = 5; app = print plain_platform (report_message three_reads) } ∷ [];
        error = none;
      })
    × (decode_json plain_platform (print plain_platform (report_message three_reads))
        ≡ ok (cons (json_of (report_message three_reads)) nil))
unfolding entry_at cluster_named
on_read_request-reports_example = on_read_request-reports plain_platform root_endpoint three_reads (
  (
    (omega arith, omega arith, omega arith),
    inr (65521, refl, omega arith),
    (root_clusters, refl, inr (inr (inl (refl, refl)))),
  ),
  (
    (
      (omega arith, omega arith, omega arith),
      inl refl,
      (root_clusters, refl, inr (inr (inl (refl, refl)))),
    ),
    (((omega arith, omega arith, omega arith), tt, (root_clusters, refl, inl (refl, refl))), tt),
  ),
)

-- The vendor's id, then an attribute of an endpoint that is not there, then one more.
abbrev known : Read
known = record { endpoint = 0; cluster = 40; id = 2; found = some (vendor_id) }

abbrev stray : Read
stray = record { endpoint = 7; cluster = 40; id = 2; found = none }

on_read_request_unserved_example :
    on_read_request plain_platform root_endpoint
      (print plain_platform (read_request_element ((known ∷ []) ++ stray ∷ known ∷ [])))
    ≡ record { sent = []; error = some type_error }
unfolding entry_at
on_read_request_unserved_example =
    on_read_request_unserved plain_platform root_endpoint (known ∷ []) stray (known ∷ [])
      (
        (
          (omega arith, omega arith, omega arith),
          inr (65521, refl, omega arith),
          (root_clusters, refl, inr (inr (inl (refl, refl)))),
        ),
        tt,
      )
      (omega arith, omega arith, omega arith) (inl refl)
      ((omega arith, omega arith, omega arith), tt)

-- A path to an attribute of every endpoint, on no node in particular.
new_attribute_path-serialize_example :
    (app : Buffer) × (app
      ≡ print plain_platform
          (container (context 1) list (open_path_members none none (some 40) (some 2))))
    × (serialize_attribute_path plain_platform (open_path none none (some 40) (some 2)) [] 1
        ≡ ok app)
    × ((decode_json plain_platform app >>= (λ vs. value_at (array_of vs) 0) >>= new_attribute_path)
        ≡ ok (open_path none none (some 40) (some 2)))
new_attribute_path-serialize_example =
    new_attribute_path-serialize plain_platform 1 none none (some 40) (some 2) (omega arith) tt tt
      (omega arith) (omega arith)

-- CommissioningComplete with a field of eight bytes.
abbrev wide_fields : Elements
wide_fields =
    more
      (request_element (
        record complete { fields = more (scalar (context 0) (unsigned 0x1_0000_0000)) no_more }
        ∷ []))
      no_more

on_protocol_message_bigint_example :
    on_protocol_message plain_platform test_credentials root_endpoint 8
      (print_each plain_platform wide_fields)
    ≡ record { sent = []; error = some type_error }
unfolding any_bigint json_of value_of width request_element command_elements path_element
on_protocol_message_bigint_example =
    on_protocol_message_bigint plain_platform test_credentials root_endpoint 8 wide_fields
      (inr refl) (omega arith) refl
