-- ===== src/InteractionModel/Commands/Formats.antt =====
-- The formats of an invoke request and of the answers to it, apart from the code, and the code's templates
-- written in them.
use matternode.Prelude.{
  ℕ, ◌+◌, ◌^◌, ◌<◌, ◌≡◌, refl, ◌∙◌, false, List, [], ◌∷◌, arith, ok, if◌then◌else◌, ◌==◌,
}
use matternode.Tlv.{
  TypeName, num, field, untagged, Value, undefined, text, array_of, nil, cons, Platform,
}
use matternode.Tlv.Element.{
  context, anonymous, scalar, container, struct, array, list, unsigned, string, Scalar, Element,
  Elements, no_more, more, json_of, json_of_each, value_of, container_kind,
}
use matternode.Tlv.Element.Templates.{
  Writes, WritesEach, nil-WritesEach, cons-WritesEach, number-Writes, untyped-Writes,
  empty_text-Writes, truth-Writes, undefined-Writes, container-Writes, struct-Writes,
  value_of-small,
}
use matternode.Tlv.Reader.{find_entry, find_tag}
use matternode.InteractionModel.Paths.{CommandPath, new_command_path, command_path_template}
use matternode.InteractionModel.Responses.{response_status_template, response_data_template}

-- A command of an invoke request: its path and its fields.
pub record Invoke : Type 0 where
  pub endpoint : ℕ
  pub cluster : ℕ
  pub command : ℕ
  pub fields : Elements

-- The format of the path, of the command and of the request.
unfoldable pub path_members : ℕ → ℕ → ℕ → Elements
path_members endpoint cluster command = more (scalar (context 0) (unsigned endpoint)) (
    more (scalar (context 1) (unsigned cluster))
      (more (scalar (context 2) (unsigned command)) no_more))

unfoldable pub path_element : ℕ → ℕ → ℕ → Element
unfolding path_members
path_element endpoint cluster command =
    container (context 0) list (path_members endpoint cluster command)

unfoldable pub command_elements : List Invoke → Elements
unfolding path_element
command_elements [] = no_more
command_elements (c ∷ cs) =
    more
      (container anonymous struct (
        more (path_element c.endpoint c.cluster c.command)
          (more (container (context 1) struct c.fields) no_more)))
      (command_elements cs)

unfoldable pub request_element : List Invoke → Element
unfolding command_elements
request_element cs = container anonymous struct (
    more (scalar (context 0) (Scalar.boolean false)) (
      more (scalar (context 1) (Scalar.boolean false))
        (more (container (context 2) array (command_elements cs)) no_more)))

-- The format of an answer, around what is behind the suppress flag.
unfoldable pub response_element : Element → Element
response_element response = container anonymous struct (
    more (scalar (context 0) (Scalar.boolean false)) (
      more
        (container (context 1) array
          (more (container anonymous struct (more response no_more)) no_more))
        (more (scalar (context 0xFF) (unsigned 1)) no_more)))

-- Command data without an error, under the command's id and one, and a status of 0.
unfoldable pub data_element : ℕ → ℕ → ℕ → Element
data_element endpoint cluster command = container (context 0) struct (
    more (path_element endpoint cluster (command + 1)) (
      more
        (container (context 1) struct
          (more (scalar (context 0) (unsigned 0)) (more (scalar (context 1) (string [])) no_more)))
        no_more))

unfoldable pub status_element : ℕ → ℕ → ℕ → Element
status_element endpoint cluster command = container (context 1) struct (
    more (path_element endpoint cluster command) (
      more (container (context 1) struct (more (scalar (context 0) (unsigned 0)) no_more)) no_more))

-- What the server answers to ArmFailSafe, SetRegulatoryConfig and CommissioningComplete.
unfoldable pub answer_element : Invoke → Element
unfolding response_element data_element status_element
answer_element c = response_element (
    if c.command == 4
    then status_element c.endpoint c.cluster c.command
    else data_element c.endpoint c.cluster c.command)

abbrev pub path_of : ℕ → ℕ → ℕ → CommandPath
path_of e c k = record {
  endpoint_id = num e;
  cluster_id = num c;
  command_id = num k;
  attribute_id = undefined;
}

-- The path is read as it was.
new_command_path-values :
    (e c k : ℕ)
    → new_command_path (array_of (json_of_each (path_members e c k)))
      ≡ ok (record {
        endpoint_id = value_of (unsigned e);
        cluster_id = value_of (unsigned c);
        command_id = value_of (unsigned k);
        attribute_id = undefined;
      })
unfolding new_command_path json_of path_members find_tag find_entry
new_command_path-values e c k = refl

-- An answer's envelope.
around-Writes :
    (platform : Platform) (suppress response : Value) (r : Element)
    → Writes platform suppress (scalar (context 0) (Scalar.boolean false))
    → Writes platform response r
    → Writes platform
        (untagged TypeName.struct (
          cons suppress (
            cons
              (field 1 TypeName.array
                (array_of (cons (untagged TypeName.struct (cons response nil)) nil)))
              (cons (field 0xFF TypeName.uint8 (num 1)) nil))))
        (response_element r)
unfolding response_element container_kind
around-Writes platform suppress response r flag inside = struct-Writes platform anonymous _ _ tt (
    cons-WritesEach platform _ _ _ _ flag (
      cons-WritesEach platform _ _ _ _
        (container-Writes platform (context 1) array _ _ (omega arith) (
          cons-WritesEach platform _ _ _ _
            (struct-Writes platform anonymous _ _ tt
              (cons-WritesEach platform _ _ _ _ inside (nil-WritesEach platform)))
            (nil-WritesEach platform)))
        (cons-WritesEach platform _ _ _ _
          (number-Writes platform 0xFF TypeName.uint8 1 (omega arith) (omega arith) refl)
          (nil-WritesEach platform))))

module _ (platform : Platform) (e c k : ℕ) (he : e < 256 ^ 4) (hc : c < 256 ^ 4)
    (hk : k < 256 ^ 4) where
  path_template-Writes :
      Writes platform (command_path_template (path_of e c k) 0) (path_element e c k)
  unfolding command_path_template path_element container_kind
  path_template-Writes = container-Writes platform (context 0) list _ _ (omega arith) (
      cons-WritesEach platform _ _ _ _
        (number-Writes platform 0 TypeName.uint16 e (omega arith) (omega arith) refl)
        (cons-WritesEach platform _ _ _ _
          (number-Writes platform 1 TypeName.uint16 c (omega arith) (omega arith) refl)
          (cons-WritesEach platform _ _ _ _
            (number-Writes platform 2 TypeName.uint16 k (omega arith) (omega arith) refl)
            (nil-WritesEach platform))))

  pub new_command_path-members :
      new_command_path (array_of (json_of_each (path_members e c k))) ≡ ok (path_of e c k)
  new_command_path-members =
      new_command_path-values e c k
      ∙ rw (value_of-small e he) (rw (value_of-small c hc) (rw (value_of-small k hk) refl))

  -- The answers are written.
  pub status_template-Writes :
      Writes platform
        (response_status_template (path_of e c k) 0)
        (response_element (status_element e c k))
  unfolding response_status_template status_element
  status_template-Writes =
      around-Writes platform _ _ _ (undefined-Writes platform 0 (omega arith)) (
        struct-Writes platform (context 1) _ _ (omega arith) (
          cons-WritesEach platform _ _ _ _ path_template-Writes (
            cons-WritesEach platform _ _ _ _
              (struct-Writes platform (context 1) _ _ (omega arith) (
                cons-WritesEach platform _ _ _ _
                  (untyped-Writes platform 0 0 (omega arith) (omega arith))
                  (nil-WritesEach platform)))
              (nil-WritesEach platform))))

  no_error-WritesEach :
      WritesEach platform
        (cons (field 0 TypeName.other (num 0)) (cons (field 1 TypeName.other (text [])) nil))
        (more (scalar (context 0) (unsigned 0)) (more (scalar (context 1) (string [])) no_more))
  no_error-WritesEach =
      cons-WritesEach platform _ _ _ _
        (number-Writes platform 0 TypeName.other 0 (omega arith) (omega arith) refl)
        (cons-WritesEach platform _ _ _ _ (empty_text-Writes platform 1 (omega arith))
          (nil-WritesEach platform))

  pub data_template-Writes :
      Writes platform
        (response_data_template
          (path_of e c k)
          (cons (field 0 TypeName.other (num 0)) (cons (field 1 TypeName.other (text [])) nil)))
        (response_element (
          container (context 0) struct (
            more (path_element e c k) (
              more
                (container (context 1) struct (
                  more
                    (scalar (context 0) (unsigned 0))
                    (more (scalar (context 1) (string [])) no_more)))
                no_more))))
  unfolding response_data_template
  data_template-Writes =
      around-Writes platform _ _ _ (truth-Writes platform 0 false (omega arith)) (
        struct-Writes platform (context 0) _ _ (omega arith) (
          cons-WritesEach platform _ _ _ _ path_template-Writes (
            cons-WritesEach platform _ _ _ _
              (struct-Writes platform (context 1) _ _ (omega arith) no_error-WritesEach)
              (nil-WritesEach platform))))
