-- ===== src/InteractionModel/Reads/Formats.antt =====
-- The formats of a read request for attributes and of the report that answers it, apart from the code, and
-- what the code's calls of the writer append for them.
use matternode.Prelude.{
  ℕ, ◌^◌, ◌<◌, ◌≡◌, ap, ◌∙◌, ◌⊎◌, inl, inr, true, List, [], ◌∷◌, append_assoc, append-nil, Option,
  none, some, arith, pos, ok,
}
use matternode.Tlv.{num, Value, undefined, number, integer, Platform}
use matternode.Tlv.Element.{
  context, anonymous, scalar, container, struct, array, list, unsigned, null, Scalar, Element,
  Elements, no_more, more, print, container_code,
}
use matternode.Tlv.Writer.{put, put_struct_start, put_unsigned_int, put_container_end}
use matternode.Tlv.Writer.Appends.{put_unsigned_int-number, put_container_end-code}
use matternode.Tlv.Writer.Starts.{Adds, then-Adds, put_struct_start-head, put-undefined, put-number}
use matternode.InteractionModel.Attributes.{Attribute}
use matternode.InteractionModel.Paths.Members.{open_path_members, with_member}
use matternode.InteractionModel.Paths.RoundTrip.{open_path-Adds}
use matternode.InteractionModel.Paths.{AttributePath, serialize_attribute_path}
use matternode.InteractionModel.Reads.{report_attribute}

-- An attribute of a request: its endpoint, cluster and id, and what the endpoint has there.
pub record Read : Type 0 where
  pub endpoint : ℕ
  pub cluster : ℕ
  pub id : ℕ
  pub found : Option Attribute

abbrev pub path_of : ℕ → ℕ → ℕ → AttributePath
path_of e c a = record {
  enable_tag_compression = undefined;
  node_id = undefined;
  endpoint_id = num e;
  cluster_id = num c;
  attribute_id = num a;
}

unfoldable pub path_members : ℕ → ℕ → ℕ → Elements
path_members e c a =
    more (scalar (context 2) (unsigned e))
      (more (scalar (context 3) (unsigned c)) (more (scalar (context 4) (unsigned a)) no_more))

unfoldable pub path_elements : List Read → Elements
path_elements [] = no_more
path_elements (r ∷ rs) =
    more (container anonymous list (path_members r.endpoint r.cluster r.id)) (path_elements rs)

unfoldable pub read_request_element : List Read → Element
read_request_element rs = container anonymous struct (
    more (container (context 0) array (path_elements rs))
      (more (scalar (context 3) (Scalar.boolean true)) no_more))

-- A number, or a null for an attribute without a value.
unfoldable pub datum : Value → Scalar
datum (number (integer (pos n))) = unsigned n
datum _ = null

abbrev pub IsPlain : Value → Type 0
IsPlain v = (v ≡ undefined) ⊎ ((n : ℕ) × (v ≡ num n) × (n < 256 ^ 4))

-- A data version, the path and the value.
unfoldable pub report_element : ℕ → ℕ → ℕ → Value → Element
report_element e c a v = container anonymous struct (
    more
      (container (context 1) struct (
        more (scalar (context 0) (unsigned 0x79cea838)) (
          more (container (context 1) list (path_members e c a))
            (more (scalar (context 2) (datum v)) no_more))))
      no_more)

-- One more, if the attribute was found.
unfoldable pub with_report : ℕ → ℕ → ℕ → Option Attribute → Elements → Elements
with_report e c a none rest = rest
with_report e c a (some found) rest = more (report_element e c a found.value) rest

unfoldable pub report_elements : List Read → Elements
report_elements [] = no_more
report_elements (r ∷ rs) = with_report r.endpoint r.cluster r.id r.found (report_elements rs)

unfoldable pub report_message : List Read → Element
report_message rs =
    container anonymous struct (more (container (context 1) array (report_elements rs)) no_more)

module _ (platform : Platform) (e c a : ℕ) (he : e < 256 ^ 4) (hc : c < 256 ^ 4)
    (ha : a < 256 ^ 4) where
  path-Adds :
      Adds
        (λ buf. serialize_attribute_path platform (path_of e c a) buf 1)
        (print platform (container (context 1) list (path_members e c a)))
  unfolding path_members
  path-Adds =
      unfold open_path_members with_member in
      open_path-Adds none (some e) (some c) (some a) tt he hc ha platform 1 (omega arith)

  datum-Adds :
      (v : Value)
      → IsPlain v
      → Adds
          (λ buf. put platform buf v (some (pos 2)) none)
          (print platform (scalar (context 2) (datum v)))
  unfolding datum
  datum-Adds v (inl none_there) buf =
      rw none_there (put-undefined buf (context 2) (omega arith) platform)
  datum-Adds v (inr (n, is, small)) buf =
      rw is (put-number buf (context 2) (omega arith) platform n (omega arith))

  pub report-Adds :
      (found : Attribute)
      → IsPlain found.value
      → Adds
          (λ buf. report_attribute platform buf found (path_of e c a))
          (print platform (report_element e c a found.value))
  unfolding report_attribute report_element print container_code
  report-Adds found plain buf =
      then-Adds _ put_container_end _ _
        (then-Adds _ put_container_end _ _
          (then-Adds _ (λ b. put platform b found.value (some (pos 2)) none) _ _
            (then-Adds _ (λ b. serialize_attribute_path platform (path_of e c a) b 1) _ _
              (then-Adds _ (λ b. put_unsigned_int platform b (num 0x79cea838) (some (pos 0)) none) _
                _
                (then-Adds (λ b. put_struct_start b none none)
                  (λ b. put_struct_start b (some (pos 1)) none) _ _
                  (λ b. put_struct_start-head b anonymous tt)
                  (λ b. put_struct_start-head b (context 1) (omega arith)))
                (λ b.
                  put_unsigned_int-number platform b (context 0) (omega arith) 0x79cea838
                    (omega arith)))
              path-Adds)
            (datum-Adds found.value plain))
          put_container_end-code)
        put_container_end-code buf
      ∙ ap ok (simp (append_assoc, append-nil))
