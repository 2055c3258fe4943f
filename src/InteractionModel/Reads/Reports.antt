-- ===== src/InteractionModel/Reads/Reports.antt =====
-- A read request for attributes, from its bytes to the bytes of the report.
use matternode.Prelude.{
  ℕ, ◌^◌, ◌<◌, ◌≡◌, refl, sym, ap, ◌∙◌, List, [], ◌∷◌, append_assoc, append-nil, Option, none, some,
  arith, inl, inr, ok, pos, Result, ◌>>=◌, All, false,
}
use matternode.Buffer.{Buffer}
use matternode.Tlv.{Value, nil, cons, Platform}
use matternode.Tlv.Element.{
  context, anonymous, json_of, json_of_each, value_of, print, print_each, container_code, IsScalar,
  AreElements, Elements,
}
use matternode.Tlv.Element.Templates.{decode_json-print}
use matternode.Tlv.Reader.{decode_json, value_at, find_entry, find_tag}
use matternode.Tlv.Writer.{put_struct_start, put_array_start, put_container_end}
use matternode.Tlv.Writer.Appends.{put_container_end-code}
use matternode.Tlv.Writer.Starts.{Adds, then-Adds, put_struct_start-head, put_array_start-head}
use matternode.InteractionModel.{Endpoints, any_bigint, stringified}
use matternode.InteractionModel.Attributes.{Attribute}
use matternode.InteractionModel.Commands.{entry_value}
use matternode.InteractionModel.Reads.{
  report_found, report_entry, report_entries, report_list, read_report, on_read_request,
}
use matternode.InteractionModel.Reads.Formats.{
  Read, path_of, path_members, path_elements, read_request_element, datum, IsPlain, report_element,
  with_report, report_elements, report_message, report-Adds,
}
use matternode.InteractionModel.Reads.Lookups.{
  HasPlain, IsLookedUp, IsNumbered, IsLookedUp-IsNumbered, get_attribute_on_endpoint-Finds,
  new_attribute_path-values, paths-without_bigint, read_request_element-IsElement,
}

datum-IsScalar : (platform : Platform) (v : Value) → IsPlain v → IsScalar platform (datum v)
unfolding datum
datum-IsScalar platform v (inl nothing) = rw nothing tt
datum-IsScalar platform v (inr (n, is, small)) = rw is (omega arith)

with_report-AreElements :
    (platform : Platform) (e c a : ℕ) (found : Option Attribute) (rest : Elements)
    → e < 256 ^ 4
    → c < 256 ^ 4
    → a < 256 ^ 4
    → HasPlain found
    → AreElements platform rest
    → AreElements platform (with_report e c a found rest)
unfolding with_report report_element path_members
with_report-AreElements platform e c a none rest he hc ha plain valid = valid
with_report-AreElements platform e c a (some found) rest he hc ha plain valid = (
  (
    tt,
    (
      (
        omega arith,
        (
          omega arith,
          (
            (omega arith, omega arith),
            ((omega arith, datum-IsScalar platform found.value plain), tt),
          ),
        ),
      ),
      tt,
    ),
  ),
  valid,
)

module _ (platform : Platform) (endpoints : Endpoints) where
  found-Adds :
      (e c a : ℕ) (found : Option Attribute) (rest : Elements)
      → e < 256 ^ 4
      → c < 256 ^ 4
      → a < 256 ^ 4
      → HasPlain found
      → (next : Buffer → Result Buffer) → Adds next (print_each platform rest)
      → Adds
          (λ buf. report_found platform buf found (path_of e c a) >>= next)
          (print_each platform (with_report e c a found rest))
  unfolding report_found with_report print
  found-Adds e c a none rest he hc ha plain next then buf = then buf
  found-Adds e c a (some found) rest he hc ha plain next then buf =
      then-Adds _ next _ _ (report-Adds platform e c a he hc ha found plain) then buf

  entries-Adds :
      (rs : List Read)
      → All (IsLookedUp endpoints) rs
      → Adds
          (λ buf. report_entries platform endpoints buf (json_of_each (path_elements rs)))
          (print_each platform (report_elements rs))
  unfolding report_entries report_entry path_elements json_of report_elements entry_value
  entries-Adds [] h buf = unfold print in ap ok (sym (append-nil buf))
  entries-Adds (r ∷ rs) ((fits, plain, (classes, here, finds)), h) buf =
      rw
        (
          new_attribute_path-values r.endpoint r.cluster r.id fits.0 fits.1 fits.2,
          get_attribute_on_endpoint-Finds endpoints classes r.endpoint r.cluster r.id r.found here
              finds,
        )
        (found-Adds r.endpoint r.cluster r.id r.found (report_elements rs) fits.0 fits.1 fits.2
          plain _ (entries-Adds rs h) buf)

  -- The report is put together around its entries.
  report-print :
      (rs : List Read)
      → All (IsLookedUp endpoints) rs
      → (put_struct_start [] none none
          >>= (λ b. put_array_start b (some (pos 1)) none)
          >>= (λ b. report_entries platform endpoints b (json_of_each (path_elements rs)))
          >>= put_container_end
          >>= put_container_end)
        ≡ ok (print platform (report_message rs))
  unfolding print report_message container_code
  report-print rs h =
      then-Adds
        (λ b.
          put_struct_start b none none
          >>= (λ b. put_array_start b (some (pos 1)) none)
          >>= (λ b. report_entries platform endpoints b (json_of_each (path_elements rs)))
          >>= put_container_end)
        put_container_end _ _
        (then-Adds _ put_container_end _ _
          (then-Adds _ _ _ _
            (then-Adds (λ b. put_struct_start b none none) _ _ _
              (λ b. put_struct_start-head b anonymous tt)
              (λ b. put_array_start-head b (context 1) (omega arith)))
            (entries-Adds rs h))
          put_container_end-code)
        put_container_end-code []
      ∙ ap ok (simp (append_assoc, append-nil))

  report_elements-AreElements :
      (rs : List Read) → All (IsLookedUp endpoints) rs → AreElements platform (report_elements rs)
  unfolding report_elements
  report_elements-AreElements [] h = tt
  report_elements-AreElements (r ∷ rs) ((fits, plain, _), h) =
      with_report-AreElements platform r.endpoint r.cluster r.id r.found (report_elements rs) fits.0
        fits.1 fits.2 plain (report_elements-AreElements rs h)

-- A read request for attributes by paths of numbers below 2^32, each of an endpoint that there is and of a
-- cluster that has no class there, a class without a server, or a server with a table of attributes (not the
-- one of the operational credentials), where each attribute that the table has has no value or a number below
-- 2^32, is answered by one report and without an error. The report has an entry for each attribute that the
-- table has, in the order of the request, with the path and with the value, or a null; it is the format's
-- encoding of these entries, and a peer decodes it to their JSON.
pub on_read_request-reports :
    (platform : Platform) (endpoints : Endpoints) (rs : List Read)
    → All (IsLookedUp endpoints) rs
    → (on_read_request platform endpoints (print platform (read_request_element rs)) ≡ record {
      sent = record { opcode = 5; app = print platform (report_message rs) } ∷ [];
      error = none;
    })
      × (decode_json platform (print platform (report_message rs))
          ≡ ok (cons (json_of (report_message rs)) nil))
unfolding on_read_request read_report report_list stringified value_at find_tag find_entry
on_read_request-reports platform endpoints rs h = (
  rw
      (decode_json-print platform (read_request_element rs)
        (read_request_element-IsElement platform rs numbered))
      (rw quiet
        (unfold json_of read_request_element in rw (report-print platform endpoints rs h) refl)),
  decode_json-print platform (report_message rs) (
      unfold report_message in
      (tt, ((omega arith, report_elements-AreElements platform endpoints rs h), tt))),
)
  where
    numbered : All IsNumbered rs
    numbered = IsLookedUp-IsNumbered endpoints rs h

    quiet : any_bigint (cons (json_of (read_request_element rs)) nil) ≡ false
    quiet =
        unfold any_bigint json_of read_request_element value_of in
        rw (paths-without_bigint platform rs numbered) refl
