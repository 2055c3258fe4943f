-- ===== src/InteractionModel/Reads/Unserved.antt =====
-- A read request with a path that has no attributes to find: report_entry of
-- src/protocols/interaction_model/ImReadMixin.js throws, and nothing is sent.
use matternode.Prelude.{
  ℕ, ◌^◌, ◌<◌, ◌≡◌, refl, List, [], ◌∷◌, ◌++◌, Option, none, some, arith, ok, throw, type_error,
  pos, ◌>>=◌, All, false,
}
use matternode.Buffer.{Buffer}
use matternode.Tlv.{nil, cons, Platform}
use matternode.Tlv.Element.{context, anonymous, json_of, json_of_each, value_of, print}
use matternode.Tlv.Element.Templates.{decode_json-print}
use matternode.Tlv.Reader.{value_at, find_entry, find_tag}
use matternode.Tlv.Writer.{put_struct_start, put_array_start}
use matternode.Tlv.Writer.Starts.{then-Adds, put_struct_start-head, put_array_start-head}
use matternode.InteractionModel.{Endpoints, any_bigint, stringified}
use matternode.InteractionModel.Attributes.{Attribute}
use matternode.InteractionModel.Commands.{entry_value}
use matternode.InteractionModel.Reads.{
  report_found, report_entry, report_entries, report_list, read_report, on_read_request,
}
use matternode.InteractionModel.Reads.Formats.{
  Read, path_of, path_elements, read_request_element, report-Adds,
}
use matternode.InteractionModel.Reads.Lookups.{
  HasPlain, IsLookedUp, IsUnserved, IsNumbered, get_attribute_on_endpoint-Finds,
  get_attribute_on_endpoint-IsUnserved, new_attribute_path-values, paths-without_bigint,
  read_request_element-IsElement,
}

-- Numbers of the paths before, of the one path, and of those after it.
IsNumbered-append :
    (endpoints : Endpoints) (before : List Read) (r : Read) (after : List Read)
    → All (IsLookedUp endpoints) before
    → IsNumbered r
    → All IsNumbered after
    → All IsNumbered (before ++ r ∷ after)
IsNumbered-append endpoints [] r after looked fits rest = (fits, rest)
IsNumbered-append endpoints (b ∷ before) r after looked fits rest =
    ((looked.0).0, IsNumbered-append endpoints before r after looked.1 fits rest)

report_starts :
    (out : Buffer) × ((put_struct_start [] none none
        >>= (λ b. put_array_start b (some (pos 1)) none))
      ≡ ok out)
report_starts = (
  _,
  then-Adds (λ b. put_struct_start b none none) (λ b. put_array_start b (some (pos 1)) none) _ _
      (λ b. put_struct_start-head b anonymous tt)
      (λ b. put_array_start-head b (context 1) (omega arith)) [],
)

module _ (platform : Platform) (endpoints : Endpoints) where
  report_found-ok :
      (e c a : ℕ) (found : Option Attribute) (buf : Buffer)
      → e < 256 ^ 4
      → c < 256 ^ 4
      → a < 256 ^ 4
      → HasPlain found
      → (out : Buffer) × (report_found platform buf found (path_of e c a) ≡ ok out)
  unfolding report_found
  report_found-ok e c a none buf he hc ha plain = (buf, refl)
  report_found-ok e c a (some found) buf he hc ha plain =
      (_, report-Adds platform e c a he hc ha found plain buf)

  report_entries-throw :
      (before : List Read) (r : Read) (after : List Read) (buf : Buffer)
      → All (IsLookedUp endpoints) before
      → IsNumbered r
      → IsUnserved endpoints r.endpoint r.cluster
      → report_entries platform endpoints buf (json_of_each (path_elements (before ++ r ∷ after)))
        ≡ throw type_error
  unfolding report_entries report_entry path_elements json_of entry_value
  report_entries-throw [] r after buf looked fits unserved =
      rw
        (
          new_attribute_path-values r.endpoint r.cluster r.id fits.0 fits.1 fits.2,
          get_attribute_on_endpoint-IsUnserved endpoints r.endpoint r.cluster r.id unserved,
        )
        refl
  report_entries-throw (b ∷ before) r after buf ((own, plain, (classes, here, finds)), looked) fits
        unserved =
      rw
        (
          new_attribute_path-values b.endpoint b.cluster b.id own.0 own.1 own.2,
          get_attribute_on_endpoint-Finds endpoints classes b.endpoint b.cluster b.id b.found here
              finds,
          reported.1,
        )
        (report_entries-throw before r after reported.0 looked fits unserved)
    where
      reported :
          (out : Buffer) × (report_found platform buf b.found (path_of b.endpoint b.cluster b.id)
            ≡ ok out)
      reported = report_found-ok b.endpoint b.cluster b.id b.found buf own.0 own.1 own.2 plain

-- A read request for attributes by paths of numbers below 2^32, one of them of an endpoint that there is not
-- or of the operational credentials server, throws a type error and sends no report, whatever the paths
-- before it found: each of these is of an endpoint that there is and of a cluster that has no class there, a
-- class without a server, or a server with a table, where the attributes have no value or a number below
-- 2^32. What follows it is not looked up.
pub on_read_request_unserved :
    (platform : Platform) (endpoints : Endpoints) (before : List Read) (r : Read)
    (after : List Read)
    → All (IsLookedUp endpoints) before
    → IsNumbered r
    → IsUnserved endpoints r.endpoint r.cluster
    → All IsNumbered after
    → on_read_request platform endpoints
        (print platform (read_request_element (before ++ r ∷ after)))
      ≡ record { sent = []; error = some type_error }
unfolding on_read_request read_report report_list stringified value_at find_tag find_entry
on_read_request_unserved platform endpoints before r after looked fits unserved rest =
    rw
      (decode_json-print platform (read_request_element (before ++ r ∷ after))
        (read_request_element-IsElement platform (before ++ r ∷ after) numbered))
      (rw quiet (
        unfold json_of read_request_element in
        rw
          (
            report_starts.1,
            report_entries-throw platform endpoints before r after _ looked fits unserved,
          )
          refl))
  where
    numbered : All IsNumbered (before ++ r ∷ after)
    numbered = IsNumbered-append endpoints before r after looked fits rest

    quiet : any_bigint (cons (json_of (read_request_element (before ++ r ∷ after))) nil) ≡ false
    quiet =
        unfold any_bigint json_of read_request_element value_of in
        rw (paths-without_bigint platform (before ++ r ∷ after) numbered) refl
