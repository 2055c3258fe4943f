-- ===== src/InteractionModel/Paths/RoundTrip.antt =====
-- An attribute path is read as it was written, whichever of its members are left open.
use matternode.Prelude.{
  ℕ, ◌<◌, ◌≡◌, refl, ap, ◌∙◌, ◌==◌, [], ◌++◌, append_assoc, Option, none, some, arith, ok, ◌>>=◌,
  pos, false,
}
use matternode.Buffer.{Buffer}
use matternode.Tlv.{undefined, array_of, Platform}
use matternode.Tlv.Element.{
  context, container, list, json_of, json_of_each, print, container_code, IsElement, no_more,
  Element,
}
use matternode.Tlv.Element.Templates.{decode_json-print}
use matternode.Tlv.Reader.{decode_json, value_at, find_entry, find_tag}
use matternode.Tlv.Writer.{put_list_start, put_container_end}
use matternode.Tlv.Writer.Appends.{put_container_end-code}
use matternode.Tlv.Writer.Starts.{Adds, then-Adds, put_list_start-head}
use matternode.InteractionModel.Paths.{new_attribute_path, serialize_attribute_path}
use matternode.InteractionModel.Paths.Members.{
  Fits, with_member, open_path_members, open_path, put_member-Adds, open_path_members-print,
  with_member-AreElements, find-with_member, find-with_member_other,
}

-- No member in front of the ones that are named has the tag.
module _ (k : ℕ) (node e c a : Option ℕ) where
  skip_attribute :
      (4 == k) ≡ false → find_entry (json_of_each (with_member 4 a no_more)) k ≡ ok undefined
  skip_attribute p = find-with_member_other 4 k a no_more p ∙ unfold find_entry json_of in refl

  skip_cluster :
      (3 == k) ≡ false
      → (4 == k) ≡ false
      → find_entry (json_of_each (with_member 3 c (with_member 4 a no_more))) k ≡ ok undefined
  skip_cluster p q = find-with_member_other 3 k c (with_member 4 a no_more) p ∙ skip_attribute q

  skip_endpoint :
      (2 == k) ≡ false
      → (3 == k) ≡ false
      → (4 == k) ≡ false
      → find_entry (json_of_each (with_member 2 e (with_member 3 c (with_member 4 a no_more)))) k
        ≡ ok undefined
  skip_endpoint p q r =
      find-with_member_other 2 k e (with_member 3 c (with_member 4 a no_more)) p ∙ skip_cluster q r

module _ (node e c a : Option ℕ) (hn : Fits node) (he : Fits e) (hc : Fits c) (ha : Fits a) where
  new_attribute_path-members :
      new_attribute_path (array_of (json_of_each (open_path_members node e c a)))
      ≡ ok (open_path node e c a)
  unfolding new_attribute_path open_path_members find_tag
  new_attribute_path-members =
      rw
        (
          find-with_member_other 1 0 node _ refl ∙ skip_endpoint 0 node e c a refl refl refl,
          find-with_member 1 node _ hn (skip_endpoint 1 node e c a refl refl refl),
          find-with_member_other 1 2 node _ refl
              ∙ find-with_member 2 e _ he (skip_cluster 2 node e c a refl refl),
          find-with_member_other 1 3 node _ refl
              ∙ find-with_member_other 2 3 e _ refl
              ∙ find-with_member 3 c _ hc (skip_attribute 3 node e c a refl),
          find-with_member_other 1 4 node _ refl
              ∙ find-with_member_other 2 4 e _ refl
              ∙ find-with_member_other 3 4 c _ refl
              ∙ find-with_member 4 a no_more ha (unfold find_entry json_of in refl),
        )
        refl

  module _ (platform : Platform) (tag : ℕ) (small : tag < 256) where
    pub open_path-Adds :
        Adds
          (λ buf. serialize_attribute_path platform (open_path node e c a) buf tag)
          (print platform (container (context tag) list (open_path_members node e c a)))
    unfolding serialize_attribute_path print container_code
    open_path-Adds buf =
        then-Adds _ put_container_end _ _
          (then-Adds _ _ _ _
            (then-Adds _ _ _ _
              (then-Adds _ _ _ _
                (then-Adds (λ b. put_list_start b (some (pos tag)) none) _ _ _
                  (λ b. put_list_start-head b (context tag) small)
                  (put_member-Adds platform 1 node (omega arith) hn))
                (put_member-Adds platform 2 e (omega arith) he))
              (put_member-Adds platform 3 c (omega arith) hc))
            (put_member-Adds platform 4 a (omega arith) ha))
          put_container_end-code buf
        ∙ ap (λ b. ok (buf ++ b))
            (rw (open_path_members-print platform node e c a) (simp (append_assoc)))

    open_path-IsElement :
        IsElement platform (container (context tag) list (open_path_members node e c a))
    unfolding open_path_members
    open_path-IsElement = (
      small,
      with_member-AreElements platform 1 node _ (omega arith) hn (
          with_member-AreElements platform 2 e _ (omega arith) he (
            with_member-AreElements platform 3 c _ (omega arith) hc
              (with_member-AreElements platform 4 a _ (omega arith) ha tt))),
    )

-- An attribute path whose node, endpoint, cluster and attribute are each a number below 2^32 or left open
-- is written, in the format's bytes for a list of the members that are there, and the constructor makes of
-- what the reader decodes from these bytes the same path.
pub new_attribute_path-serialize :
    (platform : Platform) (tag : ℕ) (node e c a : Option ℕ)
    → tag < 256
    → Fits node
    → Fits e
    → Fits c
    → Fits a
    → (app : Buffer) × (app
        ≡ print platform (container (context tag) list (open_path_members node e c a)))
      × (serialize_attribute_path platform (open_path node e c a) [] tag ≡ ok app)
      × ((decode_json platform app >>= (λ vs. value_at (array_of vs) 0) >>= new_attribute_path)
          ≡ ok (open_path node e c a))
unfolding value_at
new_attribute_path-serialize platform tag node e c a small hn he hc ha = (
  print platform element,
  refl,
  open_path-Adds node e c a hn he hc ha platform tag small [],
  rw
      (decode_json-print platform element
        (open_path-IsElement node e c a hn he hc ha platform tag small))
      (unfold json_of in new_attribute_path-members node e c a hn he hc ha),
)
  where
    element : Element
    element = container (context tag) list (open_path_members node e c a)
