-- ===== src/InteractionModel/Paths/Members.antt =====
-- The members of an attribute path, each of which may be left open: as format, written and found.
use matternode.Prelude.{
  ℕ, ◌^◌, ◌<◌, ◌≡◌, refl, sym, ap, ◌∙◌, ◌==◌, ◌++◌, append_assoc, append-nil, Option, none, some,
  arith, ok, false,
}
use matternode.Tlv.{num, Value, undefined, Platform}
use matternode.Tlv.Element.{
  context, scalar, unsigned, json_of, json_of_each, print, print_each, AreElements, no_more, more,
  Elements,
}
use matternode.Tlv.Element.Templates.{value_of-small}
use matternode.Tlv.Reader.{find_entry}
use matternode.Tlv.Writer.Appends.{put_unsigned_int-number}
use matternode.Tlv.Writer.Starts.{Adds}
use matternode.InteractionModel.Paths.{AttributePath, put_member}

-- A member of a path: a number, or left open.
abbrev pub member : Option ℕ → Value
member none = undefined
member (some n) = num n

abbrev pub Fits : Option ℕ → Type 0
Fits none = Unit {0}
Fits (some n) = n < 256 ^ 4

-- The members that are there, in front of others.
unfoldable pub with_member : ℕ → Option ℕ → Elements → Elements
with_member t none rest = rest
with_member t (some n) rest = more (scalar (context t) (unsigned n)) rest

unfoldable pub open_path_members : Option ℕ → Option ℕ → Option ℕ → Option ℕ → Elements
unfolding with_member
open_path_members node e c a =
    with_member 1 node (with_member 2 e (with_member 3 c (with_member 4 a no_more)))

abbrev pub open_path : Option ℕ → Option ℕ → Option ℕ → Option ℕ → AttributePath
open_path node e c a = record {
  enable_tag_compression = undefined;
  node_id = member node;
  endpoint_id = member e;
  cluster_id = member c;
  attribute_id = member a;
}

module _ (platform : Platform) where
  pub put_member-Adds :
      (t : ℕ) (m : Option ℕ)
      → t < 256
      → Fits m
      → Adds
          (put_member platform (member m) (member m) t)
          (print_each platform (with_member t m no_more))
  unfolding put_member with_member print
  put_member-Adds t none small fits buf = ap ok (sym (append-nil buf))
  put_member-Adds t (some n) small fits buf =
      put_unsigned_int-number platform buf (context t) small n (omega arith)
      ∙ ap (λ b. ok (buf ++ b)) (sym (append-nil _))

  print_each-with_member :
      (t : ℕ) (m : Option ℕ) (rest : Elements)
      → print_each platform (with_member t m rest)
        ≡ print_each platform (with_member t m no_more) ++ print_each platform rest
  unfolding with_member print
  print_each-with_member t none rest = refl
  print_each-with_member t (some n) rest = simp (append_assoc, append-nil)

  pub open_path_members-print :
      (node e c a : Option ℕ)
      → print_each platform (open_path_members node e c a)
        ≡ print_each platform (with_member 1 node no_more)
          ++ (print_each platform (with_member 2 e no_more)
              ++ (print_each platform (with_member 3 c no_more)
                  ++ print_each platform (with_member 4 a no_more)))
  unfolding open_path_members
  open_path_members-print node e c a =
      print_each-with_member 1 node _
      ∙ ap (λ b. print_each platform (with_member 1 node no_more) ++ b)
          (print_each-with_member 2 e _
            ∙ ap (λ b. print_each platform (with_member 2 e no_more) ++ b)
                (print_each-with_member 3 c _))

  pub with_member-AreElements :
      (t : ℕ) (m : Option ℕ) (rest : Elements)
      → t < 256
      → Fits m
      → AreElements platform rest
      → AreElements platform (with_member t m rest)
  unfolding with_member
  with_member-AreElements t none rest small fits valid = valid
  with_member-AreElements t (some n) rest small fits valid = ((small, omega arith), valid)

pub find-with_member :
    (t : ℕ) (m : Option ℕ) (rest : Elements)
    → Fits m
    → find_entry (json_of_each rest) t ≡ ok undefined
    → find_entry (json_of_each (with_member t m rest)) t ≡ ok (member m)
unfolding with_member find_entry json_of
find-with_member t none rest fits absent = absent
find-with_member t (some n) rest fits absent = rw (value_of-small n fits) (ground arith)

pub find-with_member_other :
    (t k : ℕ) (m : Option ℕ) (rest : Elements)
    → (t == k) ≡ false
    → find_entry (json_of_each (with_member t m rest)) k ≡ find_entry (json_of_each rest) k
unfolding with_member find_entry json_of
find-with_member_other t k none rest apart = refl
find-with_member_other t k (some n) rest apart = rw apart refl
