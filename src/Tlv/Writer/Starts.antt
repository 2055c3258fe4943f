-- ===== src/Tlv/Writer/Starts.antt =====
-- What the writer's calls append when they are made one by one, without JSON around the values.
use matternode.Prelude.{
  ℕ, ◌<◌, ◌^◌, ◌≡◌, refl, ◌∙◌, ap, [], ◌++◌, append-nil, append_assoc, arith, ok, Result, ◌>>=◌,
}
use matternode.Buffer.{Buffer}
use matternode.Tlv.{num, undefined, Platform}
use matternode.Tlv.Element.{
  Tag, scalar, unsigned, null, tag_of, profile_of, print_head, IsTag, print, json_of, kind_of,
  value_of,
}
use matternode.Tlv.Writer.{
  encode, encode_object, put, put_struct_start, put_array_start, put_list_start,
}
use matternode.Tlv.Writer.Appends.{put_unsigned_int-number, encode-print}
use matternode.Tlv.Writer.Pieces.{put_element-fixed}

module _ (buf : Buffer) (tag : Tag) (valid : IsTag tag) where
  pub put_struct_start-head :
      put_struct_start buf (tag_of tag) (profile_of tag) ≡ ok (buf ++ print_head tag 0x15)
  unfolding put_struct_start
  put_struct_start-head =
      put_element-fixed buf 0x15 tag [] valid refl (omega arith)
      ∙ ap (λ b. ok (buf ++ b)) (append-nil (print_head tag 0x15))

  pub put_array_start-head :
      put_array_start buf (tag_of tag) (profile_of tag) ≡ ok (buf ++ print_head tag 0x16)
  unfolding put_array_start
  put_array_start-head =
      put_element-fixed buf 0x16 tag [] valid refl (omega arith)
      ∙ ap (λ b. ok (buf ++ b)) (append-nil (print_head tag 0x16))

  pub put_list_start-head :
      put_list_start buf (tag_of tag) (profile_of tag) ≡ ok (buf ++ print_head tag 0x17)
  unfolding put_list_start
  put_list_start-head =
      put_element-fixed buf 0x17 tag [] valid refl (omega arith)
      ∙ ap (λ b. ok (buf ++ b)) (append-nil (print_head tag 0x17))

  pub put-undefined :
      (platform : Platform)
      → put platform buf undefined (tag_of tag) (profile_of tag)
        ≡ ok (buf ++ print platform (scalar tag null))
  unfolding encode
  put-undefined platform = same ∙ encode-print platform (scalar tag null) buf (valid, tt)
    where
      same :
          put platform buf undefined (tag_of tag) (profile_of tag)
          ≡ encode platform buf (json_of (scalar tag null))
      same = unfold encode_object json_of kind_of value_of in refl

  pub put-number :
      (platform : Platform) (n : ℕ)
      → n < 256 ^ 8
      → put platform buf (num n) (tag_of tag) (profile_of tag)
        ≡ ok (buf ++ print platform (scalar tag (unsigned n)))
  unfolding encode
  put-number platform n small = put_unsigned_int-number platform buf tag valid n small

-- A call that only appends these bytes to the writer's buffer.
abbrev pub Adds : (Buffer → Result Buffer) → Buffer → Type 0
Adds call out = (buf : Buffer) → call buf ≡ ok (buf ++ out)

pub then-Adds :
    (first second : Buffer → Result Buffer) (a b : Buffer)
    → Adds first a
    → Adds second b
    → Adds (λ buf. first buf >>= second) (a ++ b)
then-Adds first second a b f g buf = rw (f buf) (g (buf ++ a) ∙ ap ok (append_assoc buf a b))
