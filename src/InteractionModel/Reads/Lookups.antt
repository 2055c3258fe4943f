-- ===== src/InteractionModel/Reads/Lookups.antt =====
-- What an endpoint has for a path of src/protocols/interaction_model/ImReadMixin.js, by the tables.
use matternode.Prelude.{
  ◌⊎◌, throw, type_error, ℕ, ◌^◌, ◌<◌, ◌≡◌, refl, List, [], ◌∷◌, Option, none, some, arith, inl,
  inr, ok, All, false,
}
use matternode.Tlv.{array_of, num, Platform}
use matternode.Tlv.Element.{json_of, json_of_each, IsElement, AreElements}
use matternode.Tlv.Element.Templates.{value_of-small}
use matternode.Tlv.Reader.{find_entry, find_tag}
use Prim.Native.String.{String}
use matternode.InteractionModel.Commands.{cluster_at}
use matternode.InteractionModel.Clusters.{cluster_named, get_attribute}
use matternode.InteractionModel.{property, property_key, entry_at, Endpoints, any_bigint}
use matternode.InteractionModel.Attributes.{
  Attribute, basic_attributes, general_commissioning_attributes, network_commissioning_attributes,
}
use matternode.InteractionModel.Paths.{new_attribute_path}
use matternode.InteractionModel.Reads.{attribute_of, get_attribute_on_endpoint}
use matternode.InteractionModel.Reads.Formats.{
  Read, path_of, path_members, path_elements, read_request_element, IsPlain,
}

-- Numbers below 2^32.
abbrev pub IsNumbered : Read → Type 0
IsNumbered r = (r.endpoint < 256 ^ 4) × (r.cluster < 256 ^ 4) × (r.id < 256 ^ 4)

abbrev pub HasPlain : Option Attribute → Type 0
HasPlain none = Unit {0}
HasPlain (some found) = IsPlain found.value

-- What there is for a cluster and an attribute: nothing, where the endpoint has no class for the cluster
-- or one without a server, and else what the table of the server has. The server of the operational
-- credentials has no table.
abbrev pub Finds : List (ℕ × String) → ℕ → ℕ → Option Attribute → Type 0
Finds classes c a found =
    ((entry_at classes c ≡ none) × (found ≡ none))
    ⊎ ((name : String) × (entry_at classes c ≡ some name)
        × (cluster_named name ≡ none)
        × (found ≡ none))
    ⊎ ((entry_at classes c ≡ some "ClusterBasicServer") × (found ≡ entry_at basic_attributes a))
    ⊎ ((entry_at classes c ≡ some "ClusterGeneralCommissioningServer")
        × (found ≡ entry_at general_commissioning_attributes a))
    ⊎ ((entry_at classes c ≡ some "ClusterNetworkCommissioningServer")
        × (found ≡ entry_at network_commissioning_attributes a))

-- A path of an endpoint that there is, with what the tables have for it: nothing, or an attribute
-- without a value or with a number.
abbrev pub IsLookedUp : Endpoints → Read → Type 0
IsLookedUp endpoints r =
    IsNumbered r
    × HasPlain r.found
    × ((classes : List (ℕ × String)) × (entry_at endpoints r.endpoint ≡ some classes)
        × Finds classes r.cluster r.id r.found)

pub get_attribute_on_endpoint-Finds :
    (endpoints : Endpoints) (classes : List (ℕ × String)) (e c a : ℕ) (found : Option Attribute)
    → entry_at endpoints e ≡ some classes
    → Finds classes c a found
    → get_attribute_on_endpoint endpoints (num e) (path_of e c a) ≡ ok found
unfolding get_attribute_on_endpoint cluster_at property property_key attribute_of get_attribute
    cluster_named
get_attribute_on_endpoint-Finds endpoints classes e c a found here (inl (no_class, is)) =
    rw (get_attribute_on_endpoint, cluster_at, here, no_class, is) refl
get_attribute_on_endpoint-Finds endpoints classes e c a found here
      (inr (inl (name, has, no_server, is))) =
    rw (get_attribute_on_endpoint, cluster_at, here, has, no_server, is) refl
get_attribute_on_endpoint-Finds endpoints classes e c a found here (inr (inr (inl (has, is)))) =
    rw (get_attribute_on_endpoint, cluster_at, here, has, is) refl
get_attribute_on_endpoint-Finds endpoints classes e c a found here
      (inr (inr (inr (inl (has, is))))) =
    rw (get_attribute_on_endpoint, cluster_at, here, has, is) refl
get_attribute_on_endpoint-Finds endpoints classes e c a found here
      (inr (inr (inr (inr (has, is))))) =
    rw (get_attribute_on_endpoint, cluster_at, here, has, is) refl

-- What has no attributes to find: an endpoint that there is not, and the server of the operational
-- credentials.
abbrev pub IsUnserved : Endpoints → ℕ → ℕ → Type 0
IsUnserved endpoints e c =
    (entry_at endpoints e ≡ none)
    ⊎ ((classes : List (ℕ × String)) × (entry_at endpoints e ≡ some classes)
        × (entry_at classes c ≡ some "ClusterOperationalCredentialsServer"))

pub get_attribute_on_endpoint-IsUnserved :
    (endpoints : Endpoints) (e c a : ℕ)
    → IsUnserved endpoints e c
    → get_attribute_on_endpoint endpoints (num e) (path_of e c a) ≡ throw type_error
unfolding get_attribute_on_endpoint cluster_at property property_key attribute_of get_attribute
    cluster_named
get_attribute_on_endpoint-IsUnserved endpoints e c a (inl absent) =
    rw (get_attribute_on_endpoint, cluster_at, absent) refl
get_attribute_on_endpoint-IsUnserved endpoints e c a (inr (classes, here, has)) =
    rw (get_attribute_on_endpoint, cluster_at, here, has) refl

pub IsLookedUp-IsNumbered :
    (endpoints : Endpoints) (rs : List Read) → All (IsLookedUp endpoints) rs → All IsNumbered rs
IsLookedUp-IsNumbered endpoints [] h = tt
IsLookedUp-IsNumbered endpoints (r ∷ rs) h = ((h.0).0, IsLookedUp-IsNumbered endpoints rs h.1)

pub new_attribute_path-values :
    (e c a : ℕ) (he : e < 256 ^ 4) (hc : c < 256 ^ 4) (ha : a < 256 ^ 4)
    → new_attribute_path (array_of (json_of_each (path_members e c a))) ≡ ok (path_of e c a)
unfolding new_attribute_path json_of path_members find_tag find_entry
new_attribute_path-values e c a he hc ha =
    rw (value_of-small e he, value_of-small c hc, value_of-small a ha) refl

module _ (platform : Platform) where
  pub path_elements-AreElements :
      (rs : List Read) → All IsNumbered rs → AreElements platform (path_elements rs)
  unfolding path_elements path_members
  path_elements-AreElements [] h = tt
  path_elements-AreElements (r ∷ rs) h = (
    (
      tt,
      ((omega arith, omega arith), ((omega arith, omega arith), ((omega arith, omega arith), tt))),
    ),
    path_elements-AreElements rs h.1,
  )

  pub paths-without_bigint :
      (rs : List Read) → All IsNumbered rs → any_bigint (json_of_each (path_elements rs)) ≡ false
  unfolding any_bigint path_elements path_members json_of
  paths-without_bigint [] h = refl
  paths-without_bigint (r ∷ rs) h =
      rw
        (
          value_of-small r.endpoint (h.0).0,
          value_of-small r.cluster (h.0).1,
          value_of-small r.id (h.0).2,
          paths-without_bigint rs h.1,
        )
        refl

  pub read_request_element-IsElement :
      (rs : List Read) → All IsNumbered rs → IsElement platform (read_request_element rs)
  unfolding read_request_element
  read_request_element-IsElement rs h =
      (tt, ((omega arith, path_elements-AreElements rs h), ((omega arith, tt), tt)))
