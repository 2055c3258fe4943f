-- ===== src/InteractionModel/Attributes.antt =====
-- The attribute tables of src/clusters: the constructors' `_attributes`. Every attribute is read-only and
-- not subscribed to; one without a value has an undefined value.
use Prim.Native.String.{String}
use matternode.Prelude.{ℕ, Bool, true, false, List, [], ◌∷◌}
use matternode.Tlv.{struct, Value, undefined, num, untyped, untagged, nil, cons}

pub record Attribute : Type 0 where
  pub name : String
  pub kind : String
  pub nullable : Bool
  pub value : Value

abbrev attribute : String → String → Bool → Value → Attribute
attribute name kind nullable value = record {
  name = name;
  kind = kind;
  nullable = nullable;
  value = value;
}

abbrev commissioning_info : Value
commissioning_info = untagged struct (cons (untyped 0 (num 60)) (cons (untyped 1 (num 900)) nil))

abbrev pub basic_attributes : List (ℕ × Attribute)
basic_attributes =
    (0, attribute "DataModelRevision" "int16u" false undefined)
    ∷ (1, attribute "VendorName" "char_string" false undefined)
    ∷ (2, attribute "VendorID" "vendor_id" false (num 65521))
    ∷ (3, attribute "ProductName" "char_string" false undefined)
    ∷ (4, attribute "ProductID" "int16u" false (num 32769))
    ∷ (5, attribute "NodeLabel" "char_string" false undefined)
    ∷ (6, attribute "Location" "char_string" false undefined)
    ∷ (7, attribute "HardwareVersion" "int16u" false undefined)
    ∷ (8, attribute "HardwareVersionString" "char_string" false undefined)
    ∷ (9, attribute "SoftwareVersion" "int32u" false undefined)
    ∷ (10, attribute "SoftwareVersionString" "char_string" false undefined)
    ∷ (11, attribute "ManufacturingDate" "char_string" false undefined)
    ∷ (12, attribute "PartNumber" "char_string" false undefined)
    ∷ (13, attribute "ProductURL" "long_char_string" false undefined)
    ∷ (14, attribute "ProductLabel" "char_string" false undefined)
    ∷ (15, attribute "SerialNumber" "char_string" false undefined)
    ∷ (16, attribute "LocalConfigDisabled" "boolean" false undefined)
    ∷ (17, attribute "Reachable" "boolean" false undefined)
    ∷ (18, attribute "UniqueID" "char_string" false undefined)
    ∷ (19, attribute "CapabilityMinima" "CapabilityMinimaStruct" false undefined)
    ∷ (65528, attribute "GeneratedCommandList" "array" false undefined)
    ∷ (65529, attribute "AcceptedCommandList" "array" false undefined)
    ∷ (65531, attribute "AttributeList" "array" false undefined)
    ∷ (65532, attribute "FeatureMap" "bitmap32" false undefined)
    ∷ (65533, attribute "ClusterRevision" "int16u" false undefined)
    ∷ []

abbrev pub general_commissioning_attributes : List (ℕ × Attribute)
general_commissioning_attributes =
    (0, attribute "Breadcrumb" "int64u" false (num 0))
    ∷ (1, attribute "BasicCommissioningInfo" "BasicCommissioningInfo" false commissioning_info)
    ∷ (2, attribute "RegulatoryConfig" "RegulatoryLocationType" false (num 0))
    ∷ (3, attribute "LocationCapability" "RegulatoryLocationType" false (num 2))
    ∷ (4, attribute "SupportsConcurrentConnection" "boolean" false undefined)
    ∷ (65528, attribute "GeneratedCommandList" "array" false undefined)
    ∷ (65529, attribute "AcceptedCommandList" "array" false undefined)
    ∷ (65531, attribute "AttributeList" "array" false undefined)
    ∷ (65532, attribute "FeatureMap" "bitmap32" false (num 0))
    ∷ (65533, attribute "ClusterRevision" "int16u" false (num 0))
    ∷ []

abbrev pub network_commissioning_attributes : List (ℕ × Attribute)
network_commissioning_attributes =
    (0, attribute "MaxNetworks" "int8u" false undefined)
    ∷ (1, attribute "Networks" "array" false undefined)
    ∷ (2, attribute "ScanMaxTimeSeconds" "int8u" false undefined)
    ∷ (3, attribute "ConnectMaxTimeSeconds" "int8u" false (num 0))
    ∷ (4, attribute "InterfaceEnabled" "boolean" false undefined)
    ∷ (5, attribute "LastNetworkingStatus" "NetworkCommissioningStatus" true undefined)
    ∷ (6, attribute "LastNetworkID" "octet_string" true undefined)
    ∷ (7, attribute "LastConnectErrorValue" "int32s" true undefined)
    ∷ (65528, attribute "GeneratedCommandList" "array" false undefined)
    ∷ (65529, attribute "AcceptedCommandList" "array" false undefined)
    ∷ (65531, attribute "AttributeList" "array" false undefined)
    ∷ (65532, attribute "FeatureMap" "bitmap32" false (num 4))
    ∷ (65533, attribute "ClusterRevision" "int16u" false undefined)
    ∷ []
