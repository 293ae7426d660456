-- ===== src/Schema/Types.antt =====
-- The schema dialect's types, its parsed nodes and the violations that a validation reports.
use netfyr.Base.{
  String, Bool, true, false, Option, none, some, List, Result, ok, err, if◌then◌else◌,
}
use netfyr.Base.Int.{ℤ}
use netfyr.Base.Equality.{◌==◌, string_eq}
use netfyr.Base.Text.{◌<>◌, is_empty_text, join}
use netfyr.Value.{display_int}

pub data FieldType : Type 0 where
  string boolean integer object array ip_address ip_network : FieldType

unfoldable pub field_type_text : FieldType → String
field_type_text FieldType.string = "string"
field_type_text FieldType.boolean = "boolean"
field_type_text FieldType.integer = "integer"
field_type_text FieldType.object = "object"
field_type_text FieldType.array = "array"
field_type_text FieldType.ip_address = "ip"
field_type_text FieldType.ip_network = "ip-network"

pub data SchemaFormat : Type 0 where
  ipv4_cidr : SchemaFormat

pub record FieldInfo : Type 0 where
  pub writable : Bool
  pub field_type : FieldType

pub data ValidationError : Type 0 where
  unknown_field read_only_field missing_field : (fragment path : String) → ValidationError
  out_of_range : (fragment path : String) (min max : Option ℤ) → ValidationError
  wrong_type : (fragment path : String) (expected found : FieldType) → ValidationError
  enum_violation : (fragment path : String) (allowed : List String) → ValidationError
  invalid_format : (fragment path expected : String) → ValidationError

abbrev range_text : Option ℤ → Option ℤ → String
range_text (some low) (some high) = "between " <> display_int low <> " and " <> display_int high
range_text (some low) none = "at least " <> display_int low
range_text none (some high) = "at most " <> display_int high
range_text none none = "the allowed range"

-- `impl Display for ValidationError`
unfoldable pub validation_error_text : ValidationError → String
unfolding field_type_text join
validation_error_text (unknown_field fragment path) =
    "unknown field '" <> path <> "' in the '" <> fragment <> "' fragment"
validation_error_text (read_only_field fragment path) =
    "field '" <> path <> "' is read-only and cannot be set ('" <> fragment <> "' fragment)"
validation_error_text (missing_field fragment path) =
    "field '" <> path <> "' is required ('" <> fragment <> "' fragment)"
validation_error_text (out_of_range fragment path min max) =
    "value of '"
    <> path
    <> "' is out of range: expected "
    <> range_text min max
    <> " ('"
    <> fragment
    <> "' fragment)"
validation_error_text (wrong_type fragment path expected found) =
    "field '"
    <> path
    <> "' has the wrong type: expected "
    <> field_type_text expected
    <> ", found "
    <> field_type_text found
    <> " ('"
    <> fragment
    <> "' fragment)"
validation_error_text (enum_violation fragment path allowed) =
    "field '"
    <> path
    <> "' must be one of: "
    <> join ", " allowed
    <> " ('"
    <> fragment
    <> "' fragment)"
validation_error_text (invalid_format fragment path expected) =
    "field '" <> path <> "' must use " <> expected <> " format ('" <> fragment <> "' fragment)"

-- The keywords of a node that hold no node.
pub record Keywords : Type 0 where
  pub field_type : Option FieldType
  pub format : Option SchemaFormat
  pub writable : Bool
  pub minimum : Option ℤ
  pub maximum : Option ℤ
  pub enum_values : Option (List String)
  pub required : Option (List String)
  pub additional_properties : Option Bool
  pub implied_device_type : Option String

-- `struct SchemaNode`: the keywords, then `properties` and `items`, which hold nodes.
mutual
  pub data SchemaNode : Type 0 where
    node : Keywords → Properties → ItemSchema → SchemaNode

  pub data Properties : Type 0 where
    no_properties : Properties
    properties : Props → Properties

  pub data Props : Type 0 where
    last : Props
    prop : String → SchemaNode → Props → Props

  pub data ItemSchema : Type 0 where
    no_items : ItemSchema
    items : SchemaNode → ItemSchema

abbrev pub keywords : SchemaNode → Keywords
keywords (node k p i) = k

abbrev pub get_prop : String → Props → Option SchemaNode
get_prop key last = none
get_prop key (prop name n rest) = if name == key then some n else get_prop key rest

-- `node.properties.as_ref().and_then(|props| props.get(key))`
abbrev pub property : SchemaNode → String → Option SchemaNode
property (node k no_properties i) key = none
property (node k (properties ps) i) key = get_prop key ps

-- `node.items.as_deref()`
abbrev pub item_schema : SchemaNode → Option SchemaNode
item_schema (node k p no_items) = none
item_schema (node k p (items n)) = some n

unfoldable pub semantic_type : SchemaNode → Result FieldType String
semantic_type n = elim (keywords n).field_type [
  | none ↦ err "schema node without a 'type' keyword"
  | some t ↦ elim (keywords n).format [
    | none ↦ ok t
    | some ipv4_cidr ↦ elim t [
      | FieldType.string ↦ ok FieldType.ip_network
      | _ ↦ err "ipv4-cidr schema format requires type string"
    ]
  ]
]

-- `semantic_type(node).expect(..)`: the nodes of a registry have a type (`validate_schema_node`),
-- so the panic, here the type `string`, is not reached.
unfoldable pub expected_type : SchemaNode → FieldType
unfolding semantic_type
expected_type n = elim (semantic_type n) [ ok t ↦ t | err e ↦ FieldType.string ]

-- The whole subtree has types that fit its formats.
unfoldable mutual
  unfolding semantic_type

  pub validate_schema_node : SchemaNode → Result (Unit {0}) String
  validate_schema_node (node k p i) = elim (semantic_type (node k p i)) [
    | err e ↦ err e
    | ok t ↦ elim (validate_properties p) [ err e ↦ err e | ok _ ↦ validate_items i ]
  ]

  pub validate_properties : Properties → Result (Unit {0}) String
  validate_properties no_properties = ok tt
  validate_properties (properties ps) = validate_props ps

  pub validate_props : Props → Result (Unit {0}) String
  validate_props last = ok tt
  validate_props (prop name n rest) = elim (validate_schema_node n) [
    | err e ↦ err ("property '" <> name <> "': " <> e)
    | ok _ ↦ validate_props rest
  ]

  pub validate_items : ItemSchema → Result (Unit {0}) String
  validate_items no_items = ok tt
  validate_items (items n) = elim (validate_schema_node n) [
    | err e ↦ err ("array items: " <> e)
    | ok _ ↦ ok tt
  ]

unfoldable pub join_path : String → String → String
join_path prefix key = if is_empty_text prefix then key else prefix <> "." <> key

-- A node as the JSON of a leaf gives it: the keywords that are absent have their defaults.
abbrev pub plain : FieldType → Bool → Keywords
plain t writable = record {
  field_type = some t;
  format = none;
  writable = writable;
  minimum = none;
  maximum = none;
  enum_values = none;
  required = none;
  additional_properties = none;
  implied_device_type = none;
}

-- `fn writable_object`
abbrev pub writable_object : SchemaNode
writable_object =
    node (record (plain FieldType.object true) { additional_properties = some false })
      (properties last) no_items
