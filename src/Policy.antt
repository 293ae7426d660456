-- ===== src/Policy.antt =====
-- crates/netfyr-policy/src/lib.rs: policies, their providers and the policy set. Load has the reading
-- of policy documents.
pub mod Names
pub mod Split
pub mod Produced
pub mod Load
pub mod Loaded
pub mod Directory
mod Tests
use netfyr.Base.{
  String, Bool, true, false, not, ◌&&◌, ◌||◌, Option, none, some, List, [], ◌∷◌, ◌++◌, find, any,
  is_nil, unwrap_or, if◌then◌else◌, Result, ok, err, ◌>>=◌,
}
use netfyr.Base.Int.{ℤ, pos}
use netfyr.Base.Equality.{◌==◌, string_eq}
use netfyr.Base.Text.{◌<>◌, is_empty_text}
use netfyr.Value.{IpAddr, Value, Entries, end, entry}
use netfyr.Value.Map.{is_empty}
use netfyr.Device.{
  Source, static, dhcp, ra, default_priority, Match, is_empty_match, State, new_state,
}
use netfyr.Schema.Types.{
  FieldType, ValidationError, validation_error_text, SchemaNode, node, no_properties, properties,
  last, prop, no_items, plain,
}
use netfyr.Schema.Registry.{SchemaRegistry, validate_writable}
use netfyr.Schema.Embedded.{new_registry}
use netfyr.Schema.Extend.{add_schema_node}
use netfyr.Error.{Error, error_text}

pub data PolicyError : Type 0 where
  io yaml invalid_top_level unknown_kind duplicate_name : String → PolicyError
  multi_document empty_name missing_match invalid_priority metadata_not_mapping : PolicyError
  empty_policy : PolicyError
  validation : List ValidationError → PolicyError
  state : Error → PolicyError

abbrev error_texts : List ValidationError → String
error_texts [] = ""
error_texts (e ∷ es) = "; " <> validation_error_text e <> error_texts es

-- `impl Display for PolicyError`
unfoldable pub policy_error_text : PolicyError → String
policy_error_text (io error) = "policy I/O error: " <> error
policy_error_text (yaml error) = "policy YAML error: " <> error
policy_error_text multi_document = "policy input contains more than one YAML document"
policy_error_text (invalid_top_level shape) =
    "policy input must be a mapping or a list of mappings, found " <> shape
policy_error_text (unknown_kind kind) = "unknown policy kind '" <> kind <> "'"
policy_error_text empty_name = "policy name must be a non-empty string"
policy_error_text (duplicate_name name) = "duplicate policy name '" <> name <> "'"
policy_error_text missing_match = "policy requires a non-empty match"
policy_error_text invalid_priority = "policy priority must be an i32 integer"
policy_error_text metadata_not_mapping = "policy metadata must be a mapping"
policy_error_text (validation errors) = "policy schema validation failed" <> error_texts errors
policy_error_text (state error) = error_text error
policy_error_text empty_policy = "policy has no static fields or provider declarations"

pub data ProviderSource : Type 0 where
  from_dhcp from_ra : ProviderSource

abbrev pub source_priority : ProviderSource → ℤ
source_priority from_dhcp = default_priority (dhcp "")
source_priority from_ra = default_priority (ra "")

pub record ProviderRegistration : Type 0 where
  pub kind : String
  pub domain : String
  pub key : String
  pub source : ProviderSource
  pub params_schema : SchemaNode

abbrev pub location : ProviderRegistration → String
location p = p.domain <> "." <> p.key

-- `DHCP4_SCHEMA` and `OPEN_PARAMS_SCHEMA`, parsed
abbrev pub dhcp4_schema : SchemaNode
dhcp4_schema =
    node (record (plain FieldType.object true) { additional_properties = some false })
      (properties (
        prop "send-hostname" (node (plain FieldType.boolean true) no_properties no_items) (
          prop "route-metric"
            (node (record (plain FieldType.integer true) { minimum = some (pos 0) }) no_properties
              no_items)
            last)))
      no_items

abbrev pub open_params_schema : SchemaNode
open_params_schema =
    node (record (plain FieldType.object true) { additional_properties = some true }) no_properties
      no_items

abbrev registered : String → String → String → ProviderSource → SchemaNode → ProviderRegistration
registered kind domain key source schema = record {
  kind = kind;
  domain = domain;
  key = key;
  source = source;
  params_schema = schema;
}

-- `PROVIDERS`
abbrev pub registrations : List ProviderRegistration
registrations =
    registered "dhcp4" "ipv4" "dhcp4" from_dhcp dhcp4_schema
    ∷ registered "dhcp6" "ipv6" "dhcp6" from_dhcp open_params_schema
    ∷ registered "ra" "ipv6" "ra" from_ra open_params_schema
    ∷ []

abbrev trigger_fragment : ProviderRegistration → String
trigger_fragment p = if p.domain == "ipv4" then "ipv4" else "base"

abbrev trigger_path : ProviderRegistration → String
trigger_path p = if p.domain == "ipv4" then p.key else p.domain <> "." <> p.key

-- The source panics when a node is refused, which does not happen for these.
abbrev pub add_schemas : List ProviderRegistration → SchemaRegistry → SchemaRegistry
add_schemas [] r = r
add_schemas (p ∷ ps) r =
    add_schemas ps (add_schema_node r (trigger_fragment p) (trigger_path p) (ok p.params_schema)).0

-- `ProviderRegistry::schema_registry`
unfoldable pub schema_registry : SchemaRegistry
schema_registry = add_schemas registrations new_registry

unfoldable pub registration : String → String → Option ProviderRegistration
registration domain key = find (λ r. r.domain == domain && r.key == key) registrations

pub record Policy : Type 0 where
  pub name : String
  pub match_spec : Match
  pub device_type : String
  pub fields : Entries
  pub priority : Option ℤ
  pub metadata : Option Entries

pub record ProviderDecl : Type 0 where
  pub kind : String
  pub source : ProviderSource
  pub policy : String
  pub location : String
  pub priority : ℤ
  pub params : Entries
  pub match_spec : Match
  pub device_type : String

pub record Production : Type 0 where
  pub state : Option State
  pub providers : List ProviderDecl

pub record ProduceAllOutcome : Type 0 where
  pub states : List State
  pub providers : List ProviderDecl

-- A validated trigger is a map: for another value the source panics, here the map is empty.
abbrev pub params_of : Value → Entries
params_of (Value.object params) = params
params_of other = end

abbrev pub declare : Policy → ProviderRegistration → Value → ProviderDecl
declare p r v = record {
  kind = r.kind;
  source = r.source;
  policy = p.name;
  location = location r;
  priority = source_priority r.source;
  params = params_of v;
  match_spec = p.match_spec;
  device_type = p.device_type;
}

-- A trigger leaves the map and becomes a declaration.
abbrev pub take_trigger :
    Policy
    → Option ProviderRegistration
    → String
    → Value
    → Entries × List ProviderDecl
    → Entries × List ProviderDecl
take_trigger p none key v (rest, ds) = (entry key v rest, ds)
take_trigger p (some r) key v (rest, ds) = (rest, declare p r v ∷ ds)

-- The inner loop of `produce`. The keys of a map are distinct: the loop over a copy of the keys is
-- recursion on the entries.
unfoldable pub take_triggers : Policy → String → Entries → Entries × List ProviderDecl
take_triggers p domain end = (end, [])
take_triggers p domain (entry key v l) =
    take_trigger p (registration domain key) key v (take_triggers p domain l)

-- The domain goes when the removal of triggers has emptied it.
abbrev pub leave_domain :
    String → Entries × List ProviderDecl → Entries × List ProviderDecl → Entries × List ProviderDecl
leave_domain domain (left, ds) (rest, more) =
    if not (is_nil ds) && is_empty left
    then (rest, ds ++ more)
    else (entry domain (Value.object left) rest, ds ++ more)

abbrev pub keep_field : String → Value → Entries × List ProviderDecl → Entries × List ProviderDecl
keep_field key v (rest, ds) = (entry key v rest, ds)

-- The outer loop of `produce`.
unfoldable pub split_fields : Policy → Entries → Entries × List ProviderDecl
split_fields p end = (end, [])
split_fields p (entry domain (Value.object values) l) =
    leave_domain domain (take_triggers p domain values) (split_fields p l)
split_fields p (entry key other l) = keep_field key other (split_fields p l)

unfoldable pub candidate_state : Policy → State
candidate_state p = record (new_state (static p.name)) {
  match_spec = p.match_spec;
  device_type = p.device_type;
  fields = p.fields;
}

abbrev pub static_state : Policy → Entries → State
static_state p fields = record {
  device_type = p.device_type;
  match_spec = p.match_spec;
  fields = fields;
  source = static p.name;
  priority = unwrap_or p.priority (default_priority (static p.name));
}

-- What is left is the static state, unless it is nothing.
unfoldable pub production : Policy → Entries × List ProviderDecl → Result Production PolicyError
production p (fields, providers) =
    if is_empty fields && is_empty_text p.device_type
    then (if is_nil providers
        then err empty_policy
        else ok (record { state = none; providers = providers }))
    else ok (record { state = some (static_state p fields); providers = providers })

module _ (parse_addr : String → Option IpAddr) where
  unfoldable pub produce : Policy → Result Production PolicyError
  produce p =
      if is_empty_text p.name
      then err empty_name
      else if is_empty_match p.match_spec
      then err missing_match
      else if not (is_nil (validate_writable parse_addr schema_registry (candidate_state p)))
      then err (validation (validate_writable parse_addr schema_registry (candidate_state p)))
      else production p (split_fields p p.fields)

-- `PolicySet`: the policies in insertion order, each under its own name.
abbrev pub PolicySet : Type 0
PolicySet = List Policy

abbrev pub contains_name : PolicySet → String → Bool
contains_name ps name = any (λ (p : Policy). p.name == name) ps

unfoldable pub insert : PolicySet → Policy → Result PolicySet PolicyError
insert ps p =
    if is_empty_text p.name
    then err empty_name
    else if contains_name ps p.name
    then err (duplicate_name p.name)
    else ok (ps ++ p ∷ [])

abbrev pub with_state : Option State → List State → List State
with_state none ss = ss
with_state (some s) ss = s ∷ ss

module _ (parse_addr : String → Option IpAddr) where
  unfoldable pub produce_all : PolicySet → Result ProduceAllOutcome PolicyError
  produce_all [] = ok (record { states = []; providers = [] })
  produce_all (p ∷ ps) = produce parse_addr p >>= λ out. produce_all ps >>= λ rest. ok (record {
    states = with_state out.state rest.states;
    providers = out.providers ++ rest.providers;
  })
