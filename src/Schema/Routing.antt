-- ===== src/Schema/Routing.antt =====
-- Which schema governs a top-level property, and how text is decoded along it: `top_level_schema`,
-- `SchemaCursor`, `field_string`. A cursor is the node that it holds.
use netfyr.Base.{ℕ, String, Option, none, some, find, option_bind, option_map}
use netfyr.Base.Equality.{◌==◌, string_eq, option_eq}
use netfyr.Value.{IpAddr, Value, Entries}
use netfyr.Value.Map
use netfyr.Schema.Types.{FieldType, SchemaNode, property, expected_type}
use netfyr.Schema.Format.{parse_ip_network}
use netfyr.Schema.Registry.{Fragment, SchemaRegistry}

abbrev or_else : Option SchemaNode → Option SchemaNode → Option SchemaNode
or_else none o = o
or_else (some n) o = some n

-- A property of the base fragment, else the root of the fragment with the trigger key. A registry
-- without a base fragment would be a panic of the source; `SchemaRegistry::new` loads it.
unfoldable pub top_level_schema : SchemaRegistry → String → Option SchemaNode
top_level_schema r key =
    or_else (option_bind (find (λ f. f.trigger_key == none) r.fragments) (λ f. property f.root key))
      (option_map (λ (f : Fragment). f.root) (find (λ f. f.trigger_key == some key) r.fragments))

abbrev pub network_or_text : String → Option (IpAddr × ℕ) → Value
network_or_text text (some (a, prefix)) = Value.ip_network a prefix
network_or_text text none = Value.string text

-- `SchemaCursor::decode_string`, by the node's type.
abbrev pub decode_by : (String → Option IpAddr) → FieldType → String → Value
decode_by parse_addr FieldType.ip_network text =
    network_or_text text (parse_ip_network parse_addr text)
decode_by parse_addr other text = Value.string text

unfoldable pub decode_string : (String → Option IpAddr) → SchemaNode → String → Value
decode_string parse_addr n text = decode_by parse_addr (expected_type n) text

abbrev string_of : Option Value → Option String
string_of (some (Value.string text)) = some text
string_of other = none

unfoldable pub field_string : Entries → String → Option String
field_string fields key = string_of (Map.get key fields)
