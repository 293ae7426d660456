-- ===== src/Policy/Directory/Tests.antt =====
-- The theorems on directories at one directory: a folder with a file of policies, a file of policies
-- beside it, and a hidden one.
use netfyr.Base.{◌≡◌, ◌≢◌, refl, String, Option, none, some, List, [], ◌∷◌, map, Result, ok}
use netfyr.Base.Int.{ℤ, pos}
use netfyr.Base.Text.{bytes}
use netfyr.Value.{u64, entry, end}
use netfyr.Device.{any_device}
use netfyr.Yaml.{Yaml, mapping, string, number, pair, stop}
use netfyr.Apply.{by_name}
use netfyr.Policy.{Policy}
use netfyr.Policy.Names.{name_of, AreDistinct}
use netfyr.Policy.Load.{LoadOutcome}
use netfyr.Policy.Directory.{
  Listing, listed, DirEntries, finished, found, folder, file, PolicyFile, collect_policy_files,
  load_policy_dir,
}
use netfyr.Policy.Directory.Ordered.{
  Shuffled, exchanged, within, beyond, followed, load_policy_dir-Shuffled,
}
use netfyr.Policy.Directory.Distinct.{load_policy_dir-AreDistinct}
use netfyr.Samples.{parse_one, no_text, integers}

-- The document of an MTU for eth0.
abbrev edge_document : Yaml ℤ
edge_document = mapping (
    pair (string "match") (mapping (pair (string "name") (string "eth0") stop))
      (pair (string "mtu") (number (pos 1500)) stop))

abbrev read_edge : String → Result (Yaml ℤ) String
read_edge text = ok edge_document

abbrev print_edge : Yaml ℤ → Result String String
print_edge doc = ok "mtu: 1500"

-- The entries of the folder `site`.
abbrev site_entries : DirEntries
site_entries =
    found "edge.yaml" (file (ok "mtu: 1500")) (found "core.yml" (file (ok "mtu: 1500")) finished)

abbrev site_exchanged : DirEntries
site_exchanged =
    found "core.yml" (file (ok "mtu: 1500")) (found "edge.yaml" (file (ok "mtu: 1500")) finished)

abbrev entries : DirEntries
entries =
    found ".git" (folder (listed finished))
      (found "site" (folder (listed site_entries)) (found "README" (file (ok "")) finished))

abbrev entries_exchanged : DirEntries
entries_exchanged =
    found "site" (folder (listed site_exchanged))
      (found ".git" (folder (listed finished)) (found "README" (file (ok "")) finished))

abbrev site_policy : String → Policy
site_policy name = record {
  name = name;
  match_spec = record any_device { name = some "eth0" };
  device_type = "";
  fields = entry "mtu" (u64 1500) end;
  priority = none;
  metadata = none;
}

-- The order is that of the names, not that of the entries.
abbrev site_outcome : LoadOutcome
site_outcome = record { policies = site_policy "core" ∷ site_policy "edge" ∷ []; warnings = [] }

load_site :
    load_policy_dir integers parse_one no_text read_edge print_edge by_name (listed entries)
    ≡ ok site_outcome
unfolding netfyr.Policy.policy_error_text netfyr.Policy.schema_registry netfyr.Policy.registration
    netfyr.Policy.take_triggers netfyr.Policy.split_fields netfyr.Policy.candidate_state
    netfyr.Policy.production netfyr.Policy.produce netfyr.Policy.insert netfyr.Policy.produce_all
    netfyr.Policy.Load.state_entries netfyr.Policy.Load.parse_priority
    netfyr.Policy.Load.yaml_map_to_model netfyr.Policy.Load.validate_policy_state
    netfyr.Policy.Load.settle netfyr.Policy.Load.policy_from_mapping
    netfyr.Policy.Load.load_mappings netfyr.Policy.Load.load_value netfyr.Policy.Load.load_document
    netfyr.Yaml.parse_match_entries netfyr.Yaml.parse_match netfyr.Yaml.value_to_model
    netfyr.Yaml.read_entry netfyr.Yaml.read_entries netfyr.Yaml.mapping_to_state
    netfyr.Yaml.document_to_states netfyr.Yaml.from_yaml_with_registry
    netfyr.Yaml.Write.model_to_value netfyr.Yaml.Write.fields_to_value
    netfyr.Yaml.Write.state_to_mapping netfyr.Yaml.Write.states_to_document netfyr.Yaml.Write.render
    netfyr.Apply.warning_text netfyr.Apply.is_observation netfyr.Apply.reset_match
    netfyr.Apply.select_type netfyr.Apply.collect_from netfyr.Apply.collect_validation_errors
    netfyr.Apply.prepare_with netfyr.Apply.prepare_state netfyr.Apply.prepare_from
    netfyr.Apply.prepare_for_apply_with_registry netfyr.Apply.prepare_for_apply
    netfyr.Schema.Removal.remove_inside netfyr.Schema.Removal.remove_from_fragment
    netfyr.Schema.Removal.remove_field netfyr.Schema.Removal.remove_fields
    netfyr.Schema.Removal.remove_read_only_fields netfyr.Schema.Extend.add_at
    netfyr.Schema.Extend.change_fragment netfyr.Schema.Extend.collides netfyr.Schema.Extend.add_node
    netfyr.Schema.Extend.add_schema_node netfyr.Schema.Routing.top_level_schema
    netfyr.Schema.Routing.decode_string netfyr.Schema.Routing.field_string
    netfyr.Schema.Registry.derive_fields netfyr.Schema.Registry.sort_keys
    netfyr.Schema.Registry.make_fragment netfyr.Schema.Registry.field_info
    netfyr.Schema.Registry.fragment_fields netfyr.Schema.Registry.implied_device_type
    netfyr.Schema.Registry.device_type_errors netfyr.Schema.Registry.trigger_errors
    netfyr.Schema.Registry.fragment_errors_at netfyr.Schema.Registry.all_errors
    netfyr.Schema.Registry.validate_inner netfyr.Schema.Registry.validate
    netfyr.Schema.Registry.validate_writable netfyr.Schema.Walk.value_type
    netfyr.Schema.Walk.type_accepts netfyr.Schema.Walk.integer_errors netfyr.Schema.Walk.enum_errors
    netfyr.Schema.Walk.unknown_errors netfyr.Schema.Walk.missing_errors
    netfyr.Schema.Walk.is_ipv4_cidr netfyr.Schema.Walk.format_errors netfyr.Schema.Walk.kind_errors
    netfyr.Schema.Walk.checked netfyr.Schema.Walk.under netfyr.Schema.Walk.with_read_only
    netfyr.Schema.Walk.walk_node netfyr.Schema.Walk.walk_property netfyr.Schema.Walk.walk_map
    netfyr.Schema.Types.field_type_text netfyr.Schema.Types.validation_error_text
    netfyr.Schema.Types.semantic_type netfyr.Schema.Types.expected_type
    netfyr.Schema.Types.validate_schema_node netfyr.Schema.Types.join_path
    netfyr.Schema.Format.parse_u8 netfyr.Schema.Format.parse_ip_network
    netfyr.Schema.Embedded.new_registry netfyr.Device.default_priority netfyr.Device.policy_of
    netfyr.Device.field_matches netfyr.Device.mac_matches netfyr.Device.matches
    netfyr.Device.is_empty_match netfyr.Device.new_state netfyr.Device.content_eq
    netfyr.Value.same_value netfyr.Value.display netfyr.Base.Text.decimal
    netfyr.Base.Text.split_once netfyr.Base.Text.join netfyr.Base.Text.eq_ignore_ascii_case
    netfyr.Base.Text.is_blank netfyr.Base.Text.has_infix netfyr.Base.Text.split
    netfyr.Policy.Directory.is_hidden netfyr.Policy.Directory.extension
    netfyr.Policy.Directory.file_stem netfyr.Policy.Directory.collect_policy_files
    netfyr.Policy.Directory.add_policies netfyr.Policy.Directory.load_policy_file
    netfyr.Policy.Directory.load_files netfyr.Policy.Directory.load_policy_dir
    netfyr.Base.Order.sort_by netfyr.Base.Text.bytes netfyr.Base.Text.rsplit_once
load_site = refl

load_policy_dir-AreDistinct_example : AreDistinct (map name_of site_outcome.policies)
load_policy_dir-AreDistinct_example =
    load_policy_dir-AreDistinct integers parse_one no_text read_edge print_edge by_name
      (listed entries) site_outcome load_site

names_differ : bytes "edge.yaml" ≢ bytes "core.yml"
unfolding bytes
names_differ h = cc

folders_differ : bytes ".git" ≢ bytes "site"
unfolding bytes
folders_differ h = cc

entries-Shuffled : Shuffled entries entries_exchanged
entries-Shuffled = followed (beyond (within (exchanged names_differ))) (exchanged folders_differ)

abbrev site_files : List PolicyFile
site_files =
    record { relative = "site" ∷ "edge.yaml" ∷ []; name = "edge.yaml"; contents = ok "mtu: 1500" }
    ∷ record { relative = "site" ∷ "core.yml" ∷ []; name = "core.yml"; contents = ok "mtu: 1500" }
    ∷ []

collect_site : collect_policy_files [] (listed entries) [] ≡ ok site_files
unfolding netfyr.Policy.Directory.is_hidden netfyr.Policy.Directory.extension
    netfyr.Policy.Directory.file_stem netfyr.Policy.Directory.collect_policy_files
    netfyr.Policy.Directory.add_policies netfyr.Policy.Directory.load_policy_file
    netfyr.Policy.Directory.load_files netfyr.Policy.Directory.load_policy_dir
    netfyr.Base.Order.sort_by netfyr.Base.Text.bytes netfyr.Base.Text.rsplit_once
collect_site = refl

load_policy_dir-Shuffled_example :
    load_policy_dir integers parse_one no_text read_edge print_edge by_name (listed entries)
    ≡ load_policy_dir integers parse_one no_text read_edge print_edge by_name
        (listed entries_exchanged)
load_policy_dir-Shuffled_example =
    load_policy_dir-Shuffled integers parse_one no_text read_edge print_edge by_name entries
      entries_exchanged site_files entries-Shuffled collect_site
