-- ===== src/Policy/Tests.antt =====
-- The theorems on policies at one policy with a trigger of DHCP.
use netfyr.Base.{
  ℕ, ◌≢◌, refl, Bool, true, false, Option, none, some, List, [], ◌∷◌, Result, err, String, All, map,
}
use netfyr.Base.Text.{is_empty_text}
use netfyr.Base.Int.{pos}
use netfyr.Value.{IpAddr, Value, u64, Entries, entry, end}
use netfyr.Device.{State, Match, any_device}
use netfyr.Yaml.{Numbers, Yaml, mapping, string, number, pair, stop}
use netfyr.Apply.{by_name}
use netfyr.Policy.{Policy, ProviderDecl, Production, from_dhcp, static_state, insert}
use netfyr.Policy.Names.{name_of, AreDistinct, IsBuilt, new, inserted, IsNamed, insert-AreDistinct}
use netfyr.Policy.Load.{LoadOutcome}

abbrev uplink : Policy
uplink = record {
  name = "uplink";
  match_spec = record any_device { name = some "eth0" };
  device_type = "";
  fields =
      entry "mtu" (u64 1400)
        (entry "ipv4" (Value.object (entry "dhcp4" (Value.object end) end)) end);
  priority = none;
  metadata = none;
}

abbrev lease : ProviderDecl
lease = record {
  kind = "dhcp4";
  source = from_dhcp;
  policy = "uplink";
  location = "ipv4.dhcp4";
  priority = pos 50;
  params = end;
  match_spec = uplink.match_spec;
  device_type = "";
}

abbrev uplink_production : Production
uplink_production = record {
  state = some (static_state uplink (entry "mtu" (u64 1400) end));
  providers = lease ∷ [];
}

one-IsBuilt : IsBuilt (uplink ∷ [])
unfolding insert
one-IsBuilt = inserted uplink new refl

insert-AreDistinct_example : AreDistinct (map name_of (uplink ∷ [])) × All IsNamed (uplink ∷ [])
insert-AreDistinct_example = insert-AreDistinct (uplink ∷ []) one-IsBuilt
