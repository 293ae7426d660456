-- ===== src/Linux/Links/Tests.antt =====
-- The classification of a link of the Ethernet link layer, with and without the wireless interfaces.
use netfyr.Base.{ℕ, ◌≡◌, refl, ◌↔◌, true, false, Option, none, some, List, [], ◌∷◌}
use netfyr.Executor.Locate.{ethernet}
use netfyr.Linux.Messages.{unspec, ether, if_name}
use netfyr.Linux.Links.{ParsedLink, classify_link, format_mac}
use netfyr.Linux.Links.Classified.{IsEthernet, classify_link_iff}

abbrev eth0 : ParsedLink
eth0 = record {
  message = record {
    header = record {
      family = unspec;
      layer_type = ether;
      index = 2;
      is_up = true;
      changes_up = false;
    };
    attributes = if_name "eth0" ∷ [];
  };
  name = "eth0";
  kind_valid = true;
  diagnostics = [];
}

classify_link_iff_example :
    (classify_link eth0 (some (3 ∷ [])) ≡ ethernet)
    ↔ ((eth0.kind_valid ≡ true) × IsEthernet eth0 (some (3 ∷ [])))
classify_link_iff_example = classify_link_iff eth0 (some (3 ∷ []))

not_wireless : classify_link eth0 (some (3 ∷ [])) ≡ ethernet
unfolding classify_link
not_wireless = refl

wireless : classify_link eth0 (some (3 ∷ 2 ∷ [])) ≡ "wifi"
unfolding classify_link
wireless = refl

unclassified : classify_link eth0 none ≡ "unknown"
unfolding classify_link
unclassified = refl

mac_text : format_mac (0 ∷ 26 ∷ 255 ∷ []) ≡ "00:1a:ff"
unfolding format_mac netfyr.Base.Text.join netfyr.Base.Text.decimal
mac_text = refl
