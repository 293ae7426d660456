-- ===== src/Linux/Links/Classified.antt =====
-- Which links count as Ethernet devices, the only ones that are written to.
use netfyr.Base.{
  ℕ, ◌≡◌, ◌≢◌, refl, ◌↔◌, inl, inr, String, true, false, Option, none, some, List, Bool-cases, sym,
  ap, ◌∙◌, subst, ◌++◌, [], ◌∷◌, All, or_else,
}
use netfyr.Base.Equality.{◌==◌, nat_eq, string_eq, contains}
use netfyr.Executor.Locate.{ethernet}
use netfyr.Linux.Messages.{
  LayerType, ether, loopback, other_layer, InfoKind, veth, other_kind, LinkInfo, info_kind,
  other_info, LinkHeader, LinkAttribute, if_name, mac_address, mtu, carrier, link_info,
  other_link_attribute,
}
use netfyr.Linux.Links.{ParsedLink, first_kind, kind_among, classify_kind, classify_link}

abbrev IsKind : LinkInfo → Type 0
IsKind (info_kind kind) = Unit
IsKind (other_info n) = ⊥

abbrev NoKinds : List LinkInfo → Type 0
NoKinds information = All (λ x. ¬ (IsKind x)) information

-- The attribute names no kind.
abbrev Kindless : LinkAttribute → Type 0
Kindless (link_info information) = NoKinds information
Kindless other = Unit

-- The first kind that the attributes name, after information and attributes without one.
pub data NamesKind (attributes : List LinkAttribute) (kind : InfoKind) : Type 0 where
  names_kind :
      (front back : List LinkAttribute) (before after : List LinkInfo)
      → All Kindless front
      → NoKinds before
      → attributes ≡ front ++ link_info (before ++ info_kind kind ∷ after) ∷ back
      → NamesKind attributes kind

-- What makes a link an Ethernet device: its first kind is a virtual Ethernet pair or another one of
-- this name, or no attribute names a kind, the link layer is Ethernet, and the wireless interfaces
-- are known and do not include the link.
pub data IsEthernet (link : ParsedLink) (wireless : Option (List ℕ)) : Type 0 where
  by_pair : NamesKind link.message.attributes veth → IsEthernet link wireless
  by_name : NamesKind link.message.attributes (other_kind "ethernet") → IsEthernet link wireless
  by_layer :
      (indices : List ℕ)
      → All Kindless link.message.attributes
      → link.message.header.layer_type ≡ ether
      → wireless ≡ some indices
      → contains indices link.message.header.index ≡ false
      → IsEthernet link wireless

module _ {A : Type 0} where
  or_else-none : (a b : Option A) → or_else a b ≡ none → (a ≡ none) × (b ≡ none)
  or_else-none none b h = (refl, h)
  or_else-none (some x) b h = cc

kind_among-none : (l : List LinkInfo) → kind_among l ≡ none → NoKinds l
kind_among-none [] h = tt
kind_among-none (info_kind k ∷ l) h = cc
kind_among-none (other_info n ∷ l) h = (λ e. e, kind_among-none l h)

none-kind_among : (l : List LinkInfo) → NoKinds l → kind_among l ≡ none
none-kind_among [] h = refl
none-kind_among (info_kind k ∷ l) h = absurd (h.0 tt)
none-kind_among (other_info n ∷ l) h = none-kind_among l h.1

kind_among-append :
    (k : InfoKind) (before after : List LinkInfo)
    → NoKinds before
    → kind_among (before ++ info_kind k ∷ after) ≡ some k
kind_among-append k [] after h = refl
kind_among-append k (info_kind j ∷ before) after h = absurd (h.0 tt)
kind_among-append k (other_info n ∷ before) after h = kind_among-append k before after h.1

kind_among-some :
    (k : InfoKind) (l : List LinkInfo)
    → kind_among l ≡ some k
    → (before : List LinkInfo) × (after : List LinkInfo) × NoKinds before
      × (l ≡ before ++ info_kind k ∷ after)
kind_among-some k [] h = cc
kind_among-some k (info_kind j ∷ l) h =
    let same : j ≡ k = cc in ([], l, tt, λ i. info_kind (same i) ∷ l)
kind_among-some k (other_info n ∷ l) h =
    let (before, after, none_before, e) = kind_among-some k l h in
    (other_info n ∷ before, after, (λ x. x, none_before), ap (λ x. other_info n ∷ x) e)

-- Whether an attribute names a kind.
data Names (a : LinkAttribute) : Type 0 where
  nothing :
      Kindless a → ((rest : List LinkAttribute) → first_kind (a ∷ rest) ≡ first_kind rest) → Names a
  names :
      (information : List LinkInfo) (kind : InfoKind)
      → a ≡ link_info information
      → kind_among information ≡ some kind
      → Names a

information_Names :
    (information : List LinkInfo) (o : Option InfoKind)
    → kind_among information ≡ o
    → Names (link_info information)
information_Names information none h =
    nothing (kind_among-none information h) (λ rest. ap (λ x. or_else x (first_kind rest)) h)
information_Names information (some kind) h = names information kind refl h

attribute_Names : (a : LinkAttribute) → Names a
attribute_Names (if_name s) = nothing tt (λ rest. refl)
attribute_Names (mac_address m) = nothing tt (λ rest. refl)
attribute_Names (mtu n) = nothing tt (λ rest. refl)
attribute_Names (carrier n) = nothing tt (λ rest. refl)
attribute_Names (link_info information) =
    information_Names information (kind_among information) refl
attribute_Names (other_link_attribute n) = nothing tt (λ rest. refl)

named_first :
    (a : LinkAttribute) (information : List LinkInfo) (kind : InfoKind) (rest : List LinkAttribute)
    → a ≡ link_info information
    → kind_among information ≡ some kind
    → first_kind (a ∷ rest) ≡ some kind
named_first a information kind rest e h =
    ap (λ x. first_kind (x ∷ rest)) e ∙ ap (λ x. or_else x (first_kind rest)) h

Kindless-first :
    (a : LinkAttribute) (rest : List LinkAttribute)
    → Kindless a
    → first_kind (a ∷ rest) ≡ first_kind rest
Kindless-first a rest h = elim (attribute_Names a) [
  | nothing k skip ↦ skip rest
  | names information kind e named ↦
      let none_in : kind_among information ≡ none =
        none-kind_among information (subst Kindless e h) in
      cc
]

first_kind-none : (l : List LinkAttribute) → first_kind l ≡ none → All Kindless l
first_kind-none [] h = tt
first_kind-none (a ∷ l) h = elim (attribute_Names a) [
  | nothing k skip ↦ (k, first_kind-none l (sym (skip l) ∙ h))
  | names information kind e named ↦ let found = named_first a information kind l e named in cc
]

none-first_kind : (l : List LinkAttribute) → All Kindless l → first_kind l ≡ none
none-first_kind [] h = refl
none-first_kind (a ∷ l) h = Kindless-first a l h.0 ∙ none-first_kind l h.1

first_kind-NamesKind :
    (l : List LinkAttribute) (kind : InfoKind) → first_kind l ≡ some kind → NamesKind l kind
first_kind-NamesKind [] kind h = cc
first_kind-NamesKind (a ∷ l) kind h = elim (attribute_Names a) [
  | nothing k skip ↦ elim (first_kind-NamesKind l kind (sym (skip l) ∙ h)) [
    | names_kind front back before after quiet none_before e ↦
        names_kind (a ∷ front) back before after (k, quiet) none_before (ap (λ x. a ∷ x) e)
  ]
  | names information j e named ↦
      let found = named_first a information j l e named in
      let same : j ≡ kind = cc in
      let (before, after, none_before, split) =
        kind_among-some kind information (named ∙ ap some same) in
      names_kind [] l before after tt none_before (λ i. (e ∙ ap link_info split) i ∷ l)
]

front_first :
    (front rest : List LinkAttribute)
    → All Kindless front
    → first_kind (front ++ rest) ≡ first_kind rest
front_first [] rest h = refl
front_first (a ∷ front) rest h = Kindless-first a (front ++ rest) h.0 ∙ front_first front rest h.1

NamesKind-first_kind :
    (l : List LinkAttribute) (kind : InfoKind) → NamesKind l kind → first_kind l ≡ some kind
NamesKind-first_kind l kind (names_kind front back before after quiet none_before e) =
    ap first_kind e
    ∙ front_first front _ quiet
    ∙ ap (λ x. or_else x (first_kind back)) (kind_among-append kind before after none_before)

not_ethernet : (s : String) → (s == ethernet) ≡ false → s ≢ ethernet
not_ethernet s h e = cc ((string_iff s).1 e)
  where
    string_iff : (s : String) → ((s == ethernet) ≡ true) ↔ (s ≡ ethernet)
    string_iff s = string_eq.same_iff s ethernet

layer_ethernet :
    (layer : LayerType) (header : LinkHeader) (wireless : Option (List ℕ))
    → header.layer_type ≡ layer
    → classify_kind none header wireless ≡ ethernet
    → (header.layer_type ≡ ether)
      × ((indices : List ℕ) × (wireless ≡ some indices) × (contains indices header.index ≡ false))
layer_ethernet loopback header wireless e h = absurd (not_ethernet "loopback" refl (rw e at h))
layer_ethernet (other_layer n) header none e h = absurd (not_ethernet "unknown" refl (rw e at h))
layer_ethernet (other_layer n) header (some l) e h = elim (Bool-cases (contains l header.index)) [
  | inl yes_in ↦ absurd (not_ethernet "wifi" refl (rw (e, yes_in) at h))
  | inr not_in ↦ absurd (not_ethernet "unknown" refl (rw (e, not_in) at h))
]
layer_ethernet ether header none e h = absurd (not_ethernet "unknown" refl (rw e at h))
layer_ethernet ether header (some l) e h = elim (Bool-cases (contains l header.index)) [
  | inl yes_in ↦ absurd (not_ethernet "wifi" refl (rw (e, yes_in) at h))
  | inr not_in ↦ (e, (l, refl, not_in))
]

-- A link is classified as an Ethernet device exactly when its kind could be read, and is a virtual
-- Ethernet pair's or one of that name, or else there is none, the link layer is Ethernet and the
-- wireless interfaces are known and do not include it. The kind is the first one that the
-- attributes name.
pub classify_link_iff :
    (link : ParsedLink) (wireless : Option (List ℕ))
    → (classify_link link wireless ≡ ethernet)
      ↔ ((link.kind_valid ≡ true) × IsEthernet link wireless)
unfolding classify_link
classify_link_iff link wireless = (
  λ h. elim (Bool-cases link.kind_valid) [
    | inr bad ↦ absurd (not_ethernet "unknown" refl (rw bad at h))
    | inl good ↦ (good, kind_Ethernet (first_kind link.message.attributes) refl (rw good at h))
  ],
  λ (good, e). elim e [
    | by_pair named ↦ rw (good, NamesKind-first_kind link.message.attributes veth named) refl
    | by_name named ↦
        rw (good, NamesKind-first_kind link.message.attributes (other_kind "ethernet") named) refl
    | by_layer indices quiet layer listed outside ↦
        rw (good, none-first_kind link.message.attributes quiet, layer, listed, outside) refl
  ],
)
  where
    kind_Ethernet :
        (o : Option InfoKind)
        → o ≡ first_kind link.message.attributes
        → classify_kind o link.message.header wireless ≡ ethernet
        → IsEthernet link wireless
    kind_Ethernet (some veth) e h =
        by_pair (first_kind-NamesKind link.message.attributes veth (sym e))
    kind_Ethernet (some (other_kind text)) e h =
        let same : text ≡ "ethernet" = h in
        by_name (
          first_kind-NamesKind link.message.attributes (other_kind "ethernet")
            (sym e ∙ ap (λ t. some (other_kind t)) same))
    kind_Ethernet none e h =
        let (layer, (indices, listed, outside)) =
          layer_ethernet link.message.header.layer_type link.message.header wireless refl h in
        by_layer indices (first_kind-none link.message.attributes (sym e)) layer listed outside
