-- ===== src/Policy/Split.antt =====
-- Where `produce` puts each field of a policy: with the triggers' declarations, or in the static state.
use netfyr.Base.{◌≡◌, refl, String, ◌⊎◌, Option, none, some, List, All, All-map, inl, inr}
use mathlib.Core.List.{Memᴰ}
use mathlib.Core.List.Memᴰ.{head, tail}
use netfyr.Value.{Value, Entries, end, entry}
use netfyr.Policy.{
  Policy, ProviderDecl, ProviderRegistration, registration, source_priority, location, params_of,
  declare, take_trigger, take_triggers,
}

-- The key has the value.
abbrev pub Has : String → Value → Entries → Type 0
Has k v end = ⊥
Has k v (entry j w l) = ((j ≡ k) × (w ≡ v)) ⊎ Has k v l

-- The declaration is of a registered trigger, with the trigger's value as parameters, at the provider's
-- location and fixed priority, and carries the policy's name, selector and device type.
pub record IsTrigger (p : Policy) (domain key : String) (v : Value) (d : ProviderDecl)
    : Type 0 where
  pub provider : ProviderRegistration
  pub known : registration domain key ≡ some provider
  pub kind : d.kind ≡ provider.kind
  pub source : d.source ≡ provider.source
  pub priority : d.priority ≡ source_priority provider.source
  pub place : d.location ≡ location provider
  pub params : d.params ≡ params_of v
  pub policy : d.policy ≡ p.name
  pub selector : d.match_spec ≡ p.match_spec
  pub device : d.device_type ≡ p.device_type

abbrev pub TriggerIn : Policy → String → Entries → ProviderDecl → Type 0
TriggerIn p domain l d = (key : String) × (v : Value) × Has key v l × IsTrigger p domain key v d

-- The declaration is of a trigger among the fields.
abbrev pub IsDeclared : Policy → Entries → ProviderDecl → Type 0
IsDeclared p fields d =
    (domain : String) × (values : Entries) × Has domain (Value.object values) fields
    × (key : String) × (v : Value) × Has key v values
    × IsTrigger p domain key v d

-- No key is a trigger of the domain; no field holds one.
abbrev pub Untriggered : String → Entries → Type 0
Untriggered domain end = Unit
Untriggered domain (entry key v l) = (registration domain key ≡ none) × Untriggered domain l

abbrev pub NoTriggers : Entries → Type 0
NoTriggers end = Unit
NoTriggers (entry k (Value.object values) l) = Untriggered k values × NoTriggers l
NoTriggers (entry k other l) = NoTriggers l

-- Where the value of a domain's key is, among static fields and declarations: under the same domain
-- and key, or, for a trigger, in its declaration.
abbrev pub Placed :
    Policy
    → Option ProviderRegistration
    → String
    → String
    → Value
    → Entries × List ProviderDecl
    → Type 0
Placed p none domain key v (fields, ds) =
    (left : Entries) × Has domain (Value.object left) fields × Has key v left
Placed p (some r) domain key v (fields, ds) = Memᴰ (declare p r v) ds

abbrev pub ValuesPlaced : Policy → String → Entries → Entries × List ProviderDecl → Type 0
ValuesPlaced p domain end x = Unit
ValuesPlaced p domain (entry key v l) x =
    Placed p (registration domain key) domain key v x × ValuesPlaced p domain l x

-- Every field that is no domain is a static field, and all values of the domains are placed.
abbrev pub AllPlaced : Policy → Entries → Entries × List ProviderDecl → Type 0
AllPlaced p end x = Unit
AllPlaced p (entry k (Value.object values) l) x = ValuesPlaced p k values x × AllPlaced p l x
AllPlaced p (entry k v l) x = Has k v x.0 × AllPlaced p l x

-- The same for one domain.
abbrev pub Goes :
    Policy → Option ProviderRegistration → String → Value → Entries × List ProviderDecl → Type 0
Goes p none key v (left, ds) = Has key v left
Goes p (some r) key v (left, ds) = Memᴰ (declare p r v) ds

abbrev pub AllGo : Policy → String → Entries → Entries × List ProviderDecl → Type 0
AllGo p domain end x = Unit
AllGo p domain (entry key v l) x = Goes p (registration domain key) key v x × AllGo p domain l x

take-Goes :
    (p : Policy) (o o' : Option ProviderRegistration) (k k' : String) (v v' : Value)
    (x : Entries × List ProviderDecl)
    → Goes p o k v x
    → Goes p o k v (take_trigger p o' k' v' x)
take-Goes p none none k k' v v' (rest, ds) h = inr h
take-Goes p none (some r) k k' v v' (rest, ds) h = h
take-Goes p (some r) none k k' v v' (rest, ds) h = h
take-Goes p (some r) (some r') k k' v v' (rest, ds) h = tail h

take-Goes_here :
    (p : Policy) (o : Option ProviderRegistration) (k : String) (v : Value)
    (x : Entries × List ProviderDecl)
    → Goes p o k v (take_trigger p o k v x)
take-Goes_here p none k v (rest, ds) = inl (refl, refl)
take-Goes_here p (some r) k v (rest, ds) = head refl

take-AllGo :
    (p : Policy) (domain : String) (o' : Option ProviderRegistration) (k' : String) (v' : Value)
    (x : Entries × List ProviderDecl) (l : Entries)
    → AllGo p domain l x
    → AllGo p domain l (take_trigger p o' k' v' x)
take-AllGo p domain o' k' v' x end h = tt
take-AllGo p domain o' k' v' x (entry k v l) (here, later) = (
  take-Goes p (registration domain k) o' k k' v v' x here,
  take-AllGo p domain o' k' v' x l later,
)

pub triggers-AllGo :
    (p : Policy) (domain : String) (l : Entries) → AllGo p domain l (take_triggers p domain l)
unfolding take_triggers
triggers-AllGo p domain end = tt
triggers-AllGo p domain (entry k v l) = (
  take-Goes_here p (registration domain k) k v (take_triggers p domain l),
  take-AllGo p domain (registration domain k) k v (take_triggers p domain l) l
      (triggers-AllGo p domain l),
)

-- What is taken are triggers, and what is left has none.
abbrev pub IsTaken : Policy → String → Entries → Entries × List ProviderDecl → Type 0
IsTaken p domain l (left, ds) = All (TriggerIn p domain l) ds × Untriggered domain left

one_more :
    (p : Policy) (domain k : String) (v : Value) (l : Entries) (d : ProviderDecl)
    → TriggerIn p domain l d
    → TriggerIn p domain (entry k v l) d
one_more p domain k v l d (key, w, held, trigger) = (key, w, inr held, trigger)

take-IsTaken :
    (p : Policy) (domain k : String) (v : Value) (l : Entries) (o : Option ProviderRegistration)
    (x : Entries × List ProviderDecl)
    → registration domain k ≡ o
    → IsTaken p domain l x
    → IsTaken p domain (entry k v l) (take_trigger p o k v x)
take-IsTaken p domain k v l none (rest, ds) h (taken, left) =
    (All-map (one_more p domain k v l) ds taken, (h, left))
take-IsTaken p domain k v l (some r) (rest, ds) h (taken, left) = (
  (
    (
      k,
      v,
      inl (refl, refl),
      record {
        provider = r;
        known = h;
        kind = refl;
        source = refl;
        priority = refl;
        place = refl;
        params = refl;
        policy = refl;
        selector = refl;
        device = refl;
      },
    ),
    All-map (one_more p domain k v l) ds taken,
  ),
  left,
)

pub triggers-IsTaken :
    (p : Policy) (domain : String) (l : Entries) → IsTaken p domain l (take_triggers p domain l)
unfolding take_triggers
triggers-IsTaken p domain end = (tt, tt)
triggers-IsTaken p domain (entry k v l) =
    take-IsTaken p domain k v l (registration domain k) (take_triggers p domain l) refl
      (triggers-IsTaken p domain l)
