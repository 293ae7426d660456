-- ===== src/Policy/Produced.antt =====
-- What `produce` gives for all fields of a policy.
use netfyr.Base.{◌≡◌, String, Option, none, some, List, All}
use mathlib.Core.List.{Memᴰ}
use netfyr.Value.{Value, Entries, end}
use netfyr.Device.{State, static}
use netfyr.Policy.{Policy, ProviderDecl, Production}
use netfyr.Policy.Split.{Has, IsDeclared, NoTriggers, AllPlaced}

-- What one split has, the other has as well.
record Extends (x x' : Entries × List ProviderDecl) : Type 0 where
  field_kept : (k : String) (v : Value) → Has k v x.0 → Has k v x'.0
  declaration_kept : (d : ProviderDecl) → Memᴰ d x.1 → Memᴰ d x'.1

-- All fields are placed; the declarations are of triggers of the fields; what is left has none.
abbrev IsSplit : Policy → Entries → Entries × List ProviderDecl → Type 0
IsSplit p l (left, ds) = AllPlaced p l (left, ds) × All (IsDeclared p l) ds × NoTriggers left

abbrev pub static_fields : Option State → Entries
static_fields none = end
static_fields (some s) = s.fields

-- The static state, if there is one, has the policy's selector and type, and the policy as its source.
abbrev pub IsOf : Policy → Option State → Type 0
IsOf p none = Unit
IsOf p (some s) =
    (s.match_spec ≡ p.match_spec) × (s.device_type ≡ p.device_type) × (s.source ≡ static p.name)

abbrev pub IsProduced : Policy → Production → Type 0
IsProduced p out =
    AllPlaced p p.fields (static_fields out.state, out.providers)
    × All (IsDeclared p p.fields) out.providers
    × NoTriggers (static_fields out.state)
    × IsOf p out.state
