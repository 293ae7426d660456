-- ===== src/Policy/Directory.antt =====
-- crates/netfyr-policy/src/lib.rs: `load_policy_file` and `load_policy_dir`, from what the file
-- system gives: the contents of a file, and the entries of a directory in any order.
pub mod Collected
pub mod Ordered
pub mod Distinct
mod Tests
use netfyr.Base.{
  String, Bool, true, false, ◌||◌, Option, none, some, List, [], ◌∷◌, ◌++◌, map, if◌then◌else◌,
  option_bind, Result, ok, err, ◌>>=◌, ok_or,
}
use netfyr.Base.Equality.{◌==◌, nat_eq, string_eq, contains}
use netfyr.Base.Order.{Order, nat_order, list_order, sort_by}
use netfyr.Base.Text.{bytes, rsplit_once, is_empty_text}
use Prim.Native.Nat.{ℕ}
use Prim.Native.Char.{code}
use netfyr.Value.{IpAddr}
use netfyr.Yaml.{Numbers, Yaml}
use netfyr.Apply.{ApplyOptions}
use netfyr.Policy.{PolicyError, io, duplicate_name, empty_name, Policy}
use netfyr.Policy.Load.{LoadOutcome, load_document}

-- The contents of a file, or the text of why it cannot be read as text.
abbrev pub Contents : Type 0
Contents = Result String String

-- The entries that `read_dir` gives, each with its name and its type; the text of an error stands
-- where the source meets it.
mutual
  pub data Listing : Type 0 where
    unreadable : String → Listing
    listed : DirEntries → Listing

  pub data DirEntries : Type 0 where
    finished : DirEntries
    broken : String → DirEntries → DirEntries
    found : String → Node → DirEntries → DirEntries

  pub data Node : Type 0 where
    untyped : String → Node
    symlink other_node : Node
    folder : Listing → Node
    file : Contents → Node

-- A file, with the components of its path below the root.
pub record PolicyFile : Type 0 where
  pub relative : List String
  pub name : String
  pub contents : Contents

-- `starts_with('.')`; a dot is the byte 46.
unfoldable pub is_hidden : String → Bool
is_hidden String.[] = false
is_hidden (String.◌∷◌ c s) = code c == 46

abbrev without_stem : String → String → Option String
without_stem stem extension = if is_empty_text stem then none else some extension

-- `extension()` of a name.
unfoldable pub extension : String → Option String
extension name = option_bind (rsplit_once 46 name) (λ p. without_stem p.0 p.1)

abbrev stem_of : String → Option (String × String) → String
stem_of name none = name
stem_of name (some (stem, extension)) = if is_empty_text stem then name else stem

-- `file_stem()` of a name.
unfoldable pub file_stem : String → String
file_stem name = stem_of name (rsplit_once 46 name)

abbrev yaml_extension : Option String → Bool
yaml_extension none = false
yaml_extension (some e) = e == "yaml" || e == "yml"

-- A file that is loaded, at the end of those that were found.
abbrev add_file : List String → String → Contents → List PolicyFile → List PolicyFile
add_file path name contents files =
    if yaml_extension (extension name)
    then files ++ record { relative = path ++ name ∷ []; name = name; contents = contents } ∷ []
    else files

unfoldable mutual
  pub collect_policy_files :
      List String → Listing → List PolicyFile → Result (List PolicyFile) PolicyError
  collect_policy_files path (unreadable error) files = err (io error)
  collect_policy_files path (listed entries) files = collect_entries path entries files

  pub collect_entries :
      List String → DirEntries → List PolicyFile → Result (List PolicyFile) PolicyError
  collect_entries path finished files = ok files
  collect_entries path (broken error rest) files = err (io error)
  collect_entries path (found name node rest) files =
      if is_hidden name
      then collect_entries path rest files
      else (collect_node path name node files >>= λ more. collect_entries path rest more)

  pub collect_node :
      List String → String → Node → List PolicyFile → Result (List PolicyFile) PolicyError
  collect_node path name (untyped error) files = err (io error)
  collect_node path name symlink files = ok files
  collect_node path name other_node files = ok files
  collect_node path name (folder listing) files =
      collect_policy_files (path ++ name ∷ []) listing files
  collect_node path name (file contents) files = ok (add_file path name contents files)

-- `a.0.cmp(&b.0)`: paths are compared by their components, and these by their bytes.
abbrev pub path_order : Order (List (List ℕ))
path_order = list_order (list_order nat_order)

abbrev pub path_key : PolicyFile → List (List ℕ)
path_key f = map bytes f.relative

-- The names that were seen, with what was loaded.
pub record Loaded : Type 0 where
  pub names : List String
  pub outcome : LoadOutcome

-- The loop over the policies of a file.
unfoldable pub add_policies : List Policy → Loaded → Result Loaded PolicyError
add_policies [] l = ok l
add_policies (p ∷ ps) l =
    let rest = add_policies ps (record {
      names = p.name ∷ l.names;
      outcome = record l.outcome { policies = l.outcome.policies ++ p ∷ [] };
    }) in
    if contains l.names p.name then err (duplicate_name p.name) else rest

abbrev add_outcome : LoadOutcome → Loaded → Loaded
add_outcome loaded l = record l {
  outcome = record l.outcome { warnings = l.outcome.warnings ++ loaded.warnings };
}

module _ {N : Type 0} (numbers : Numbers N) (parse_addr : String → Option IpAddr)
    (display_ip : IpAddr → String) (read : String → Result (Yaml N) String)
    (print : Yaml N → Result String String) (options : ApplyOptions) where
  abbrev load_contents : String → Contents → Result LoadOutcome PolicyError
  load_contents name (err error) = err (io error)
  load_contents name (ok input) =
      if is_empty_text (file_stem name)
      then err empty_name
      else load_document numbers parse_addr display_ip read print options input (file_stem name)

  unfoldable pub load_policy_file : String → Contents → Result LoadOutcome PolicyError
  load_policy_file name contents = load_contents name contents

  unfoldable pub load_files : List PolicyFile → Loaded → Result Loaded PolicyError
  load_files [] l = ok l
  load_files (f ∷ fs) l = load_policy_file f.name f.contents >>= λ loaded.
      add_policies loaded.policies l >>= λ m. load_files fs (add_outcome loaded m)

  abbrev start_loading : Loaded
  start_loading = record { names = []; outcome = record { policies = []; warnings = [] } }

  unfoldable pub load_policy_dir : Listing → Result LoadOutcome PolicyError
  load_policy_dir root = collect_policy_files [] root [] >>= λ files.
      load_files (sort_by path_order path_key files) start_loading >>= λ l. ok l.outcome
