-- ===== src/Linux/Interface.antt =====
-- crates/netfyr-backend/src/linux.rs: the calls on a named interface, which check before and after
-- that the name is still the index's. The calls themselves are the kernel's.
use netfyr.Base.{
  ℕ, String, Bool, true, false, ◌&&◌, ◌||◌, Option, none, some, List, [], ◌∷◌, length, leb, all,
  enumerate_from, if◌then◌else◌, Result, ok, err, ◌>>=◌,
}
use netfyr.Base.Int.{ℤ, pos, same_int, int_eq}
use netfyr.Base.Equality.{◌==◌, nat_eq, option_eq, contains}
use netfyr.Base.Text.{bytes}
use netfyr.Linux.Exchange.{Library, c_string}

-- The kinds of `io::Error` that the source tells apart.
pub data IoKind : Type 0 where
  interrupted invalid_data other_io : IoKind

pub record IoError : Type 0 where
  pub kind : IoKind
  pub raw_os_error : Option ℤ
  pub text : String

abbrev pub is_interrupted : IoKind → Bool
is_interrupted interrupted = true
is_interrupted k = false

-- The kernel's answers by name: the index, whether the old wireless call succeeds, and the bytes of
-- the driver and of the bus.
pub record Ioctl (W : Type 0) : Type 0 where
  pub get_index : String → W → Result ℕ IoError × W
  pub has_wireless_name : String → W → Bool × W
  pub get_driver_info : String → W → Result (List ℕ × List ℕ) IoError × W

-- The test of `ifreq_for`; `IFNAMSIZ` is 16.
unfoldable pub ifreq_for : String → Result (Unit {0}) IoError
unfolding bytes
ifreq_for name =
    if leb 16 (length (bytes name)) || contains (bytes name) 0
    then err (record { kind = invalid_data; raw_os_error = none; text = "invalid interface name" })
    else ok tt

abbrev no_device : ℤ
no_device = pos 19

abbrev pub renamed : IoError
renamed = record { kind = interrupted; raw_os_error = none; text = "operation interrupted" }

abbrev pub is_hex_digit : ℕ → Bool
is_hex_digit b = (leb 48 b && leb b 57) || (leb 65 b && leb b 70) || (leb 97 b && leb b 102)

abbrev pci_byte : ℕ → ℕ → Bool
pci_byte index b =
    if index == 4 || index == 7 then b == 58 else if index == 10 then b == 46 else is_hex_digit b

unfoldable pub is_pci_address : String → Bool
is_pci_address value =
    length (bytes value) == 12 && all (λ p. pci_byte p.0 p.1) (enumerate_from 0 (bytes value))

abbrev one_of : List ℤ → Option ℤ → Bool
one_of codes none = false
one_of [] (some c) = false
one_of (x ∷ codes) (some c) = same_int x c || one_of codes (some c)

-- `EOPNOTSUPP` 95, `ENODEV` 19, `ENOTTY` 25.
unfoldable pub unsupported_ioctl : IoError → Bool
unsupported_ioctl e = one_of (pos 95 ∷ pos 19 ∷ pos 25 ∷ []) e.raw_os_error

abbrev pub pci_path_of : Option String → Option String
pci_path_of none = none
pci_path_of (some bus) = if is_pci_address bus then some bus else none

module _ {W : Type 0} (library : Library) (ioctl : Ioctl W) where
  abbrev after_check :
      {A : Type 0}
      → Result (Unit {0}) IoError
      → (W → Result A IoError × W)
      → W
      → Result A IoError × W
  after_check (ok u) call w = call w
  after_check (err e) call w = (err e, w)

  unfoldable pub interface_index : String → W → Result ℕ IoError × W
  interface_index name w = after_check (ifreq_for name) (ioctl.get_index name) w

  abbrev check_index : ℕ → Result ℕ IoError → Result (Unit {0}) IoError
  check_index index (ok current) = if current == index then ok tt else err renamed
  check_index index (err e) = if e.raw_os_error == some no_device then err renamed else err e

  abbrev check : String → ℕ → W → Result (Unit {0}) IoError × W
  check name index w = let (r, next) = interface_index name w in (check_index index r, next)

  abbrev then_check : {A : Type 0} → String → ℕ → Result A IoError × W → Result A IoError × W
  then_check name index (err e, w) = (err e, w)
  then_check name index (ok a, w) = let (r, next) = check name index w in ((r >>= λ _. ok a), next)

  abbrev when_ok :
      {A : Type 0}
      → Result (Unit {0}) IoError × W
      → (W → Result A IoError × W)
      → Result A IoError × W
  when_ok (ok u, w) call = call w
  when_ok (err e, w) call = (err e, w)

  -- The name is the index's before the call and after it.
  unfoldable pub while_named :
      {A : Type 0} → String → ℕ → (W → Result A IoError × W) → W → Result A IoError × W
  while_named name index call w =
      when_ok (check name index w) (λ next. then_check name index (call next))

  abbrev as_io : Result (Option String) String → Result (Option String) IoError
  as_io (ok text) = ok text
  as_io (err text) = err (record { kind = invalid_data; raw_os_error = none; text = text })

  abbrev driver_of :
      Result (List ℕ × List ℕ) IoError → Result (Option String × Option String) IoError
  driver_of (err e) = err e
  driver_of (ok (driver_bytes, bus_bytes)) = as_io (c_string library driver_bytes) >>= λ driver.
      as_io (c_string library bus_bytes) >>= λ bus. ok (driver, pci_path_of bus)

  unfoldable pub driver_info : String → W → Result (Option String × Option String) IoError × W
  driver_info name w =
      let (r, next) = after_check (ifreq_for name) (ioctl.get_driver_info name) w in
      (driver_of r, next)

  abbrev wireless_if : Result (Unit {0}) IoError → String → W → Bool × W
  wireless_if (ok u) name w = ioctl.has_wireless_name name w
  wireless_if (err e) name w = (false, w)

  unfoldable pub legacy_wireless : String → W → Bool × W
  legacy_wireless name w = wireless_if (ifreq_for name) name w
