-- ===== src/Executor/Lifetime.antt =====
-- Lifetimes of addresses as time passes. A `Duration` is a number of nanoseconds.
pub mod Decay
use netfyr.Base.{ℕ, ◌+◌, ◌-◌, ◌/◌, ◌%◌, Bool, ◌&&◌, ◌||◌, if◌then◌else◌, leb, ltb, eqb}
use Prim.Native.Nat.{min}
use netfyr.Base.Bits.{bit_and, bit_or, u32_max, clear}
use netfyr.Base.Int.{sub_ℕ, leb_ℤ, pos}
use netfyr.Base.Equality.{◌==◌, nat_eq, option_eq}
use netfyr.Plan.{Ipv4Address, AddressObservation, lifetimes, same_identity}

-- Constants of the Linux headers, from the libc crate.
abbrev pub ifa_f_secondary : ℕ
ifa_f_secondary = 0x01

abbrev pub ifa_f_deprecated : ℕ
ifa_f_deprecated = 0x20

abbrev pub ifa_f_permanent : ℕ
ifa_f_permanent = 0x80

abbrev pub rt_scope_host : ℕ
rt_scope_host = 254

abbrev pub nanos : ℕ
nanos = 1_000_000_000

unfoldable pub whole_seconds : ℕ → ℕ
whole_seconds duration = min (duration / nanos) u32_max

unfoldable pub decay : ℕ → ℕ → ℕ
decay seconds elapsed = if eqb seconds u32_max then seconds else seconds - elapsed

unfoldable pub lifetime_matches : ℕ → ℕ → ℕ → Bool
lifetime_matches expected actual elapsed =
    if eqb expected u32_max || eqb actual u32_max
    then eqb expected actual
    else let floor = whole_seconds elapsed in
      let ceil = floor + (if ltb 0 (elapsed % nanos) then 1 else 0) in
      let consumed = sub_ℕ expected actual in
      (leb_ℤ (sub_ℕ floor 1) consumed && leb_ℤ consumed (pos (ceil + 1)))
      || (eqb actual 0 && leb expected (ceil + 1))

unfoldable pub address_matches : AddressObservation → AddressObservation → ℕ → Bool
address_matches expected actual elapsed =
    let (valid, preferred) = lifetimes expected.address in
    let (actual_valid, actual_preferred) = lifetimes actual.address in
    let deprecation_matches =
      eqb (bit_and expected.flags ifa_f_deprecated) (bit_and actual.flags ifa_f_deprecated)
      || (eqb actual_preferred 0 && lifetime_matches preferred 0 elapsed) in
    same_identity expected.address actual.address
    && eqb expected.scope actual.scope
    && expected.peer == actual.peer
    && eqb (clear expected.flags ifa_f_deprecated) (clear actual.flags ifa_f_deprecated)
    && deprecation_matches
    && lifetime_matches valid actual_valid elapsed
    && lifetime_matches preferred actual_preferred elapsed

unfoldable pub lifetime_flags : Ipv4Address → ℕ
lifetime_flags addr =
    let (valid, preferred) = lifetimes addr in
    bit_or (if eqb valid u32_max then ifa_f_permanent else 0)
      (if eqb preferred 0 then ifa_f_deprecated else 0)
