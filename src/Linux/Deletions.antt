-- ===== src/Linux/Deletions.antt =====
-- What an unchanged deletion epoch says of the notifications that were drained.
use netfyr.Base.{
  ℕ, ◌+◌, ◌%◌, ◌<◌, ◌≤◌, ◌≡◌, ◌≢◌, refl, sym, ap, ◌∙◌, subst, arith, String, Bool, true, false,
  Option, none, some, List, [], ◌∷◌, length, Result, ok, err, Bool-cases, inl, inr, All, eqb_iff,
}
use netfyr.Base.Equality.{◌==◌, nat_eq}
use netfyr.Linux.{
  Tracking, Notification, ended, overrun, unrelated, message, deleted_link, or_reason, invalidate,
  record_deletion, follow, record_item, record_items, unless_closed, take_reason,
  drain_notifications, validate_deletion_epoch,
}

abbrev pub names_link : Result (Option ℕ) String → Bool
names_link (ok (some index)) = true
names_link other = false

-- The notification is of a link's deletion.
abbrev pub is_deletion : Notification → Bool
is_deletion (message p) = names_link (deleted_link p)
is_deletion n = false

abbrev one_if : Bool → ℕ
one_if true = 1
one_if false = 0

abbrev deletions : List Notification → ℕ
deletions [] = 0
deletions (n ∷ ns) = one_if (is_deletion n) + deletions ns

abbrev modulus : ℕ
modulus = 18446744073709551616

-- What a record does that gives no reason to start anew: it counts the notification.
record Counts (count : ℕ) (s s' : Tracking) : Type 0 where
  valid : s.invalidated ≡ none
  is_open : s.closed ≡ false → s'.closed ≡ false
  counted : s.epoch < modulus → s'.epoch ≡ (s.epoch + count) % modulus

or_reason-some : (o : Option String) (r : String) → or_reason o r ≢ none
or_reason-some none r = λ e. cc
or_reason-some (some x) r = λ e. cc

follow-Counts :
    (r : Result (Option ℕ) String) (s : Tracking)
    → (follow r s).invalidated ≡ none
    → Counts (one_if (names_link r)) s (follow r s)
unfolding record_deletion invalidate
follow-Counts (ok (some index)) s h = record { valid = h; is_open = λ e. e; counted = λ b. refl }
follow-Counts (ok none) s h = record { valid = h; is_open = λ e. e; counted = λ b. omega arith }
follow-Counts (err x) s h =
    absurd (or_reason-some s.invalidated "unparseable link deletion notification" h)

item-Counts :
    (n : Notification) (s : Tracking)
    → (record_item n s).invalidated ≡ none
    → Counts (one_if (is_deletion n)) s (record_item n s)
unfolding record_item invalidate
item-Counts ended s h = absurd (or_reason-some s.invalidated "netlink connection closed" h)
item-Counts overrun s h = absurd (or_reason-some s.invalidated "link notification buffer overrun" h)
item-Counts unrelated s h = record { valid = h; is_open = λ e. e; counted = λ b. omega arith }
item-Counts (message p) s h = follow-Counts (deleted_link p) s h

Counts-trans : (a b : ℕ) (s s₁ s₂ : Tracking) → Counts a s s₁ → Counts b s₁ s₂ → Counts (a + b) s s₂
Counts-trans a b s s₁ s₂ g h = record {
  valid = g.valid;
  is_open = λ e. h.is_open (g.is_open e);
  counted = λ small.
      let first = g.counted small in
      let bound : s₁.epoch < modulus = omega (arith, first) in
      let second = h.counted bound in omega (arith, first, second);
}

unless_closed-valid :
    (b : Bool) (s next : Tracking)
    → (next.invalidated ≡ none → s.invalidated ≡ none)
    → (unless_closed b s next).invalidated ≡ none
    → s.invalidated ≡ none
unless_closed-valid true s next k h = h
unless_closed-valid false s next k h = k h

items_valid :
    (ns : List Notification) (s : Tracking)
    → (record_items ns s).invalidated ≡ none
    → s.invalidated ≡ none
unfolding record_items
items_valid [] s h = h
items_valid (n ∷ ns) s h =
    let rest = items_valid ns (record_item n s) in
    unless_closed-valid s.closed s (record_items ns (record_item n s))
      (λ e. let c = item-Counts n s (rest e) in c.valid) h

items-Counts :
    (ns : List Notification) (s : Tracking)
    → s.closed ≡ false
    → (record_items ns s).invalidated ≡ none
    → Counts (deletions ns) s (record_items ns s)
unfolding record_items
items-Counts [] s e h = record { valid = h; is_open = λ x. x; counted = λ b. omega arith }
items-Counts (n ∷ ns) s e h =
    let next : unless_closed s.closed s (record_items ns (record_item n s))
        ≡ record_items ns (record_item n s) =
      ap (λ b. unless_closed b s (record_items ns (record_item n s))) e in
    let valid : (record_items ns (record_item n s)).invalidated ≡ none =
      ap (λ (t : Tracking). t.invalidated) (sym next) ∙ h in
    let first = item-Counts n s (items_valid ns (record_item n s) valid) in
    subst (Counts (one_if (is_deletion n) + deletions ns) s) (sym next) (
      Counts-trans (one_if (is_deletion n)) (deletions ns) s (record_item n s)
        (record_items ns (record_item n s)) first
        (items-Counts ns (record_item n s) (first.is_open e) valid))

no_deletions : (ns : List Notification) → deletions ns ≡ 0 → All (λ n. is_deletion n ≡ false) ns
no_deletions [] h = tt
no_deletions (n ∷ ns) h = elim (Bool-cases (is_deletion n)) [
  | inl e ↦ let g : 1 + deletions ns ≡ 0 = rw e at h in absurd (omega (arith, g))
  | inr e ↦ let g : 0 + deletions ns ≡ 0 = rw e at h in (e, no_deletions ns (omega (arith, g)))
]

deletions_bound : (ns : List Notification) → deletions ns ≤ length ns
deletions_bound [] = omega arith
deletions_bound (n ∷ ns) = elim (Bool-cases (is_deletion n)) [
  | inl e ↦ rw e (omega (arith, deletions_bound ns))
  | inr e ↦ rw e (omega (arith, deletions_bound ns))
]

drained :
    (ns : List Notification) (s s' : Tracking) (o : Option String)
    → o ≡ (record_items ns s).invalidated
    → take_reason o (record_items ns s) ≡ (ok tt, s')
    → ((record_items ns s).invalidated ≡ none) × (record_items ns s ≡ s')
drained ns s s' none e h = (sym e, ap (λ x. x.1) h)
drained ns s s' (some r) e h = let no : err _ ≡ ok tt = ap (λ x. x.0) h in cc

-- When one call drains fewer than 2^64 ready notifications without an error, on a socket that was not
-- closed, and the deletion epoch, a u64, is afterwards what it was directly before, none of the
-- notifications was of a link's deletion.
pub drain_notifications-validate_deletion_epoch :
    (ns : List Notification) (s s' : Tracking)
    → s.closed ≡ false
    → s.epoch < 18446744073709551616
    → length ns < 18446744073709551616
    → drain_notifications ns s ≡ (ok tt, s')
    → validate_deletion_epoch s.epoch s'.epoch ≡ ok tt
    → All (λ n. is_deletion n ≡ false) ns
unfolding drain_notifications validate_deletion_epoch
drain_notifications-validate_deletion_epoch ns s s' open_yet small few h valid =
    let (none_found, same) = drained ns s s' (record_items ns s).invalidated refl h in
    let c = items-Counts ns s open_yet none_found in
    let counted = c.counted small in
    let equal : s.epoch ≡ s'.epoch = same_epoch s.epoch s'.epoch valid in
    let last : s'.epoch ≡ (s.epoch + deletions ns) % 18446744073709551616 =
      ap (λ (t : Tracking). t.epoch) (sym same) ∙ counted in
    let most = deletions_bound ns in no_deletions ns (omega (arith, equal, last, most, few, small))
  where
    same_epoch : (a b : ℕ) → validate_deletion_epoch a b ≡ ok tt → a ≡ b
    same_epoch a b e = elim (Bool-cases (a == b)) [
      | inl q ↦ (eqb_iff a b).0 q
      | inr q ↦ let no : err _ ≡ ok tt = rw q at e in cc
    ]
