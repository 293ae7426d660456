-- ===== src/Linux/Tests.antt =====
-- The theorem on deletions at a new link, whose message is no deletion.
use netfyr.Base.{◌≡◌, refl, false, none, [], ◌∷◌, ok, err, All, arith}
use netfyr.Linux.{
  Tracking, Notification, unrelated, message, drain_notifications, validate_deletion_epoch,
  record_items, record_item, deleted_link,
}
use netfyr.Linux.Messages.{empty_link_message}
use netfyr.Linux.Deletions.{is_deletion, drain_notifications-validate_deletion_epoch}

abbrev tracking : Tracking
tracking = record { closed = false; generations = (2, 1) ∷ []; epoch = 5; invalidated = none }

abbrev new_link : Notification
new_link = message (record {
  kind = 16;
  header = ok (record empty_link_message.header { index = 3 });
  link_nlas = [];
  address = err "no address message";
})

drained_all : drain_notifications (new_link ∷ unrelated ∷ []) tracking ≡ (ok tt, tracking)
unfolding drain_notifications record_items record_item deleted_link
drained_all = refl

same_epoch : validate_deletion_epoch tracking.epoch tracking.epoch ≡ ok tt
unfolding validate_deletion_epoch
same_epoch = refl

drain_notifications-validate_deletion_epoch_example :
    All (λ n. is_deletion n ≡ false) (new_link ∷ unrelated ∷ [])
drain_notifications-validate_deletion_epoch_example =
    drain_notifications-validate_deletion_epoch (new_link ∷ unrelated ∷ []) tracking tracking refl
      (omega arith) (omega arith) drained_all same_epoch
