-- ===== src/Runs/Slots/Membership.antt =====
-- What the operations of ui/backend/registry.py on runs and subscribers do to its slots.
use bestteam.Shared.{ℕ, String, some, true, false, [], ◌≡◌, refl}
use bestteam.Shared.Equality.{◌==◌, string_eq}
use bestteam.Shared.Dict.{
  lookup-put_self, lookup-put_other, lookup-remove_self, lookup-remove_other, lookup_or-put_self,
  lookup_or-put_other, lookup_or-remove_self, lookup_or-remove_other,
}
use bestteam.Runs.{
  Run, Subscriber, Registry, discard, add_run, purge_run, set_cancel, add_subscriber, unsubscribe,
}
use bestteam.Runs.Slots.{Slot-ext, slot, joined, left_by, purged, fresh_slot, blank_slot}
use bestteam.Runs.Slots.Publishing.{lookup_or-or_nil}

pub discard_self : (i : String) (s : Registry) → slot (discard i s) i ≡ blank_slot
unfolding discard
discard_self i s =
    Slot-ext _ _ (lookup-remove_self i s.runs) (lookup-remove_self i s.subscribers)
      (lookup-remove_self i s.cancel_flags) (lookup_or-remove_self [] i s.live_text)
      (lookup_or-remove_self [] i s.live_working)

pub discard_other :
    (i j : String) (s : Registry) → (i == j) ≡ false → slot (discard i s) j ≡ slot s j
unfolding discard
discard_other i j s h =
    Slot-ext _ _ (lookup-remove_other i j s.runs h) (lookup-remove_other i j s.subscribers h)
      (lookup-remove_other i j s.cancel_flags h) (lookup_or-remove_other [] i j s.live_text h)
      (lookup_or-remove_other [] i j s.live_working h)

pub add_run_self : (run : Run) (s : Registry) → slot (add_run run s) run.id ≡ fresh_slot run
unfolding add_run
add_run_self run s =
    Slot-ext _ _ (lookup-put_self run.id run s.runs) (lookup-put_self run.id [] s.subscribers)
      (lookup-put_self run.id false s.cancel_flags) (lookup_or-put_self [] run.id [] s.live_text)
      (lookup_or-put_self [] run.id [] s.live_working)

pub add_run_other :
    (run : Run) (j : String) (s : Registry)
    → (run.id == j) ≡ false
    → slot (add_run run s) j ≡ slot s j
unfolding add_run
add_run_other run j s h =
    Slot-ext _ _ (lookup-put_other run.id j run s.runs h)
      (lookup-put_other run.id j [] s.subscribers h)
      (lookup-put_other run.id j false s.cancel_flags h)
      (lookup_or-put_other [] run.id j [] s.live_text h)
      (lookup_or-put_other [] run.id j [] s.live_working h)

pub purge_run_self :
    (i : String) (run : Run) (s : Registry) → slot (purge_run i run s) i ≡ purged run (slot s i)
unfolding purge_run
purge_run_self i run s =
    Slot-ext _ _ (lookup-put_self i _ s.runs) refl refl (lookup_or-remove_self [] i s.live_text)
      (lookup_or-remove_self [] i s.live_working)

pub purge_run_other :
    (i j : String) (run : Run) (s : Registry)
    → (i == j) ≡ false
    → slot (purge_run i run s) j ≡ slot s j
unfolding purge_run
purge_run_other i j run s h =
    Slot-ext _ _ (lookup-put_other i j _ s.runs h) refl refl
      (lookup_or-remove_other [] i j s.live_text h) (lookup_or-remove_other [] i j s.live_working h)

pub set_cancel_self :
    (i : String) (s : Registry) → slot (set_cancel i s) i ≡ record (slot s i) { flag = some true }
unfolding set_cancel
set_cancel_self i s = Slot-ext _ _ refl refl (lookup-put_self i true s.cancel_flags) refl refl

pub set_cancel_other :
    (i j : String) (s : Registry) → (i == j) ≡ false → slot (set_cancel i s) j ≡ slot s j
unfolding set_cancel
set_cancel_other i j s h =
    Slot-ext _ _ refl refl (lookup-put_other i j true s.cancel_flags h) refl refl

pub add_subscriber_self :
    (i : String) (q : Subscriber) (s : Registry)
    → slot (add_subscriber i q s) i ≡ joined q (slot s i)
unfolding add_subscriber
add_subscriber_self i q s =
    Slot-ext _ _ refl (rw (lookup-put_self i) (rw (lookup_or-or_nil i s.subscribers) refl)) refl
      refl refl

pub add_subscriber_other :
    (i j : String) (q : Subscriber) (s : Registry)
    → (i == j) ≡ false
    → slot (add_subscriber i q s) j ≡ slot s j
unfolding add_subscriber
add_subscriber_other i j q s h =
    Slot-ext _ _ refl (lookup-put_other i j _ s.subscribers h) refl refl refl

pub unsubscribe_self :
    (n : ℕ) (i : String) (s : Registry) → slot (unsubscribe n i s) i ≡ left_by n (slot s i)
unfolding unsubscribe
unsubscribe_self n i s =
    Slot-ext _ _ refl (rw (lookup-put_self i) (rw (lookup_or-or_nil i s.subscribers) refl)) refl
      refl refl

pub unsubscribe_other :
    (n : ℕ) (i j : String) (s : Registry) → (i == j) ≡ false → slot (unsubscribe n i s) j ≡ slot s j
unfolding unsubscribe
unsubscribe_other n i j s h =
    Slot-ext _ _ refl (lookup-put_other i j _ s.subscribers h) refl refl refl
