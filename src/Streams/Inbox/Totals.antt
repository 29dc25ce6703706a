-- ===== src/Streams/Inbox/Totals.antt =====
-- app/streams/repository.py: what recovery and cleanup leave of the counts.
use auto_invest_manager.Base.{
  ℕ, zero, suc, ◌+◌, ◌≤◌, ◌≡◌, refl, Bool, true, false, List, [], ◌∷◌, keep, update, length,
  length-map, arith,
}
use auto_invest_manager.Models.Enums.{StreamEventProcessingStatus, is_processing}
use auto_invest_manager.Models.Entities.{BrokerStreamEventRecord}
use auto_invest_manager.Streams.Inbox.{Inbox}
use auto_invest_manager.Streams.Inbox.Counting.{
  counts, cleanup, drop_old, is_old, is_unfinished, is_dead_letter, is_claimed, released,
  startup_recovery, pending_event_ids,
}

drop_old-length :
    (before left : ℕ) (es : List BrokerStreamEventRecord)
    → ((drop_old before left es).0 + length (drop_old before left es).1 ≡ length es)
      × ((drop_old before left es).0 ≤ left)
drop_old-length before left [] = ground arith
drop_old-length before zero (e ∷ es) = ground arith
drop_old-length before (suc left) (e ∷ es) =
    ground (arith, drop_old-length before left es, drop_old-length before (suc left) es)

drop_old-keep :
    (p : BrokerStreamEventRecord → Bool) (before left : ℕ)
    → ((e : BrokerStreamEventRecord) → is_old before e ≡ true → p e ≡ false)
    → (es : List BrokerStreamEventRecord)
    → length (keep p (drop_old before left es).1) ≡ length (keep p es)
drop_old-keep p before left h [] = refl
drop_old-keep p before zero h (e ∷ es) = refl
drop_old-keep p before (suc left) h (e ∷ es) =
    ground (arith, h e, drop_old-keep p before left h es, drop_old-keep p before (suc left) h es)

-- `cleanup` removes at most batch_size rows, returns how many, and changes neither the number of
-- unfinished events nor that of dead letters.
pub cleanup-counts :
    (before batch : ℕ) (s : Inbox)
    → (counts (cleanup before batch s).1 ≡ counts s)
      × ((cleanup before batch s).0 + length (cleanup before batch s).1.events ≡ length s.events)
      × ((cleanup before batch s).0 ≤ batch)
unfolding cleanup counts
cleanup-counts before batch s = (
  ground (
    arith,
    drop_old-keep is_unfinished before batch (λ e h. ground arith) s.events,
    drop_old-keep is_dead_letter before batch (λ e h. ground arith) s.events,
  ),
  (drop_old-length before batch s.events).0,
  (drop_old-length before batch s.events).1,
)

released-keep :
    (es : List BrokerStreamEventRecord)
    → length (
        keep
          (λ e. is_processing e.processing_status StreamEventProcessingStatus.pending)
          (update is_claimed released es))
      ≡ length
          (keep (λ e. is_processing e.processing_status StreamEventProcessingStatus.pending) es)
        + length (keep is_claimed es)
released-keep [] = refl
released-keep (e ∷ es) = ground (arith, released-keep es)

released-none :
    (es : List BrokerStreamEventRecord) → keep is_claimed (update is_claimed released es) ≡ []
released-none [] = refl
released-none (e ∷ es) = ground (arith, released-none es)

released-unfinished :
    (es : List BrokerStreamEventRecord)
    → length (keep is_unfinished (update is_claimed released es)) ≡ length (keep is_unfinished es)
released-unfinished [] = refl
released-unfinished (e ∷ es) = ground (arith, released-unfinished es)

released-dead :
    (es : List BrokerStreamEventRecord)
    → length (keep is_dead_letter (update is_claimed released es)) ≡ length (keep is_dead_letter es)
released-dead [] = refl
released-dead (e ∷ es) = ground (arith, released-dead es)

-- After `startup_recovery` no event is being processed; the pending ids are as many as the pending
-- events and the recovered ones, whose number it returns; and both counts are as before.
pub startup_recovery-counts :
    (now : ℕ) (s : Inbox)
    → (keep is_claimed (startup_recovery now s).1.events ≡ [])
      × (length (pending_event_ids (startup_recovery now s).1)
          ≡ length (pending_event_ids s) + (startup_recovery now s).0.0)
      × (counts (startup_recovery now s).1 ≡ counts s)
unfolding startup_recovery counts pending_event_ids
startup_recovery-counts now s = (
  released-none s.events,
  ground (
    arith,
    released-keep s.events,
    length-map (λ e. e.id)
        (keep (λ e. is_processing e.processing_status StreamEventProcessingStatus.pending)
          (update is_claimed released s.events)),
    length-map (λ e. e.id)
        (keep (λ e. is_processing e.processing_status StreamEventProcessingStatus.pending)
          s.events),
  ),
  ground (arith, released-unfinished s.events, released-dead s.events),
)
