-- ===== src/Streams/Inbox/Steps.antt =====
-- app/streams/repository.py: the calls of a worker, of the listener and of the administrator as
-- steps of the inbox, in any order, with one `stream_event_max_attempts`.
use auto_invest_manager.Base.{
  ℕ, zero, suc, if◌then◌else◌, ◌≤◌, ◌<◌, ◌≡◌, refl, Bool, true, false, Option, none, List, [], ◌∷◌,
  find, Option-cases, Bool-cases, is_some, update, All, All-append, String, inl, inr, arith,
}
use auto_invest_manager.Models.Enums.{StreamEventProcessingStatus}
use auto_invest_manager.Models.Entities.{BrokerStreamEventRecord}
use auto_invest_manager.Streams.Inbox.{
  Inbox, BrokerStreamEvent, Canonical, persist_event, has_dedupe_key, new_record, claim_event,
  is_claimable_id, claimed, complete_event, completed, fail_event, failed, is_dead, retry_event,
  retried,
}
use auto_invest_manager.Streams.Inbox.Counting.{
  record_trade_signal, cleanup, drop_old, is_old, startup_recovery, released,
}

-- The attempts and the error that a row of each status may have.
IsStatusSound : ℕ → StreamEventProcessingStatus → ℕ → Option String → Type 0
IsStatusSound max StreamEventProcessingStatus.pending attempts error = attempts ≤ max
IsStatusSound max StreamEventProcessingStatus.processing attempts error =
    (1 ≤ attempts) × (attempts ≤ max)
IsStatusSound max StreamEventProcessingStatus.processed attempts error =
    (attempts ≤ max) × (error ≡ none)
IsStatusSound max StreamEventProcessingStatus.ignored attempts error =
    (attempts ≤ max) × (error ≡ none)
IsStatusSound max StreamEventProcessingStatus.failed attempts error =
    (attempts < max) × (is_some error ≡ true)
IsStatusSound max StreamEventProcessingStatus.dead_letter attempts error =
    (attempts ≡ max) × (is_some error ≡ true)

pub IsSound : ℕ → BrokerStreamEventRecord → Type 0
IsSound max e = IsStatusSound max e.processing_status e.processing_attempts e.error_code

status-le :
    (max : ℕ) (st : StreamEventProcessingStatus) (attempts : ℕ) (error : Option String)
    → IsStatusSound max st attempts error
    → attempts ≤ max
unfolding IsStatusSound
status-le max StreamEventProcessingStatus.pending attempts error h = h
status-le max StreamEventProcessingStatus.processing attempts error h = h.1
status-le max StreamEventProcessingStatus.processed attempts error h = h.0
status-le max StreamEventProcessingStatus.ignored attempts error h = h.0
status-le max StreamEventProcessingStatus.failed attempts error h = omega (arith, h.0)
status-le max StreamEventProcessingStatus.dead_letter attempts error h = omega (arith, h.0)

IsSound-le : (max : ℕ) (e : BrokerStreamEventRecord) → IsSound max e → e.processing_attempts ≤ max
unfolding IsSound
IsSound-le max e s = status-le max e.processing_status e.processing_attempts e.error_code s

pub data Step (c : Canonical) (max : ℕ) : Inbox → Inbox → Type 0 where
  persist :
      (event : BrokerStreamEvent) (cid : String) (s : Inbox)
      → Step c max s (persist_event c event cid s).1
  claim : (id : ℕ) (s : Inbox) → Step c max s (claim_event id max s).1
  complete :
      (event : BrokerStreamEventRecord) (ignored : Bool) (now : ℕ) (s : Inbox)
      → Step c max s (complete_event event ignored now s)
  fail :
      (event : BrokerStreamEventRecord) (code message : String) (s : Inbox)
      → Step c max s (fail_event event max code message s).1
  retry : (event : BrokerStreamEventRecord) (s : Inbox) → Step c max s (retry_event event s)
  signal :
      (event : BrokerStreamEventRecord) (s : Inbox) → Step c max s (record_trade_signal event s)
  clean : (before batch : ℕ) (s : Inbox) → Step c max s (cleanup before batch s).1
  recover : (now : ℕ) (s : Inbox) → Step c max s (startup_recovery now s).1

pub data Steps (c : Canonical) (max : ℕ) : Inbox → Inbox → Type 0 where
  stay : (s : Inbox) → Steps c max s s
  more : (s t u : Inbox) → Steps c max s t → Step c max t u → Steps c max s u

All-update :
    (P : BrokerStreamEventRecord → Type 0) (p : BrokerStreamEventRecord → Bool)
    (f : BrokerStreamEventRecord → BrokerStreamEventRecord)
    → ((e : BrokerStreamEventRecord) → p e ≡ true → P e → P (f e))
    → (es : List BrokerStreamEventRecord) → All P es
    → All P (update p f es)
All-update P p f h [] hs = tt
All-update P p f h (e ∷ es) (he, hs) = (changed (p e) refl, All-update P p f h es hs)
  where
    changed : (b : Bool) → p e ≡ b → P (if b then f e else e)
    changed true q = h e q he
    changed false q = he

either_kept :
    (P : BrokerStreamEventRecord → Type 0) (b : Bool) (x y : ℕ × List BrokerStreamEventRecord)
    → All P x.1
    → All P y.1
    → All P (if b then x else y).1
either_kept P true x y hx hy = hx
either_kept P false x y hx hy = hy

All-drop_old :
    (P : BrokerStreamEventRecord → Type 0) (before left : ℕ) (es : List BrokerStreamEventRecord)
    → All P es
    → All P (drop_old before left es).1
All-drop_old P before left [] hs = tt
All-drop_old P before zero (e ∷ es) hs = hs
All-drop_old P before (suc left) (e ∷ es) (he, hs) =
    either_kept P (is_old before e) _ _ (All-drop_old P before left es hs)
      (he, All-drop_old P before (suc left) es hs)

claimed-IsSound :
    (id max : ℕ) (e : BrokerStreamEventRecord)
    → is_claimable_id id max e ≡ true
    → IsSound max e
    → IsSound max (claimed e)
unfolding IsSound IsStatusSound
claimed-IsSound id max e h s = ground (arith, IsSound-le max e s)

completed-IsSound :
    (max : ℕ) (ignored : Bool) (now : ℕ) (e : BrokerStreamEventRecord)
    → IsSound max e
    → IsSound max (completed ignored now e)
unfolding IsSound IsStatusSound
completed-IsSound max true now e s = (IsSound-le max e s, refl)
completed-IsSound max false now e s = (IsSound-le max e s, refl)

failed-IsSound :
    (max : ℕ) (code message : String) (e : BrokerStreamEventRecord)
    → IsSound max e
    → IsSound max (failed max code message e)
unfolding IsSound IsStatusSound
failed-IsSound max code message e s = elim (Bool-cases (is_dead max e)) [
  | inl p ↦ rw p (ground (arith, IsSound-le max e s), refl)
  | inr p ↦ rw p (ground arith, refl)
]

retried-IsSound : (max : ℕ) (e : BrokerStreamEventRecord) → IsSound max e → IsSound max (retried e)
unfolding IsSound IsStatusSound
retried-IsSound max e s = IsSound-le max e s

released-IsSound :
    (max : ℕ) (e : BrokerStreamEventRecord) → IsSound max e → IsSound max (released e)
unfolding IsSound IsStatusSound
released-IsSound max e s = IsSound-le max e s

pub new_record-IsSound :
    (max : ℕ) (c : Canonical) (event : BrokerStreamEvent) (cid : String) (id : ℕ)
    → IsSound max (new_record c event cid id)
unfolding IsSound IsStatusSound
new_record-IsSound max c event cid id = omega arith

persist-IsSound :
    (c : Canonical) (max : ℕ) (event : BrokerStreamEvent) (cid : String) (s : Inbox)
    → All (IsSound max) s.events
    → All (IsSound max) (persist_event c event cid s).1.events
unfolding persist_event
persist-IsSound c max event cid s h =
    elim (Option-cases (find (has_dedupe_key (c.event_dedupe_key event)) s.events)) [
      | inl p ↦
          rw (p, All)
            (All-append (IsSound max) s.events _ h
              (new_record-IsSound max c event cid s.next_id, tt))
      | inr (x, p) ↦ rw (p, All) h
    ]

claim-IsSound :
    (max id : ℕ) (s : Inbox)
    → All (IsSound max) s.events
    → All (IsSound max) (claim_event id max s).1.events
unfolding claim_event
claim-IsSound max id s h = elim (Option-cases (find (is_claimable_id id max) s.events)) [
  | inl p ↦ rw (p, All) h
  | inr (x, p) ↦
      rw (p, All) (All-update (IsSound max) _ claimed (claimed-IsSound id max) s.events h)
]

signal-events :
    (event : BrokerStreamEventRecord) (s : Inbox) → (record_trade_signal event s).events ≡ s.events
unfolding record_trade_signal
signal-events event s = ground arith

step-IsSound :
    (c : Canonical) (max : ℕ) (s t : Inbox)
    → Step c max s t
    → All (IsSound max) s.events
    → All (IsSound max) t.events
unfolding complete_event fail_event retry_event cleanup startup_recovery
step-IsSound c max _ _ (Step.persist event cid s) h = persist-IsSound c max event cid s h
step-IsSound c max _ _ (Step.claim id s) h = claim-IsSound max id s h
step-IsSound c max _ _ (Step.complete event ignored now s) h =
    All-update (IsSound max) _ _ (λ e p. completed-IsSound max ignored now e) s.events h
step-IsSound c max _ _ (Step.fail event code message s) h =
    All-update (IsSound max) _ _ (λ e p. failed-IsSound max code message e) s.events h
step-IsSound c max _ _ (Step.retry event s) h =
    All-update (IsSound max) _ _ (λ e p. retried-IsSound max e) s.events h
step-IsSound c max _ _ (Step.signal event s) h = rw (signal-events event s) h
step-IsSound c max _ _ (Step.clean before batch s) h =
    All-drop_old (IsSound max) before batch s.events h
step-IsSound c max _ _ (Step.recover now s) h =
    All-update (IsSound max) _ _ (λ e p. released-IsSound max e) s.events h

-- Whatever the workers, the listener and the administrator do to the inbox, in any order: from sound
-- rows only sound rows come. No row has been claimed more than max times; a failed one has an
-- attempt left and an error, a dead letter has used up all attempts, a finished one has no error,
-- and one that is being processed has been claimed.
pub Steps-IsSound :
    (c : Canonical) (max : ℕ) (s t : Inbox)
    → Steps c max s t
    → All (IsSound max) s.events
    → All (IsSound max) t.events
Steps-IsSound c max s _ (Steps.stay _) h = h
Steps-IsSound c max s u (Steps.more _ t _ before step) h =
    step-IsSound c max t u step (Steps-IsSound c max s t before h)
