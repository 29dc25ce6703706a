-- ===== src/Streams/Jobs/Attempts.antt =====
-- app/streams/processor.py and app/automation/worker.py: what one attempt at an event makes of its
-- row, whether it ends or is interrupted.
use auto_invest_manager.Base.{
  ℕ, ◌+◌, ◌==◌, ◌≡◌, refl, ◌∙◌, ap, Bool, true, false, [], ◌∷◌, keep, Option-cases, ok, inl, inr,
  arith,
}
use auto_invest_manager.Models.Entities.{BrokerStreamEventRecord}
use auto_invest_manager.Streams.Inbox.{
  Inbox, claim_event, claimed, completed, failed, is_claimable, get_event,
}
use auto_invest_manager.Streams.Processor.{
  Worker, Surroundings, process_event, handle_event, reason_of,
}
use auto_invest_manager.Streams.Processor.Outcomes.{
  IsSettled, completed-IsSettled, failed-IsSettled, fail-inbox,
}
use auto_invest_manager.Streams.Jobs.{Interruption, cut, timed_out}
use auto_invest_manager.Streams.Jobs.Rows.{
  rows, get_event-rows, claim_event-rows, fail_event-rows, keep_id, signal_trade-events,
  scheduled-events, handle_event-rows,
}

-- The row of the id after one more attempt, settled as the answer of the job says.
abbrev pub IsTried : ℕ → ℕ → ℕ → Bool → Inbox → Type 0
IsTried max id attempts processed i =
    (e : BrokerStreamEventRecord) × (rows id i ≡ e ∷ [])
    × (e.processing_attempts ≡ attempts)
    × IsSettled max processed e

pub process_event-IsTried :
    (w : Surroundings) (id max d m : ℕ) (s : Worker) (e : BrokerStreamEventRecord)
    → rows id s.inbox ≡ e ∷ []
    → is_claimable max e ≡ true
    → (processed : Bool) × ((process_event w id max d m s).0 ≡ ok processed)
      × IsTried max id (e.processing_attempts + 1) processed (process_event w id max d m s).1.inbox
unfolding process_event
process_event-IsTried w id max d m s e h c =
    let (p, q) = claim_event-rows id max s.inbox e h c in
    let t : Worker = record s { inbox = (claim_event id max s.inbox).1 } in
    let v : Worker = (handle_event w (claimed e) d m t).1 in
    elim (handle_event-rows w id d m (claimed e) t q) [
      | inl (ignored, now, r, u) ↦ (
        true,
        ground arith,
        (
          completed ignored now (claimed e),
          ground arith,
          refl,
          completed-IsSettled max ignored now (claimed e),
        ),
      )
      | inr (x, r, u) ↦ (
        false,
        ground (arith, fail-inbox w (claimed e) max x v),
        (
          failed max "stream_event_processing_failed" "Stream event processing failed" (claimed e),
          ground (
            arith,
            fail-inbox w (claimed e) max x v,
            fail_event-rows max "stream_event_processing_failed" "Stream event processing failed" id
                v.inbox (claimed e) (claimed e) u (keep_id id t.inbox.events q),
          ),
          refl,
          failed-IsSettled max _ _ (claimed e),
        ),
      )
    ]

-- What the interruption leaves of a claimed row has its attempts.
pub cut-rows :
    (w : Surroundings) (max d m : ℕ) (i : Interruption) (id : ℕ) (c : BrokerStreamEventRecord)
    (s : Worker)
    → rows id s.inbox ≡ c ∷ []
    → (x : BrokerStreamEventRecord) × (rows id (cut w max d m i c s).inbox ≡ x ∷ [])
      × (x.processing_attempts ≡ c.processing_attempts)
cut-rows w max d m Interruption.nothing_done id c s h = (c, h, refl)
cut-rows w max d m Interruption.event_claimed id c s h = (c, h, refl)
cut-rows w max d m Interruption.trade_signalled id c s h =
    (c, ap (keep (λ e. e.id == id)) (signal_trade-events w c s) ∙ h, refl)
cut-rows w max d m Interruption.reconciliation_scheduled id c s h =
    elim (Option-cases (reason_of c.event_kind)) [
      | inl p ↦ (c, ground arith, refl)
      | inr (reason, p) ↦
          (c, ground (arith, ap (keep (λ e. e.id == id)) (scheduled-events w c reason d m s)), refl)
    ]
cut-rows w max d m Interruption.event_failed id c s h =
    let v = (handle_event w c d m s).1 in
    elim (handle_event-rows w id d m c s h) [
      | inl (ignored, now, r, u) ↦ (completed ignored now c, ground arith, refl)
      | inr (e, r, u) ↦
          let f =
            fail_event-rows max "stream_event_processing_failed" "Stream event processing failed" id
              v.inbox c c u (keep_id id s.inbox.events h) in
          (
            failed max "stream_event_processing_failed" "Stream event processing failed" c,
            ground (arith, fail-inbox w c max e v, f),
            refl,
          )
    ]
cut-rows w max d m Interruption.event_completed id c s h = elim (handle_event-rows w id d m c s h) [
  | inl (ignored, now, r, u) ↦ (completed ignored now c, u, refl)
  | inr (e, r, u) ↦ (c, u, refl)
]

pub timed_out-IsTried :
    (w : Surroundings) (id max d m attempts : ℕ) (s : Worker) (x : BrokerStreamEventRecord)
    → rows id s.inbox ≡ x ∷ []
    → x.processing_attempts ≡ attempts
    → IsTried max id attempts false (timed_out w max d m (get_event id s.inbox) s).inbox
timed_out-IsTried w id max d m attempts s x h a = (
  failed max "stream_event_timeout" "Stream event processing timed out" x,
  ground (
    arith,
    get_event-rows id s.inbox x h,
    fail_event-rows max "stream_event_timeout" "Stream event processing timed out" id s.inbox x x h
        (keep_id id s.inbox.events h),
  ),
  a,
  failed-IsSettled max _ _ x,
)
