-- ===== src/Streams/Jobs/Rows.antt =====
-- app/streams/repository.py and app/streams/processor.py: what the operations on an event make of
-- the one row that has its id.
use auto_invest_manager.Base.{
  ℕ, ◌==◌, ◌≡◌, refl, ◌∙◌, ap, Bool, true, false, ◌&&◌, some, List, [], ◌∷◌, keep, find, update,
  Result-cases, Option-cases, Bool-cases, ok, err, Error, inl, inr, ◌⊎◌, String, arith,
}
use auto_invest_manager.Models.Enums.{ReconciliationReason}
use auto_invest_manager.Models.Entities.{BrokerStreamEventRecord}
use auto_invest_manager.Streams.Inbox.{
  Inbox, claim_event, claimed, complete_event, completed, fail_event, failed, is_claimable_id,
  is_claimable, get_event,
}
use auto_invest_manager.Streams.Inbox.Counting.{record_trade_signal}
use auto_invest_manager.Streams.Processor.{
  Worker, Surroundings, handle_event, signal_trade, schedule_debounced_reconciliation, reason_of,
}
use auto_invest_manager.Streams.Processor.Outcomes.{schedule_debounced_reconciliation_jobs}

abbrev pub rows : ℕ → Inbox → List BrokerStreamEventRecord
rows id i = keep (λ e. e.id == id) i.events

pub keep-update_one :
    (id : ℕ) (q : BrokerStreamEventRecord → Bool)
    (f : BrokerStreamEventRecord → BrokerStreamEventRecord)
    → ((e : BrokerStreamEventRecord) → (f e).id ≡ e.id)
    → (es : List BrokerStreamEventRecord)
    → keep (λ e. e.id == id) (update q f es) ≡ update q f (keep (λ e. e.id == id) es)
keep-update_one id q f same [] = refl
keep-update_one id q f same (e ∷ es) = ground (arith, same e, keep-update_one id q f same es)

find-keep :
    (id : ℕ) (r : BrokerStreamEventRecord → Bool) (es : List BrokerStreamEventRecord)
    → find (λ e. (e.id == id) && r e) es ≡ find r (keep (λ e. e.id == id) es)
find-keep id r [] = refl
find-keep id r (e ∷ es) = ground (arith, find-keep id r es)

find_all :
    (id : ℕ) (es : List BrokerStreamEventRecord)
    → find (λ e. e.id == id) es ≡ find (λ e. true) (keep (λ e. e.id == id) es)
find_all id [] = refl
find_all id (e ∷ es) = ground (arith, find_all id es)

pub keep_id :
    (id : ℕ) (es : List BrokerStreamEventRecord) {e : BrokerStreamEventRecord}
    {r : List BrokerStreamEventRecord}
    → keep (λ e. e.id == id) es ≡ e ∷ r
    → e.id ≡ id
keep_id id [] h = absurd (cc)
keep_id id (x ∷ es) {e} {r} h = elim (Bool-cases (x.id == id)) [
  | inl p ↦ ground arith
  | inr p ↦ keep_id id es {e = e} {r = r} (ground arith)
]

pub claim_event-rows :
    (id max : ℕ) (s : Inbox) (e : BrokerStreamEventRecord)
    → rows id s ≡ e ∷ []
    → is_claimable max e ≡ true
    → ((claim_event id max s).0 ≡ some (claimed e))
      × (rows id (claim_event id max s).1 ≡ claimed e ∷ [])
unfolding claim_event
claim_event-rows id max s e h c = ground (
  arith,
  find-keep id (is_claimable max) s.events,
  keep_id id s.events h,
  keep-update_one id (is_claimable_id id max) claimed (λ e. refl) s.events,
)

pub get_event-rows :
    (id : ℕ) (s : Inbox) (e : BrokerStreamEventRecord)
    → rows id s ≡ e ∷ []
    → get_event id s ≡ some e
get_event-rows id s e h = ground (arith, find_all id s.events)

complete_event-rows :
    (ignored : Bool) (now id : ℕ) (s : Inbox) (e : BrokerStreamEventRecord)
    → rows id s ≡ e ∷ []
    → rows id (complete_event e ignored now s) ≡ completed ignored now e ∷ []
unfolding complete_event
complete_event-rows ignored now id s e h = ground (
  arith,
  keep_id id s.events h,
  keep-update_one id (λ x. x.id == e.id) (completed ignored now) (λ e. refl) s.events,
)

pub fail_event-rows :
    (max : ℕ) (code message : String) (id : ℕ) (s : Inbox) (e x : BrokerStreamEventRecord)
    → rows id s ≡ e ∷ []
    → x.id ≡ id
    → rows id (fail_event x max code message s).1 ≡ failed max code message e ∷ []
unfolding fail_event
fail_event-rows max code message id s e x h q = ground (
  arith,
  keep_id id s.events h,
  keep-update_one id (λ y. y.id == x.id) (failed max code message) (λ e. refl) s.events,
)

record_trade_signal-events :
    (event : BrokerStreamEventRecord) (s : Inbox) → (record_trade_signal event s).events ≡ s.events
unfolding record_trade_signal
record_trade_signal-events event s = ground arith

pub signal_trade-events :
    (w : Surroundings) (event : BrokerStreamEventRecord) (s : Worker)
    → (signal_trade w event s).inbox.events ≡ s.inbox.events
signal_trade-events w event s = ground (arith, record_trade_signal-events event s.inbox)

pub scheduled-events :
    (w : Surroundings) (event : BrokerStreamEventRecord) (reason : ReconciliationReason) (d m : ℕ)
    (s : Worker)
    → (schedule_debounced_reconciliation w event.account_id reason d m
        (signal_trade w event s)).1.inbox.events
      ≡ s.inbox.events
scheduled-events w event reason d m s =
    ap (λ (i : Inbox). i.events)
      (schedule_debounced_reconciliation_jobs w event.account_id reason d m
        (signal_trade w event s)).0
    ∙ signal_trade-events w event s

pub handle_event-rows :
    (w : Surroundings) (id d m : ℕ) (c : BrokerStreamEventRecord) (s : Worker)
    → rows id s.inbox ≡ c ∷ []
    → let out = handle_event w c d m s in
      ((ignored : Bool) × (now : ℕ) × (out.0 ≡ ok true)
        × (rows id out.1.inbox ≡ completed ignored now c ∷ []))
      ⊎ ((e : Error) × (out.0 ≡ err e) × (rows id out.1.inbox ≡ c ∷ []))
unfolding handle_event
handle_event-rows w id d m c s h = elim (Option-cases (reason_of c.event_kind)) [
  | inl p ↦ inl (
    true,
    w.clock s.calls,
    ground arith,
    ground (
      arith,
      complete_event-rows true (w.clock s.calls) id (signal_trade w c s).inbox c
          (ap (keep (λ e. e.id == id)) (signal_trade-events w c s) ∙ h),
    ),
  )
  | inr (reason, p) ↦
      let t = schedule_debounced_reconciliation w c.account_id reason d m (signal_trade w c s) in
      let q = ap (keep (λ e. e.id == id)) (scheduled-events w c reason d m s) ∙ h in
      elim (Result-cases t.0) [
        | inl (key, r) ↦ inl (
          false,
          w.clock t.1.calls,
          ground arith,
          ground (arith, complete_event-rows false (w.clock t.1.calls) id t.1.inbox c q),
        )
        | inr (e, r) ↦ inr (e, ground arith, ground arith)
      ]
]
