-- ===== src/Streams/Inbox/Rules.antt =====
-- app/streams/repository.py: one event is stored once, claimed by one worker, and claimed no more
-- often than the settings allow.
use auto_invest_manager.Base.{
  ℕ, ◌==◌, ◌≤◌, ◌≡◌, refl, true, false, ◌&&◌, none, some, List, [], ◌∷◌, find, find-append_none,
  Option-cases, update, All, String, str_eq, inl, inr, arith, eq_iff,
}
use auto_invest_manager.Models.Entities.{BrokerStreamEventRecord}
use auto_invest_manager.Streams.Inbox.{
  Inbox, BrokerStreamEvent, Canonical, persist_event, has_dedupe_key, new_record, claim_event,
  is_claimable, is_claimable_id, claimed, retry_event, retried,
}

str_eq_refl : (s : String) → str_eq s s ≡ true
str_eq_refl s = (eq_iff s s).1 refl

find-none_of_update :
    (id max : ℕ) (es : List BrokerStreamEventRecord)
    → find (is_claimable_id id max) (update (is_claimable_id id max) claimed es) ≡ none
find-none_of_update id max [] = refl
find-none_of_update id max (e ∷ es) = ground (arith, find-none_of_update id max es)

-- An event that has just been claimed cannot be claimed by the next caller.
pub claim_event_twice :
    (id max : ℕ) (s : Inbox) (e : BrokerStreamEventRecord)
    → (claim_event id max s).0 ≡ some e
    → (claim_event id max (claim_event id max s).1).0 ≡ none
unfolding claim_event
claim_event_twice id max s e h = elim (Option-cases (find (is_claimable_id id max) s.events)) [
  | inl p ↦ ground arith
  | inr (x, p) ↦ ground (arith, find-none_of_update id max s.events)
]

-- An event with the dedupe key of the event that was persisted just before is answered with the row
-- that stands for that one, as not new, and changes no row.
pub persist_event_again :
    (c : Canonical) (event again : BrokerStreamEvent) (cid cid' : String) (s : Inbox)
    → c.event_dedupe_key again ≡ c.event_dedupe_key event
    → let first = persist_event c event cid s in
      ((persist_event c again cid' first.1).0 ≡ (first.0.0, false))
      × ((persist_event c again cid' first.1).1.events ≡ first.1.events)
unfolding persist_event
persist_event_again c event again cid cid' s h =
    elim (Option-cases (find (has_dedupe_key (c.event_dedupe_key event)) s.events)) [
      | inl p ↦ ground (
        arith,
        find-append_none (has_dedupe_key (c.event_dedupe_key event)) s.events
            (new_record c event cid s.next_id ∷ []) p,
        str_eq_refl (c.event_dedupe_key event),
      )
      | inr (x, p) ↦ ground arith
    ]

still_exhausted :
    (id max : ℕ) (es : List BrokerStreamEventRecord)
    → All (λ e. (e.id ≡ id) → max ≤ e.processing_attempts) es
    → find (λ e. (e.id == id) && is_claimable max e) (update (λ e. e.id == id) retried es) ≡ none
still_exhausted id max [] h = refl
still_exhausted id max (e ∷ es) (h, hs) = ground (arith, still_exhausted id max es hs)

-- When every row of an id has used up its attempts, the retry of that event does not make it
-- claimable: `retry_event` leaves the number of attempts as it is.
pub retry_event_never_claimed :
    (max : ℕ) (event : BrokerStreamEventRecord) (s : Inbox)
    → All (λ e. (e.id ≡ event.id) → max ≤ e.processing_attempts) s.events
    → (claim_event event.id max (retry_event event s)).0 ≡ none
unfolding claim_event retry_event
retry_event_never_claimed max event s h = ground (arith, still_exhausted event.id max s.events h)
