-- ===== src/Broker/Mock/Pages.antt =====
-- app/streams/reconciliation.py against app/broker/mock.py: the loop over the pages reads every
-- operation once, in order.
use auto_invest_manager.Base.{
  ◌⊎◌, take, drop, length-drop, length-take_short, take_all, take-drop, drop-drop, append_assoc,
  leb-le, not-leb, not-ltb, lt-ltb, le-leb, lt-leb, if-true, if-false, ℕ, zero, suc, ◌+◌, ◌*◌, ◌≤◌,
  ◌<◌, ◌≡◌, refl, sym, ap, ◌∙◌, Bool, true, false, Option, none, some, List, [], ◌++◌, String,
  length, ltb, leb, if◌then◌else◌, Result, ok, err, Error, arith, Bool-cases, inl, inr,
}
use auto_invest_manager.Streams.Operations.{BrokerOperation, OperationsCursorRequest}
use auto_invest_manager.Streams.Ledger.{Books, Bank}
use auto_invest_manager.Streams.Reconciliation.{read_pages, page_request}
use auto_invest_manager.Broker.Mock.{Digits, IsDigits, start_of, page_from, get_operations_page}

out_of_pages :
    (bank : Bank) (account_id : String) (from_time : ℕ) (cursor : Option String)
    (before : List BrokerOperation) (s : Books)
    → (read_pages bank zero account_id from_time cursor before s).0 ≡ err Error.runtime
unfolding read_pages
out_of_pages bank account_id from_time cursor before s = refl

module _ (d : Digits) (law : IsDigits d) (bank : Bank) (operations : List BrokerOperation) where
  start_of-str : (n : ℕ) → start_of d (some (d.str n)) ≡ ok n
  start_of-str n = ground (arith, law.str_some n, law.int-str n)

  -- The page at a start is the rest or a hundred operations of it.
  page_items :
      (start : ℕ)
      → start ≤ length operations
      → let items = take 100 (drop start operations) in
        ((length operations ≤ start + 100)
          × (items ≡ drop start operations)
          × (ltb (start + length items) (length operations) ≡ false))
        ⊎ ((start + 100 < length operations)
            × (start + length items ≡ start + 100)
            × (ltb (start + length items) (length operations) ≡ true))
  page_items start l =
      let rest = drop start operations in
      let r = length-drop start operations in
      elim (Bool-cases (leb (length operations) (start + 100))) [
        | inl p ↦
            let short = leb-le _ _ p in
            let all = take_all 100 rest (omega (arith, r, short)) in
            let same = ap length all in inl (short, all, not-ltb _ _ (omega (arith, r, same, l)))
        | inr p ↦
            let long = not-leb _ _ p in
            let full = length-take_short 100 rest (omega (arith, r, long)) in
            inr (long, omega (arith, full), lt-ltb _ _ (omega (arith, full, long)))
      ]

  module _ (n : ℕ) (account_id : String) (from_time start : ℕ) (cursor : Option String)
      (before : List BrokerOperation) (s : Books)
      (page : (k : ℕ) (r : OperationsCursorRequest)
        → bank.get_operations_page k r ≡ get_operations_page d operations r)
      (c : start_of d cursor ≡ ok start) where
    now : ℕ
    now = bank.clock s.calls

    page_eq :
        bank.get_operations_page (s.calls + 1) (page_request bank account_id from_time cursor now)
        ≡ ok (page_from d operations start (take 100 (drop start operations)))
    unfolding get_operations_page now
    page_eq = page (s.calls + 1) (page_request bank account_id from_time cursor now) ∙ ground arith

    read_pages-last :
        ltb (start + length (take 100 (drop start operations))) (length operations) ≡ false
        → (read_pages bank (suc n) account_id from_time cursor before s).0
          ≡ ok (before ++ take 100 (drop start operations), none)
    unfolding read_pages now
    read_pages-last h = ground (arith, page_eq)

    read_pages-next :
        ltb (start + length (take 100 (drop start operations))) (length operations) ≡ true
        → (read_pages bank (suc n) account_id from_time cursor before s).0
          ≡ (read_pages bank n account_id from_time
              (some (d.str (start + length (take 100 (drop start operations)))))
              (before ++ take 100 (drop start operations))
              (record s { calls = s.calls + 1 + 1 })).0
    unfolding read_pages now
    read_pages-next h = ground (arith, page_eq)

  -- What the loop answers with that many pages left, behind the operations that are read.
  outcome : (n start : ℕ) → List BrokerOperation → Result (List BrokerOperation × Option String)
  outcome n start before =
      if leb (length operations) (start + n * 100)
      then ok (before ++ drop start operations, none)
      else err Error.runtime

  outcome-next :
      (n start : ℕ) (before : List BrokerOperation)
      → let items = take 100 (drop start operations) in
        start + length items ≡ start + 100
        → outcome n (start + length items) (before ++ items) ≡ outcome (suc n) start before
  unfolding outcome
  outcome-next n start before h =
      let items = take 100 (drop start operations) in
      ap (λ (k : ℕ). outcome n k (before ++ items)) h
      ∙ cong-if (ap (leb (length operations)) (omega arith)) (
          append_assoc before items (drop (start + 100) operations)
          ∙ ap (λ (l : List BrokerOperation). before ++ l)
              (ap (λ (l : List BrokerOperation). items ++ l) (sym (drop-drop start 100 operations))
                ∙ take-drop 100 (drop start operations)))
    where
      answer : Bool → List BrokerOperation → Result (List BrokerOperation × Option String)
      answer b x = if b then ok (x, none) else err Error.runtime

      cong-if : {b c : Bool} {x y : List BrokerOperation} → b ≡ c → x ≡ y → answer b x ≡ answer c y
      cong-if {b} {c} {x} {y} p q = ap (λ (k : Bool). answer k x) p ∙ ap (answer c) q

  read_pages_from :
      ((k : ℕ) (r : OperationsCursorRequest)
        → bank.get_operations_page k r ≡ get_operations_page d operations r)
      → (n : ℕ) (account_id : String) (from_time start : ℕ) (cursor : Option String)
        (before : List BrokerOperation) (s : Books)
      → start_of d cursor ≡ ok start
      → start ≤ length operations
      → start < length operations + n
      → (read_pages bank n account_id from_time cursor before s).0 ≡ outcome n start before
  unfolding outcome
  read_pages_from page zero account_id from_time start cursor before s c l k =
      out_of_pages bank account_id from_time cursor before s
      ∙ if-false (leb (length operations) (start + 0 * 100)) _ _ (lt-leb _ _ (omega (arith, k)))
  read_pages_from page (suc n) account_id from_time start cursor before s c l k =
      elim (page_items start l) [
        | inl (short, all, last) ↦
            read_pages-last n account_id from_time start cursor before s page c last
            ∙ ap (λ (items : List BrokerOperation). ok (before ++ items, none)) all
            ∙ if-true (leb (length operations) (start + suc n * 100)) _ _
                (le-leb _ _ (omega (arith, short)))
        | inr (long, next, more) ↦
            read_pages-next n account_id from_time start cursor before s page c more
            ∙ read_pages_from page n account_id from_time
                (start + length (take 100 (drop start operations)))
                (some (d.str (start + length (take 100 (drop start operations)))))
                (before ++ take 100 (drop start operations)) (record s { calls = s.calls + 1 + 1 })
                (start_of-str _) (omega (arith, next, long)) (omega (arith, next, long))
            ∙ outcome-next n start before next
      ]

  -- Against the mock provider, the loop over at most `n` pages of a hundred operations reads every
  -- operation, once and in order, when there are no more than that many, and raises RuntimeError
  -- when there are more.
  pub read_pages-mock :
      ((k : ℕ) (r : OperationsCursorRequest)
        → bank.get_operations_page k r ≡ get_operations_page d operations r)
      → (n : ℕ) (account_id : String) (from_time : ℕ) (s : Books) → 1 ≤ n
      → (read_pages bank n account_id from_time none [] s).0
        ≡ (if leb (length operations) (n * 100) then ok (operations, none) else err Error.runtime)
  unfolding outcome
  read_pages-mock page n account_id from_time s h =
      read_pages_from page n account_id from_time 0 none [] s refl (omega arith) (omega (arith, h))
      ∙ ap (λ (b : Bool). if b then ok (operations, none) else err Error.runtime)
          (ap (leb (length operations)) {x = 0 + n * 100} (omega arith))
