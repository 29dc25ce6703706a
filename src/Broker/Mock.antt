-- ===== src/Broker/Mock.antt =====
-- app/broker/mock.py, `MockBrokerProvider.get_operations_page`: the operations that a test has set, page
-- by page. Python's `str` and `int` on the cursor are a parameter.
pub mod Pages
use auto_invest_manager.Base.{
  take, drop, ℕ, zero, suc, ◌+◌, Bool, true, false, Option, none, some, List, [], ◌∷◌, String,
  str_eq, length, ltb, if◌then◌else◌, Result, ok, err, Error, ◌≡◌,
}
use auto_invest_manager.Streams.Operations.{
  BrokerOperation, OperationsCursorRequest, OperationsCursorPage,
}

-- `str(n)` and `int(text)`, which raises ValueError.
pub record Digits : Type 0 where
  pub str : ℕ → String
  pub int : String → Result ℕ

-- A number that is written is read back, and is not the empty text.
pub record IsDigits (d : Digits) : Type 0 where
  pub int-str : (n : ℕ) → d.int (d.str n) ≡ ok n
  pub str_some : (n : ℕ) → str_eq (d.str n) "" ≡ false

module _ (d : Digits) where
  -- `int(request.cursor or 0)`
  abbrev pub start_of : Option String → Result ℕ
  start_of none = ok 0
  start_of (some text) = if str_eq text "" then ok 0 else d.int text

  abbrev pub page_from : List BrokerOperation → ℕ → List BrokerOperation → OperationsCursorPage
  page_from operations start items =
      let next_index = start + length items in
      let has_next = ltb next_index (length operations) in
      record {
        items = items;
        next_cursor = if has_next then some (d.str next_index) else none;
        has_next = has_next;
      }

  abbrev pub page_at : List BrokerOperation → ℕ → Result ℕ → Result OperationsCursorPage
  page_at operations limit (err e) = err e
  page_at operations limit (ok start) =
      ok (page_from operations start (take limit (drop start operations)))

  unfoldable pub get_operations_page :
      List BrokerOperation → OperationsCursorRequest → Result OperationsCursorPage
  get_operations_page operations request =
      page_at operations request.limit (start_of request.cursor)
