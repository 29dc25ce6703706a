-- ===== src/Checks/Broker.antt =====
-- The theorems on app/broker/mock.py at concrete inputs.
use auto_invest_manager.Base.{
  ℕ, zero, suc, ◌≡◌, refl, ap, Bool-cases, inl, inr, eq_iff, false, none, [], ◌∷◌, ok, String,
  str_eq, arith, ◌-◌,
}
use Prim.Native.String.{◌++◌ as concat, count}
use text.Mathlib.TextLemmas.{length-append}
use auto_invest_manager.Streams.Ledger.{Bank}
use auto_invest_manager.Streams.Reconciliation.{read_pages}
use auto_invest_manager.Checks.Reconciliation.{bank, books, deposit}
use auto_invest_manager.Broker.Mock.{Digits, IsDigits, get_operations_page}
use auto_invest_manager.Broker.Mock.Pages.{read_pages-mock}

-- Numbers written with one digit, one more than the number says.
abbrev ones : ℕ → String
ones zero = "1"
ones (suc n) = concat "1" (ones n)

abbrev unary : Digits
unary = record { str = ones; int = λ text. ok (count text - 1) }

count-ones : (n : ℕ) → count (ones n) ≡ suc n
count-ones zero = refl
count-ones (suc n) = omega (arith, count-ones n, length-append "1" (ones n))

ones_some : (n : ℕ) → str_eq (ones n) "" ≡ false
ones_some n = elim (Bool-cases (str_eq (ones n) "")) [
  | inl p ↦
      let q : count (ones n) ≡ 0 = ap count ((eq_iff (ones n) "").0 p) in
      absurd (omega (arith, q, count-ones n))
  | inr p ↦ p
]

unary-IsDigits : IsDigits unary
unary-IsDigits = record { int-str = λ n. ap ok (omega (arith, count-ones n)); str_some = ones_some }

abbrev mock_bank : Bank
mock_bank = record bank {
  get_operations_page = λ k r. get_operations_page unary (deposit ∷ deposit ∷ []) r;
}

read_pages-mock_example :
    (read_pages mock_bank 3 "acc" 5 none [] books).0 ≡ ok (deposit ∷ deposit ∷ [], none)
read_pages-mock_example =
    read_pages-mock unary unary-IsDigits mock_bank (deposit ∷ deposit ∷ []) (λ k r. refl) 3 "acc" 5
      books (omega arith)
