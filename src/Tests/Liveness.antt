-- ===== src/Tests/Liveness.antt =====
-- Packages and ports that do their work.
use kenshu_elaris_project_pa.Base.{◌≡◌, false, refl, some, [], ◌∷◌, arith}
use kenshu_elaris_project_pa.Go.Text.{
  lit, remove_byte, equal_fold, is_blank, text_eq, to_lower, trim_space,
}
use kenshu_elaris_project_pa.Go.Time.{Time}
use kenshu_elaris_project_pa.Go.Call.{ok}
use kenshu_elaris_project_pa.Validation.{validate, blank_error, zero_error, is_zero, instant}
use kenshu_elaris_project_pa.Document.Invoice.{status_paid}
use kenshu_elaris_project_pa.App.Unmarshal.{unmarshal_request}
use kenshu_elaris_project_pa.App.PaymentMaking.{Answer, card_validator, pay_with_card}
use kenshu_elaris_project_pa.App.PaymentMaking.Payment.{Answered}
use kenshu_elaris_project_pa.App.PaymentMaking.Liveness
use kenshu_elaris_project_pa.App.PaymentMaking.Liveness.{pay_with_card_served}
use kenshu_elaris_project_pa.App.InvoiceService.{process_invoice_delivery}
use kenshu_elaris_project_pa.App.InvoiceService.Success.{IsProcessed}
use kenshu_elaris_project_pa.App.InvoiceService.Liveness.{IsServed, process_invoice_delivery_served}
use kenshu_elaris_project_pa.Tests.Documents.{order-IsWellFormed}
use kenshu_elaris_project_pa.Tests.Fixtures.{start, bill, order, payment, delivery, noon}
use kenshu_elaris_project_pa.Tests.Services.{ledger, invoices}
use kenshu_elaris_project_pa.Tests.Running.{status_in, ledger_collection}
use kenshu_elaris_project_pa.App.PaymentMaking.{PaymentMakingService}
use kenshu_elaris_project_pa.App.PaymentMaking.Stored.{stored}
use kenshu_elaris_project_pa.Infra.Ports.{invoice_repo_of}
use kenshu_elaris_project_pa.Db.InvoiceRepo.{
  update_status, update_validator, find_by_invoice_number, number_validator,
}
use kenshu_elaris_project_pa.Go.Call.{World}
use kenshu_elaris_project_pa.Go.Text.{GoString}
use kenshu_elaris_project_pa.Port.{Event}
use kenshu_elaris_project_pa.Document.Invoice.{is_valid_invoice_status}

-- The service over the repository of the program, whose collection keeps the status of its invoice.
abbrev stored_ledger : PaymentMakingService GoString Time
stored_ledger = stored ledger status_in ledger_collection

abbrev AnyState : GoString → Type 0
AnyState e = Unit {0}

update_taken :
    (now : Time) (e : GoString)
    → is_zero (instant now) ≡ false
    → stored_ledger.invoice_repo.update_status (lit "INV-1") status_paid now e ≡ (ok tt, lit "paid")
unfolding invoice_repo_of update_status update_validator validate blank_error is_blank lit
    is_valid_invoice_status status_paid zero_error text_eq
update_taken now e past = ground (arith, past)

stored_ledger-IsServed : Liveness.IsServed stored_ledger (some payment) AnyState AnyState
unfolding lit remove_byte
stored_ledger-IsServed = record {
  working = λ e up. tt;
  picked = λ e up. tt;
  drawn = λ e up. (lit "ab-cd", e, refl, ground arith, tt);
  filled = λ e up. (1 ∷ 2 ∷ 3 ∷ 4 ∷ 5 ∷ 6 ∷ [], e, refl, omega arith);
  updated = λ now e up past. (lit "paid", update_taken now e past, tt);
}

abbrev unpaid : World GoString (Event Time)
unpaid = record { env = lit "pending"; trace = [] }

pay_with_card_served_example :
    (a : Answer Time) × ((pay_with_card stored_ledger (some payment) unpaid).0 ≡ ok a)
    × Answered stored_ledger
        (some payment)
        noon
        (lit "pending")
        []
        a
        (pay_with_card stored_ledger (some payment) unpaid).1.trace
unfolding lit validate card_validator blank_error is_blank zero_error equal_fold status_paid
    invoice_repo_of find_by_invoice_number number_validator is_zero
pay_with_card_served_example =
    pay_with_card_served stored_ledger (some payment) AnyState AnyState stored_ledger-IsServed
      (ground arith) unpaid {now = noon} {e₁ = lit "pending"} {e₂ = lit "pending"}
      {invoice = record bill { status = lit "pending" }} refl refl refl refl refl tt

invoices-IsServed : IsServed (invoices order)
unfolding lit remove_byte
invoices-IsServed = record {
  timed = λ e. (noon, tt, refl);
  drawn = λ e. (lit "ab-cd", tt, refl, ground arith);
  filled = λ e. (1 ∷ 2 ∷ 3 ∷ 4 ∷ 5 ∷ 6 ∷ [], tt, refl, omega arith);
  added = λ i e storable. (9, tt, refl);
  published = λ m key e. (tt, refl);
  acked = λ tag e. (tt, refl);
  same_time = λ t. refl;
}

process_invoice_delivery_served_example :
    ((process_invoice_delivery (invoices order) delivery start).0 ≡ ok tt)
    × IsProcessed
        (invoices order)
        delivery
        []
        (process_invoice_delivery (invoices order) delivery start).1
unfolding unmarshal_request text_eq to_lower trim_space lit is_zero
process_invoice_delivery_served_example =
    process_invoice_delivery_served (invoices order) invoices-IsServed delivery order start refl
      order-IsWellFormed (record { issued = refl; due = refl })
