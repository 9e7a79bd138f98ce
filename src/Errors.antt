-- ===== src/Errors.antt =====
-- The error types of internal/domain/errors and what the program does with errors: their texts, and
-- errors.As on the chain of wrapped errors.
use kenshu_elaris_project_pa.Base.{Bool, true, false, ◌||◌, [], ◌++◌}
use kenshu_elaris_project_pa.Go.Text.{GoString, lit}

-- An error value. `foreign` is an error of another package with its text, none of the types below
-- on its chain; `wrapped` is what fmt.Errorf makes with %w, the whole text and the error wrapped;
-- `joined` is the result of errors.Join.
mutual
  pub data GoError : Type 0 where
    foreign : GoString → GoError
    wrapped : GoString → GoError → GoError
    joined : Errors → GoError
    constrain : GoString → GoString → GoError
    app_corrupted_data : GoString → GoError → GoError
    app_already_exists : GoError → GoError
    app_invoice_not_found : GoError → GoError
    app_receipt_not_found : GoError → GoError
    app_publish : GoString → GoError → GoError
    app_unexpected : GoString → GoError → GoError
    db_unexpected : GoString → GoError → GoError
    db_corrupted_data : GoError → GoError
    db_already_exists : GoError → GoError
    db_invoice_not_found : GoError → GoError
    db_receipt_not_found : GoError → GoError
    mq_unexpected : GoString → GoError → GoError

  pub data Errors : Type 0 where
    nil : Errors
    cons : GoError → Errors → Errors

-- The methods `Error`.
unfoldable mutual
  pub error_text : GoError → GoString
  error_text (foreign t) = t
  error_text (wrapped t e) = t
  error_text (joined es) = joined_text es
  error_text (constrain f m) = f ++ (lit " has violations; " ++ m)
  error_text (app_corrupted_data m e) =
      lit "corrupted data error, " ++ (m ++ (lit ": " ++ error_text e))
  error_text (app_already_exists e) = lit "element already exists: " ++ error_text e
  error_text (app_invoice_not_found e) = lit "invoice not found: " ++ error_text e
  error_text (app_receipt_not_found e) = lit "receipt not found: " ++ error_text e
  error_text (app_publish m e) =
      lit "failed to publish message: " ++ (m ++ (lit ", " ++ error_text e))
  error_text (app_unexpected m e) = lit "unexpected error, " ++ (m ++ (lit ": " ++ error_text e))
  error_text (db_unexpected m e) = lit "unexpected error, " ++ (m ++ (lit ": " ++ error_text e))
  error_text (db_corrupted_data e) =
      lit "database contains inconsistent cottage data: " ++ error_text e
  error_text (db_already_exists e) = lit "element already exists: " ++ error_text e
  error_text (db_invoice_not_found e) = lit "invoice not found: " ++ error_text e
  error_text (db_receipt_not_found e) = lit "receipt not found: " ++ error_text e
  error_text (mq_unexpected m e) = lit "unexpected error, " ++ (m ++ (lit ": " ++ error_text e))

  -- errors.Join puts a line break between the texts.
  pub joined_text : Errors → GoString
  joined_text nil = []
  joined_text (cons e es) = after_first (error_text e) es

  pub after_first : GoString → Errors → GoString
  after_first t nil = t
  after_first t (cons e es) = after_first (t ++ (lit "\n" ++ error_text e)) es

-- The types that the program looks for with errors.As.
pub data Target : Type 0 where
  to_constrain to_app_already_exists to_db_already_exists : Target
  to_db_invoice_not_found to_db_corrupted_data : Target

is_target : Target → GoError → Bool
is_target to_constrain (constrain f m) = true
is_target to_app_already_exists (app_already_exists e) = true
is_target to_db_already_exists (db_already_exists e) = true
is_target to_db_invoice_not_found (db_invoice_not_found e) = true
is_target to_db_corrupted_data (db_corrupted_data e) = true
is_target t e = false

-- Whether errors.As finds the target: in the error itself, or in what `Unwrap` gives.
unfoldable mutual
  unfolding is_target

  pub error_as : Target → GoError → Bool
  error_as t (foreign m) = false
  error_as t (wrapped m e) = error_as t e
  error_as t (joined es) = any_as t es
  error_as t (constrain f m) = is_target t (constrain f m)
  error_as t (app_corrupted_data m e) = is_target t (app_corrupted_data m e) || error_as t e
  error_as t (app_already_exists e) = is_target t (app_already_exists e) || error_as t e
  error_as t (app_invoice_not_found e) = is_target t (app_invoice_not_found e) || error_as t e
  error_as t (app_receipt_not_found e) = is_target t (app_receipt_not_found e) || error_as t e
  error_as t (app_publish m e) = is_target t (app_publish m e) || error_as t e
  error_as t (app_unexpected m e) = is_target t (app_unexpected m e) || error_as t e
  error_as t (db_unexpected m e) = is_target t (db_unexpected m e) || error_as t e
  error_as t (db_corrupted_data e) = is_target t (db_corrupted_data e) || error_as t e
  error_as t (db_already_exists e) = is_target t (db_already_exists e) || error_as t e
  error_as t (db_invoice_not_found e) = is_target t (db_invoice_not_found e) || error_as t e
  error_as t (db_receipt_not_found e) = is_target t (db_receipt_not_found e) || error_as t e
  error_as t (mq_unexpected m e) = is_target t (mq_unexpected m e) || error_as t e

  pub any_as : Target → Errors → Bool
  any_as t nil = false
  any_as t (cons e es) = error_as t e || any_as t es
