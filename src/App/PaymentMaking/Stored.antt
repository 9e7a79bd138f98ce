-- ===== src/App/PaymentMaking/Stored.antt =====
-- The payment making service over the repository of internal/infra/db/invoice_repository.go,
-- which fulfils what the theorem on repeated payments asks for.
use kenshu_elaris_project_pa.Base.{
  ℕ, zero, suc, ◌≡◌, refl, sym, ap, ◌∙◌, Bool-cases, Option-cases, Option, some, inl, inr, [], ◌∷◌,
  arith,
}
use kenshu_elaris_project_pa.Go.Text.{GoString, lit}
use kenshu_elaris_project_pa.Go.Time.{Time}
use kenshu_elaris_project_pa.Go.Call.{ok}
use kenshu_elaris_project_pa.Validation.{validate}
use kenshu_elaris_project_pa.Document.Invoice.{Invoice, is_valid_invoice_status}
use kenshu_elaris_project_pa.Db.Collection.{
  Collection, FindResult, found, no_documents, find_failed, UpdateResult, matched, update_failed,
  text, time,
}
use kenshu_elaris_project_pa.Db.InvoiceRepo.{
  number_validator, update_validator, number_filter, find_outcome, find, find_by_invoice_number,
  update_outcome, update_status,
}
use kenshu_elaris_project_pa.Infra.Ports.{invoice_repo_of}
use kenshu_elaris_project_pa.App.PaymentMaking.{PaymentMakingService}
use kenshu_elaris_project_pa.App.PaymentMaking.Once.{KeepsStatus}

module _ {E : Type 0} (status_of : E → GoString → Option GoString) (c : Collection E Invoice) where
  -- What the documentation of MongoDB says of the two operations in use: a document that FindOne
  -- gives for a filter by number is a stored one, and an UpdateOne that has matched a document has set
  -- its fields.
  pub record IsStore : Type 0 where
    pub finds :
        (n : GoString) (env env' : E) (i : Invoice)
        → c.find_one (number_filter n) env ≡ (found i, env')
        → status_of env n ≡ some i.status
    pub sets :
        (n status : GoString) (t : Time) (env env' : E) (k : ℕ)
        → c.update_one
            (number_filter n)
            ((lit "status", text status) ∷ (lit "updated_at", time t) ∷ [])
            env
          ≡ (matched (suc k), env')
        → status_of env' n ≡ some status

  found-inv : (r : FindResult Invoice) (i : Invoice) → find_outcome c r ≡ ok i → r ≡ found i
  unfolding find_outcome
  found-inv (found j) i h = cc
  found-inv (no_documents e) i h = absurd cc
  found-inv (find_failed e) i h = absurd cc

  matched-inv : (r : UpdateResult) → update_outcome c r ≡ ok tt → (k : ℕ) × (r ≡ matched (suc k))
  unfolding update_outcome
  matched-inv (matched zero) h = absurd (ground (arith, h))
  matched-inv (matched (suc k)) h = (k, refl)
  matched-inv (update_failed e) h = absurd cc

  module _ (store : IsStore) where
    find_by_invoice_number-finds :
        (n : GoString) (env env' : E) (i : Invoice)
        → find_by_invoice_number c n env ≡ (ok i, env')
        → status_of env n ≡ some i.status
    unfolding find_by_invoice_number find
    find_by_invoice_number-finds n env env' i h =
        elim (Option-cases (validate (number_validator n))) [
          | inr (x, bad) ↦ absurd (ground (arith, h, bad))
          | inl checked ↦
              let (r, e) = c.find_one (number_filter n) env in
              let outcome : find_outcome c r ≡ ok i = ground (arith, h, checked) in
              store.finds n env e i (ap (λ r. (r, e)) (found-inv r i outcome))
        ]

    update_status-sets :
        (n status : GoString) (t : Time) (env env' : E)
        → update_status c n status t env ≡ (ok tt, env')
        → status_of env' n ≡ some status
    unfolding update_status
    update_status-sets n status t env env' h =
        elim (Option-cases (validate (update_validator n status t))) [
          | inr (x, bad) ↦ absurd (ground (arith, h, bad))
          | inl checked ↦ elim (Bool-cases (is_valid_invoice_status status)) [
            | inr bad ↦ absurd (ground (arith, h, checked, bad))
            | inl valid ↦
                let update =
                  c.update_one (number_filter n)
                    ((lit "status", text status) ∷ (lit "updated_at", time t) ∷ []) env in
                let outcome : update_outcome c update.0 ≡ ok tt =
                  ground (arith, h, checked, valid) in
                let same : update.1 ≡ env' = ground (arith, h, checked, valid) in
                let (k, r) = matched-inv update.0 outcome in
                ap (λ e. status_of e n) (sym same)
                ∙ store.sets n status t env update.1 k (ap (λ r. (r, update.1)) r)
          ]
        ]

module _ {E TS : Type 0} (s : PaymentMakingService E TS)
    (status_of : E → GoString → Option GoString) (c : Collection E Invoice) where
  -- The clock, the random sources and the timestamps leave the stored statuses alone.
  pub record IsSeparate : Type 0 where
    pub now : (env : E) → status_of (s.clock.now env).1 ≡ status_of env
    pub new_random : (env : E) → status_of (s.entropy.new_random env).1 ≡ status_of env
    pub read : (n : ℕ) (env : E) → status_of (s.entropy.read n env).1 ≡ status_of env
    pub rand_int : (env : E) → status_of (s.entropy.rand_int env).1 ≡ status_of env
    pub timestamp : (env : E) → status_of (s.timestamps.now env).1 ≡ status_of env

  -- The service with the repository of a collection.
  abbrev pub stored : PaymentMakingService E TS
  stored = record s { invoice_repo = invoice_repo_of c }

  -- The repository of invoices over a collection that does as MongoDB is documented to is a
  -- repository that keeps the statuses: what it finds by a number has the stored status, and what it
  -- has updated has the new one, though it checks its arguments and renames the errors; the other
  -- calls of the service must leave the statuses alone.
  pub invoice_repo_of-KeepsStatus : IsStore status_of c → IsSeparate → KeepsStatus stored status_of
  unfolding invoice_repo_of
  invoice_repo_of-KeepsStatus store separate = record {
    now = separate.now;
    new_random = separate.new_random;
    read = separate.read;
    rand_int = separate.rand_int;
    timestamp = separate.timestamp;
    found = find_by_invoice_number-finds status_of c store;
    updated = update_status-sets status_of c store;
  }
