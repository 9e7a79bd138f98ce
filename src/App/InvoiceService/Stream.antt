-- ===== src/App/InvoiceService/Stream.antt =====
-- The deliveries of a channel, one after the other.
use mathlib.Core.List.{append_assoc, append-nil}
use kenshu_elaris_project_pa.Base.{
  ℕ, ◌≡◌, ◌≢◌, refl, sym, ap, ◌∙◌, false, inl, inr, List, [], ◌∷◌, ◌++◌, map, arith,
}
use kenshu_elaris_project_pa.Go.Call.{Outcome, ok, err, panicked, World, pure, catch, bind-eq-ok}
use kenshu_elaris_project_pa.Errors.{GoError}
use kenshu_elaris_project_pa.Port.{
  Event, added_invoice, updated_status, added_receipt, published, acked, nacked,
}
use kenshu_elaris_project_pa.App.Unmarshal.{Delivery}
use kenshu_elaris_project_pa.App.InvoiceService.{
  InvoiceService, process_invoice_delivery, process_deliveries,
}
use kenshu_elaris_project_pa.App.InvoiceService.Settlement.{
  settlements, Settled, process_invoice_delivery-Settled,
}

-- The tags of the deliveries answered.
abbrev pub tags : {TS : Type 0} → List (Event TS) → List ℕ
tags [] = []
tags (acked tag multiple ∷ t) = tag ∷ tags t
tags (nacked tag multiple requeue ∷ t) = tag ∷ tags t
tags (added_invoice i ∷ t) = tags t
tags (updated_status n st at ∷ t) = tags t
tags (added_receipt r ∷ t) = tags t
tags (published m k ∷ t) = tags t

abbrev pub answered : {TS : Type 0} → List (Event TS) → List ℕ
answered trace = tags (settlements trace)

tags-append : {TS : Type 0} (a b : List (Event TS)) → tags (a ++ b) ≡ tags a ++ tags b
tags-append [] b = refl
tags-append (added_invoice i ∷ a) b = tags-append a b
tags-append (e ∷ a) b = ground (arith, tags-append a b)

module _ {E TS : Type 0} (s : InvoiceService E TS) where
  Settled-answered :
      (d : Delivery) (before : List (Event TS))
      (p : Outcome GoError (Unit {0}) × World E (Event TS))
      → Settled s d before p
      → p.0 ≢ panicked
      → answered p.1.trace ≡ tags before ++ d.delivery_tag ∷ []
  Settled-answered d before (ok u, w) h e =
      ap tags h ∙ tags-append before (acked d.delivery_tag false ∷ [])
  Settled-answered d before (err x, w) (inl h) e =
      ap tags h ∙ tags-append before (acked d.delivery_tag false ∷ [])
  Settled-answered d before (err x, w) (inr (requeue, h)) e =
      ap tags h ∙ tags-append before (nacked d.delivery_tag false requeue ∷ [])
  Settled-answered d before (panicked, w) h e = absurd (e refl)

  catch-eq-ok :
      (p : Outcome GoError (Unit {0}) × World E (Event TS)) (w w' : World E (Event TS))
      {u : Unit {0}}
      → catch {Y = GoError} (λ v. p) (λ e. pure tt) w ≡ (ok u, w')
      → (p.0 ≢ panicked) × (p.1 ≡ w')
  catch-eq-ok (ok v, w₁) w w' h = (λ e. cc, ap (λ o. o.1) h)
  catch-eq-ok (err x, w₁) w w' h = (λ e. cc, ap (λ o. o.1) h)
  catch-eq-ok (panicked, w₁) w w' h = cc

  -- A loop over deliveries that ends with no panic has answered each of them exactly once, by an
  -- acknowledgement or a refusal, in the order in which they came.
  pub process_deliveries-answered :
      (ds : List Delivery) (w w' : World E (Event TS))
      → process_deliveries s ds w ≡ (ok tt, w')
      → answered w'.trace ≡ answered w.trace ++ map (λ d. d.delivery_tag) ds
  unfolding process_deliveries
  process_deliveries-answered [] w w' h = ap (λ o. answered o.1.trace) (sym h) ∙ sym (append-nil _)
  process_deliveries-answered (d ∷ ds) w w' h =
      let m = catch {Y = GoError} (process_invoice_delivery s d) (λ e. pure tt) in
      let (u, w₁, e, h₁) = bind-eq-ok m (λ u. process_deliveries s ds) w h in
      let (calm, same) = catch-eq-ok (process_invoice_delivery s d w) w w₁ e in
      let one =
        Settled-answered d (settlements w.trace) (process_invoice_delivery s d w)
          (process_invoice_delivery-Settled s d w) calm in
      process_deliveries-answered ds w₁ w' h₁
      ∙ ap (λ v. answered v.trace ++ map (λ d. d.delivery_tag) ds) (sym same)
      ∙ ap (λ t. t ++ map (λ d. d.delivery_tag) ds) one
      ∙ append_assoc (answered w.trace) _ _
