-- ===== src/Transport/Gateway/Reissue.antt =====
-- The HTTP handler of Reissue: that it changes nothing.
use kenshu_elaris_project_pa.Base.{◌≡◌, ap, ◌∙◌, inl, inr, Option-cases, Option, some, arith}
use kenshu_elaris_project_pa.Go.Time.{Time}
use kenshu_elaris_project_pa.Go.Call.{World, Outcome-cases, is_ok, is_err, is_panicked}
use kenshu_elaris_project_pa.Port.{Event}
use kenshu_elaris_project_pa.App.PaymentReissue.{PaymentReissueService, reissue}
use kenshu_elaris_project_pa.App.PaymentReissue.Laws.{reissue-trace}
use kenshu_elaris_project_pa.Transport.Gateway.{
  Request, PathParams, end_of_file, malformed, Runtime, decoded, reissue_procedure, reissue_path,
  request_reissue, reissue_route, reissue_server,
}
use kenshu_elaris_project_pa.Transport.Gateway.Handling.{annotated, handle-world}

module _ {E TS : Type 0} (runtime : Runtime E) (new_timestamp : Time → TS)
    (s : PaymentReissueService E) (req : Request) (params : PathParams) where
  reissue_server-trace :
      (r : Option _) (w : World E (Event TS))
      → (reissue_server new_timestamp s r w).1.trace ≡ w.trace
  reissue_server-trace r w = elim (Outcome-cases (reissue new_timestamp s r w).0) [
    | is_ok a e ↦ ground (arith, e, reissue-trace new_timestamp s r w)
    | is_err x e ↦ ground (arith, e, reissue-trace new_timestamp s r w)
    | is_panicked e ↦ ground (arith, e, reissue-trace new_timestamp s r w)
  ]

  request_reissue-trace :
      (w : World E (Event TS))
      → (request_reissue runtime (reissue_server new_timestamp s) req params w).1.trace ≡ w.trace
  unfolding request_reissue decoded
  request_reissue-trace w =
      let quiet = reissue_server-trace (some (runtime.decode_reissue req).0) w in
      elim (Option-cases (runtime.decode_reissue req).1) [
        | inl h ↦ ground (arith, h, quiet)
        | inr (end_of_file, h) ↦ ground (arith, h, quiet)
        | inr (malformed e, h) ↦ ground (arith, h)
      ]

  -- The HTTP handler of Reissue stores nothing and publishes nothing, whatever the request holds and
  -- however it ends.
  pub reissue_route-trace :
      (w : World E (Event TS))
      → ((reissue_route runtime (reissue_server new_timestamp s)).handler req params w).1.trace
        ≡ w.trace
  unfolding reissue_route
  reissue_route-trace w =
      elim (handle-world runtime reissue_procedure reissue_path
        (request_reissue runtime (reissue_server new_timestamp s)) req params w) [
          | inl e ↦ ap (λ v. v.trace) e
          | inr e ↦
              ap (λ v. v.trace) e
              ∙ request_reissue-trace (annotated runtime reissue_procedure reissue_path req w)
        ]
