-- ===== src/Tests/Gateway.antt =====
-- Requests over HTTP.
use kenshu_elaris_project_pa.Base.{
  ◌≡◌, ◌⊎◌, refl, true, false, none, some, List, [], ◌∷◌, ◌++◌, map,
}
use kenshu_elaris_project_pa.Go.Text.{GoString, lit, text_eq, is_blank, equal_fold, remove_byte}
use kenshu_elaris_project_pa.Go.Time.{Time}
use kenshu_elaris_project_pa.Go.Call.{ok}
use kenshu_elaris_project_pa.Document.Invoice.{status_paid}
use kenshu_elaris_project_pa.Port.{updated_status}
use kenshu_elaris_project_pa.Go.Time.{format_date}
use kenshu_elaris_project_pa.Validation.{validate, blank_error, zero_error}
use kenshu_elaris_project_pa.App.Util.{generate_human_friendly_id, suffix_from}
use kenshu_elaris_project_pa.App.Mapper.{build_payment_request}
use kenshu_elaris_project_pa.App.PaymentMaking.{
  Answer, pay_with_card, card_validator, build_response, last_four,
}
use kenshu_elaris_project_pa.Dto.PayWithCardRequest.{PayWithCardRequest}
use kenshu_elaris_project_pa.Dto.PaymentOption.{get_payment_url}
use kenshu_elaris_project_pa.Transport.Gateway.{
  Request, PathParams, Runtime, pay_route, reissue_route, payment, pay_server, reissue_server,
}
use kenshu_elaris_project_pa.Transport.Gateway.Link.{
  IsDocumented, path_of, replied, build_payment_request-pay_route,
}
use kenshu_elaris_project_pa.Transport.Gateway.Payment.{Names, pay_route-trace, pay_route-forwarded}
use kenshu_elaris_project_pa.Transport.Gateway.Reissue.{reissue_route-trace}
use kenshu_elaris_project_pa.Tests.Fixtures.{Env, start, bill, reissue_request}
use kenshu_elaris_project_pa.Tests.Fixtures
use kenshu_elaris_project_pa.Tests.Matching.{matched, matched-Captures}
use kenshu_elaris_project_pa.Tests.Services.{host, payments, reissues}
use kenshu_elaris_project_pa.Tests.Payments.{paid, after, becomes_paid}

-- Every body is the card of the payment, or the request to reissue.
abbrev runtime : Runtime Env
runtime = record {
  decode_card = λ req. (Fixtures.payment.card, none);
  decode_reissue = λ req. (reissue_request, none);
  string = λ val. ok val;
  annotate = λ procedure path req e. (ok tt, e);
}

abbrev posted : Request
posted = record { body = lit "{}" }

abbrev params_of : GoString → PathParams
params_of number name = elim (text_eq name (lit "invoice_number")) [
  | true ↦ some number
  | false ↦ none
]

abbrev invoice_params : PathParams
invoice_params = params_of (lit "INV-1")

pay_route-trace_example :
    (((pay_route runtime (pay_server (payments bill))).handler posted invoice_params start).1.trace
      ≡ [])
    ⊎ ((number : GoString) × (now : Time) × Names runtime invoice_params number
        × (((pay_route runtime (pay_server (payments bill))).handler posted invoice_params
              start).1.trace
            ≡ updated_status number status_paid now ∷ []))
pay_route-trace_example = pay_route-trace runtime (payments bill) posted invoice_params start

pay_route-forwarded_example :
    (a : Answer Time) × (message : PayWithCardRequest) × Names runtime invoice_params
      message.invoice_number
    × (message.card ≡ Fixtures.payment.card)
    × (payment paid ≡ payment a)
    × (pay_with_card (payments bill) (some message) start ≡ (ok a, after (becomes_paid ∷ [])))
unfolding pay_route text_eq lit pay_with_card validate card_validator blank_error is_blank
    zero_error equal_fold status_paid build_response last_four generate_human_friendly_id
    suffix_from remove_byte format_date
pay_route-forwarded_example =
    pay_route-forwarded runtime (payments bill) posted invoice_params start
      (after (becomes_paid ∷ [])) (payment paid) refl

reissue_route-trace_example :
    ((reissue_route runtime (reissue_server (λ t. t) reissues)).handler posted invoice_params
      start).1.trace
    ≡ []
reissue_route-trace_example =
    reissue_route-trace runtime (λ t. t) reissues posted invoice_params start

runtime-IsDocumented : IsDocumented runtime matched
runtime-IsDocumented = record {
  string_same = λ val. refl;
  matches = λ pattern segments name value plain. matched-Captures pattern segments name value;
}

build_payment_request-pay_route_example :
    (segments : List GoString) × (params : PathParams) × (map get_payment_url
        (build_payment_request (λ t. t) bill host).options
      ≡ (host ++ path_of segments) ∷ [])
    × (matched (pay_route runtime (pay_server (payments bill))).pattern segments ≡ some params)
    × ((pay_route runtime (pay_server (payments bill))).handler posted params start
        ≡ replied (
            pay_with_card
              (payments bill)
              (some (record { card = Fixtures.payment.card; invoice_number = lit "INV-1" }))
              start))
unfolding lit
build_payment_request-pay_route_example =
    build_payment_request-pay_route runtime matched runtime-IsDocumented (payments bill) (λ t. t)
      host bill posted Fixtures.payment.card start tt refl refl refl
