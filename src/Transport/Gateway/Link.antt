-- ===== src/Transport/Gateway/Link.antt =====
-- The link that a payment request carries, and the route of the gateway.
use mathlib.Core.List.{append-nil}
use kenshu_elaris_project_pa.Base.{
  ℕ, map, ◌≡◌, refl, ap, sym, List, get_elem?, Bool, true, false, ◌&&◌, ◌||◌, ◌==◌, leb, Option,
  none, some, [], ◌∷◌, ◌++◌, arith,
}
use kenshu_elaris_project_pa.Go.Text.{GoString, lit}
use kenshu_elaris_project_pa.Go.Time.{Time}
use kenshu_elaris_project_pa.Go.Call.{
  Outcome, ok, err, panicked, World, Outcome-cases, is_ok, is_err, is_panicked,
}
use kenshu_elaris_project_pa.Document.Invoice.{Invoice}
use kenshu_elaris_project_pa.Port.{Event}
use kenshu_elaris_project_pa.App.Grpc.{Refusal}
use kenshu_elaris_project_pa.App.Mapper.{payment_url, build_payment_request}
use kenshu_elaris_project_pa.App.PaymentMaking.{PaymentMakingService, Answer, pay_with_card}
use kenshu_elaris_project_pa.Dto.Card.{Card}
use kenshu_elaris_project_pa.Dto.PaymentOption.{get_payment_url}
use kenshu_elaris_project_pa.Dto.PayWithCardRequest.{PayWithCardRequest}
use kenshu_elaris_project_pa.Transport.Gateway.{
  Request, PathParams, Pattern, Runtime, Reply, http_error, forwarded, decoded, path_param,
  pay_pattern, pay_procedure, pay_path, request_pay, handle, pay_route, Served, payment, pay_server,
}

-- A letter, a digit or a dash, which stands for itself in a path.
abbrev pub is_plain_byte : ℕ → Bool
is_plain_byte c =
    (leb b'a' c && leb c b'z')
    || ((leb b'A' c && leb c b'Z') || ((leb b'0' c && leb c b'9') || c == b'-'))

abbrev all_plain : GoString → Bool
all_plain [] = true
all_plain (c ∷ s) = is_plain_byte c && all_plain s

-- A text of such bytes, not empty: a segment of a path.
abbrev pub is_segment : GoString → Bool
is_segment [] = false
is_segment (c ∷ s) = all_plain (c ∷ s)

-- The components of a path that a pattern of literals matches: the operation LitPush (2) takes the
-- component that is the literal.
pub data Literals (pool : List GoString) : List ℕ → List GoString → Type 0 where
  no_more : Literals pool [] []
  next_literal :
      {i : ℕ} {text : GoString} {codes : List ℕ} {segments : List GoString}
      → get_elem? pool i ≡ some text
      → Literals pool codes segments
      → Literals pool (2 ∷ i ∷ codes) (text ∷ segments)

-- The components that a pattern with one variable for one component matches, with the name of the
-- variable and what it captures: literals, then Push (1), ConcatN (4) of one component and Capture
-- (5), then literals.
pub data Captures (pool : List GoString) (name value : GoString)
    : List ℕ → List GoString → Type 0 where
  literal :
      {i : ℕ} {text : GoString} {codes : List ℕ} {segments : List GoString}
      → get_elem? pool i ≡ some text
      → Captures pool name value codes segments
      → Captures pool name value (2 ∷ i ∷ codes) (text ∷ segments)
  variable :
      {j : ℕ} {codes : List ℕ} {segments : List GoString}
      → get_elem? pool j ≡ some name
      → Literals pool codes segments
      → Captures pool name value (1 ∷ 0 ∷ 4 ∷ 1 ∷ 5 ∷ j ∷ codes) (value ∷ segments)

-- The path of some components, which is split at its slashes for the match.
abbrev pub path_of : List GoString → GoString
path_of [] = []
path_of (segment ∷ segments) = b'/' ∷ (segment ++ path_of segments)

abbrev pub all_segments : List GoString → Bool
all_segments [] = true
all_segments (segment ∷ segments) = is_segment segment && all_segments segments

-- What the documentation of package runtime says: String returns its argument, and every pattern of
-- literals and one variable matches the components that its operations describe, where nothing is
-- escaped, and captures the variable.
pub record IsDocumented {E : Type 0} (runtime : Runtime E)
    (matched : Pattern → List GoString → Option PathParams) : Type 0 where
  pub string_same : (val : GoString) → runtime.string val ≡ ok val
  pub matches :
      (pattern : Pattern) (segments : List GoString) (name value : GoString)
      → all_segments segments ≡ true
      → Captures pattern.pool name value pattern.codes segments
      → (params : PathParams) × (matched pattern segments ≡ some params)
        × (params name ≡ some value)

-- The components of the page of an invoice.
abbrev pub page_of : GoString → List GoString
page_of number = lit "v1" ∷ lit "payments" ∷ lit "invoice" ∷ number ∷ []

pay_pattern-Captures :
    (number : GoString)
    → Captures pay_pattern.pool (lit "invoice_number") number pay_pattern.codes (page_of number)
pay_pattern-Captures number = literal refl (literal refl (literal refl (variable refl no_more)))

page_of-all_segments :
    (number : GoString) → is_segment number ≡ true → all_segments (page_of number) ≡ true
unfolding lit
page_of-all_segments number h = ground (arith, h)

path_of-page_of :
    (number : GoString) → path_of (page_of number) ≡ lit "/v1/payments/invoice/" ++ number
unfolding lit
path_of-page_of number = ap (λ s. lit "/v1/payments/invoice/" ++ s) (append-nil number)

module _ {E TS : Type 0} where
  -- What a handler replies, by what PayWithCard returns.
  abbrev pub replied :
      Outcome Refusal (Answer TS) × World E (Event TS)
      → Outcome ⊥ (Reply (Served TS)) × World E (Event TS)
  replied (ok a, w) = (ok (forwarded (payment a)), w)
  replied (err x, w) = (ok (http_error x), w)
  replied (panicked, w) = (panicked, w)

  module _ (runtime : Runtime E) (s : PaymentMakingService E TS) (req : Request)
      (params : PathParams) where
    handler-replied :
        (card : Option Card) (number : GoString) (w : World E (Event TS)) (e : E)
        → runtime.annotate pay_procedure pay_path req w.env ≡ (ok tt, e)
        → runtime.decode_card req ≡ (card, none)
        → params (lit "invoice_number") ≡ some number
        → runtime.string number ≡ ok number
        → (pay_route runtime (pay_server s)).handler req params w
          ≡ replied (
              pay_with_card s
                (some (record { card = card; invoice_number = number }))
                (record w { env = e }))
    unfolding pay_route handle request_pay decoded path_param
    handler-replied card number w e annotated read captured same =
        let message : PayWithCardRequest = record { card = card; invoice_number = number } in
        let w₁ : World E (Event TS) = record w { env = e } in
        elim (Outcome-cases (pay_with_card s (some message) w₁).0) [
          | is_ok a h ↦ ground (arith, annotated, read, captured, same, h)
          | is_err x h ↦ ground (arith, annotated, read, captured, same, h)
          | is_panicked h ↦ ground (arith, annotated, read, captured, same, h)
        ]

  module _ (runtime : Runtime E) (matched : Pattern → List GoString → Option PathParams)
      (documented : IsDocumented runtime matched) (s : PaymentMakingService E TS) where
    -- The link of a payment request leads back to its invoice: it is the host, followed by a path
    -- whose components the pattern of PayWithCard's route matches, and a request there, whose body
    -- is a card, is answered as PayWithCard answers for that card and the number of the invoice. The
    -- number is made of letters, digits and dashes, and the runtime matches patterns as it is
    -- documented to.
    pub build_payment_request-pay_route :
        (new_timestamp : Time → TS) (host : GoString) (invoice : Invoice) (req : Request)
        (card : Option Card) (w : World E (Event TS)) (e : E)
        → is_segment invoice.invoice_number ≡ true
        → runtime.annotate pay_procedure pay_path req w.env ≡ (ok tt, e)
        → runtime.decode_card req ≡ (card, none)
        → (segments : List GoString) × (params : PathParams) × (map get_payment_url
              (build_payment_request new_timestamp invoice host).options
            ≡ (host ++ path_of segments) ∷ [])
          × (matched (pay_route runtime (pay_server s)).pattern segments ≡ some params)
          × ((pay_route runtime (pay_server s)).handler req params w
              ≡ replied (
                  pay_with_card s
                    (some (record { card = card; invoice_number = invoice.invoice_number }))
                    (record w { env = e })))
    unfolding build_payment_request payment_url pay_route
    build_payment_request-pay_route new_timestamp host invoice req card w e plain annotated read =
        let number = invoice.invoice_number in
        let (params, matches, captured) =
          documented.matches pay_pattern (page_of number) (lit "invoice_number") number
            (page_of-all_segments number plain) (pay_pattern-Captures number) in
        (
          page_of number,
          params,
          ap (λ s. (host ++ s) ∷ []) (sym (path_of-page_of number)),
          matches,
          handler-replied runtime s req params card number w e annotated read captured
              (documented.string_same number),
        )
