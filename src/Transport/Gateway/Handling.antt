-- ===== src/Transport/Gateway/Handling.antt =====
-- What the handlers of both services have in common.
use kenshu_elaris_project_pa.Base.{◌≡◌, ◌⊎◌, inl, inr, ap, ◌∙◌, arith}
use kenshu_elaris_project_pa.Go.Text.{GoString}
use kenshu_elaris_project_pa.Go.Call.{
  Outcome, Call, ok, err, panicked, World, ◌>>=◌, ◌>>◌, pure, query, bind-ok, bind-eq-ok, catch,
  of_outcome, bind-pure_world, catch-pure_world, Outcome-cases, is_ok, is_err, is_panicked,
}
use kenshu_elaris_project_pa.App.Grpc.{Refusal}
use kenshu_elaris_project_pa.Transport.Gateway.{
  Request, PathParams, Runtime, Reply, http_error, forwarded, handle,
}

-- The state after the annotation of the context.
abbrev pub annotated :
    {E T : Type 0} → Runtime E → GoString → GoString → Request → World E T → World E T
annotated runtime procedure path req w = record w {
  env = (runtime.annotate procedure path req w.env).1;
}

module _ {E T A : Type 0} (runtime : Runtime E) (procedure path : GoString)
    (request : Request → PathParams → Call E T Refusal A) (req : Request)
    (params : PathParams) where
  -- A handler leaves what the request leaves, if it comes to the request.
  pub handle-world :
      (w : World E T)
      → ((handle runtime procedure path request req params w).1
          ≡ annotated runtime procedure path req w)
        ⊎ ((handle runtime procedure path request req params w).1
            ≡ (request req params (annotated runtime procedure path req w)).1)
  unfolding handle
  handle-world w =
      let inner : Call E T Refusal (Reply A) =
        query (runtime.annotate procedure path req)
        >> (request req params >>= λ msg. pure (forwarded msg)) in
      let outer = catch-pure_world ⊥ inner http_error w in
      elim (Outcome-cases (runtime.annotate procedure path req w.env).0) [
        | is_err x e ↦ inl (ground (arith, e))
        | is_panicked e ↦ inl (ground (arith, e))
        | is_ok u e ↦ inr (
            outer
            ∙ ap (λ p. p.1)
                (bind-ok (query (runtime.annotate procedure path req))
                  (λ (u : Unit {0}). request req params >>= λ msg. pure (forwarded msg)) w
                  (ap (λ o. (o, annotated runtime procedure path req w)) e))
            ∙ bind-pure_world (request req params) forwarded
                (annotated runtime procedure path req w))
      ]

  -- A reply with a message is the message that the request has been answered with.
  caught-forwarded :
      (o : Outcome Refusal (Reply A)) (v w' : World E T) (m : A)
      → catch {Y = ⊥} (of_outcome o) (λ x. pure (http_error x)) v ≡ (ok (forwarded m), w')
      → ◌≡◌ {A = Outcome Refusal (Reply A) × World E T} (o, v) (ok (forwarded m), w')
  caught-forwarded (ok r) v w' m h = cc
  caught-forwarded (err x) v w' m h = absurd cc
  caught-forwarded panicked v w' m h = absurd cc

  pub handle-forwarded :
      (w w' : World E T) (m : A)
      → handle runtime procedure path request req params w ≡ (ok (forwarded m), w')
      → request req params (annotated runtime procedure path req w) ≡ (ok m, w')
  unfolding handle
  handle-forwarded w w' m h =
      let inner : Call E T Refusal (Reply A) =
        query (runtime.annotate procedure path req)
        >> (request req params >>= λ msg. pure (forwarded msg)) in
      let answered = caught-forwarded (inner w).0 (inner w).1 w' m h in
      let (u, w₁, e, run) =
        bind-eq-ok (query (runtime.annotate procedure path req))
          (λ (u : Unit {0}). request req params >>= λ msg. pure (forwarded msg)) w answered in
      let (m', w₂, e₂, last) =
        bind-eq-ok (request req params) (λ msg. pure (forwarded msg)) w₁ run in
      let same : ◌≡◌ {A = Outcome Refusal A × World E T} (ok m', w₂) (ok m, w') = cc last in
      ap (λ p. request req params p.1) e ∙ e₂ ∙ same
