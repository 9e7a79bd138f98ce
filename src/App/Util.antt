-- ===== src/App/Util.antt =====
-- internal/app/util/util.go: human-friendly identifiers.
pub mod Laws
use kenshu_elaris_project_pa.Base.{
  ◌≡◌, arith, ℕ, zero, suc, ◌%◌, Option, none, some, List, [], ◌∷◌, ◌++◌, length, get_elem?, ◌==◌,
  if◌then◌else◌,
}
use kenshu_elaris_project_pa.Go.Text.{GoString, lit, remove_byte}
use kenshu_elaris_project_pa.Go.Time.{Time, format_date}
use kenshu_elaris_project_pa.Go.Call.{
  World, Outcome, ok, err, panicked, Call, ◌>>=◌, pure, query, of_outcome, map_err,
}
use kenshu_elaris_project_pa.Errors.{GoError, app_unexpected}
use kenshu_elaris_project_pa.Port.{Entropy}

abbrev pub invoice_number_suffix_length : ℕ
invoice_number_suffix_length = 6

-- `source[int(r) % len(source)]`; Go panics on an empty source.
unfoldable pub pick : GoString → ℕ → Option ℕ
pick source r = if length source == 0 then none else get_elem? source (r % length source)

-- The loop over the `rounds` bytes of the suffix; reading past `random` panics.
unfoldable pub suffix_from : ℕ → GoString → List ℕ → Outcome GoError GoString
unfolding pick
suffix_from zero source random = ok []
suffix_from (suc rounds) source [] = panicked
suffix_from (suc rounds) source (r ∷ random) = elim (pick source r) [
  | none ↦ panicked
  | some c ↦ elim (suffix_from rounds source random) [
    | ok rest ↦ ok (c ∷ rest)
    | err e ↦ err e
    | panicked ↦ panicked
  ]
]

-- GenerateHumanFriendlyId
unfoldable pub generate_human_friendly_id :
    {E T : Type 0} → Entropy E → GoString → Time → Call E T GoError GoString
generate_human_friendly_id entropy prefix now = do
  id ←
      map_err (app_unexpected (lit "unexpected error while generating uuid"))
        (query entropy.new_random)
  let source = remove_byte b'-' id
  random ←
      map_err (app_unexpected (lit "unexpected error while generating random"))
        (query (entropy.read invoice_number_suffix_length))
  suffix ← of_outcome (suffix_from invoice_number_suffix_length source random)
  pure (prefix ++ (lit "-" ++ (format_date now ++ (lit "-" ++ suffix))))

-- Making an identifier changes nothing that the trace records.
pub generate_human_friendly_id-trace :
    {E T : Type 0} (entropy : Entropy E) (prefix : GoString) (now : Time) (w : World E T)
    → (generate_human_friendly_id entropy prefix now w).1.trace ≡ w.trace
unfolding generate_human_friendly_id
generate_human_friendly_id-trace entropy prefix now w = ground arith
