-- ===== src/App/Util/Laws.antt =====
-- The identifiers that GenerateHumanFriendlyId makes, and that it makes one.
use native.Mathlib.Nat.{mod-lt}
use kenshu_elaris_project_pa.Base.{
  ℕ, zero, suc, ◌<◌, ◌≤◌, ◌%◌, ◌≡◌, refl, ap, some, List, [], ◌∷◌, ◌++◌, length, get_elem?, All,
  arith,
}
use kenshu_elaris_project_pa.Go.Text.{GoString, lit, remove_byte}
use kenshu_elaris_project_pa.Go.Time.{Time, format_date}
use kenshu_elaris_project_pa.Go.Call.{World, ok}
use kenshu_elaris_project_pa.Port.{Entropy}
use kenshu_elaris_project_pa.App.Util.{
  pick, suffix_from, generate_human_friendly_id, invoice_number_suffix_length,
}

-- A byte that stands in a text.
abbrev pub Occurs : GoString → ℕ → Type 0
Occurs source c = (i : ℕ) × (get_elem? source i ≡ some c)

get_elem?-some : (s : GoString) (i : ℕ) → i < length s → (c : ℕ) × (get_elem? s i ≡ some c)
get_elem?-some [] i h = absurd (omega arith)
get_elem?-some (x ∷ s) zero h = (x, refl)
get_elem?-some (x ∷ s) (suc i) h = get_elem?-some s i (omega arith)

pick-some :
    (source : GoString) (r : ℕ)
    → 0 < length source
    → (c : ℕ) × (pick source r ≡ some c) × Occurs source c
unfolding pick
pick-some source r h =
    let (c, e) = get_elem?-some source (r % length source) (mod-lt r h) in
    (c, ground arith, (r % length source, e))

-- The suffix of a run, given enough random bytes and a source.
pub suffix_from-ok :
    (rounds : ℕ) (source : GoString) (random : List ℕ)
    → 0 < length source
    → rounds ≤ length random
    → (suffix : GoString) × (suffix_from rounds source random ≡ ok suffix)
      × (length suffix ≡ rounds)
      × All (Occurs source) suffix
unfolding suffix_from
suffix_from-ok zero source random h enough = ([], refl, refl, tt)
suffix_from-ok (suc rounds) source [] h enough = absurd (omega arith)
suffix_from-ok (suc rounds) source (r ∷ random) h enough =
    let (c, e, found) = pick-some source r h in
    let (suffix, e', long, all) = suffix_from-ok rounds source random h (omega arith) in
    (c ∷ suffix, rw (e, e', suffix_from) refl, ap suc long, (found, all))

-- If a random UUID and enough random bytes can be had, and the UUID's text is more than dashes,
-- then an identifier is made, with no error and no panic: the prefix, the date of the time, and six
-- bytes that occur in the UUID's text without its dashes, joined by dashes.
pub generate_human_friendly_id-ok :
    {E T : Type 0} (entropy : Entropy E) (prefix : GoString) (now : Time) (w : World E T)
    {id : GoString} {random : GoString} {e₁ e₂ : E}
    → entropy.new_random w.env ≡ (ok id, e₁)
    → entropy.read invoice_number_suffix_length e₁ ≡ (ok random, e₂)
    → 0 < length (remove_byte b'-' id)
    → invoice_number_suffix_length ≤ length random
    → (suffix : GoString) × ((generate_human_friendly_id entropy prefix now w).0
        ≡ ok (prefix ++ (lit "-" ++ (format_date now ++ (lit "-" ++ suffix)))))
      × (length suffix ≡ invoice_number_suffix_length)
      × All (Occurs (remove_byte b'-' id)) suffix
unfolding generate_human_friendly_id
generate_human_friendly_id-ok entropy prefix now w {id} {random} drawn filled some_left enough =
    let (suffix, e, long, all) =
      suffix_from-ok invoice_number_suffix_length (remove_byte b'-' id) random some_left enough in
    (suffix, ground arith, long, all)
