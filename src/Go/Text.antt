-- ===== src/Go/Text.antt =====
-- The functions of Go's package strings that the program calls, on byte strings.
pub mod Laws
use Prim.Native.Char.{code}
use Prim.Native.String.{String}
use kenshu_elaris_project_pa.Base.{
  ℕ, zero, suc, ◌+◌, ◌-◌, ◌/◌, ◌%◌, Bool, true, false, ◌&&◌, ◌||◌, List, [], ◌∷◌, ◌++◌, reverse,
  leb, ltb, ◌==◌, if◌then◌else◌,
}

-- A Go string is a sequence of bytes.
abbrev pub GoString : Type 0
GoString = List ℕ

-- A literal of the source, all of which are ASCII.
unfoldable pub lit : String → GoString
lit String.[] = []
lit (String.◌∷◌ c s) = code c ∷ lit s

unfoldable pub text_eq : GoString → GoString → Bool
text_eq [] [] = true
text_eq [] (b ∷ t) = false
text_eq (a ∷ s) [] = false
text_eq (a ∷ s) (b ∷ t) = a == b && text_eq s t

-- White space as unicode.IsSpace has it, by the bytes of its UTF-8 encodings.
space_one : ℕ → Bool
space_one a = (leb 9 a && leb a 13) || a == 32

space_two : ℕ → ℕ → Bool
space_two a b = a == 0xC2 && (b == 0x85 || b == 0xA0)

space_three : ℕ → ℕ → ℕ → Bool
space_three a b c =
    (a == 0xE1 && (b == 0x9A && c == 0x80))
    || ((a == 0xE2
          && (b == 0x80 && ((leb 0x80 c && leb c 0x8A) || (c == 0xA8 || (c == 0xA9 || c == 0xAF)))))
        || ((a == 0xE2 && (b == 0x81 && c == 0x9F)) || (a == 0xE3 && (b == 0x80 && c == 0x80))))

-- Drops the white space at the front, given the tests for encodings of two and three bytes.
module _ (two : ℕ → ℕ → Bool) (three : ℕ → ℕ → ℕ → Bool) where
  strip : GoString → GoString
  strip [] = []
  strip (a ∷ []) = if space_one a then [] else a ∷ []
  strip (a ∷ b ∷ []) =
      let rest = strip (b ∷ []) in if space_one a then rest else if two a b then [] else a ∷ b ∷ []
  strip (a ∷ b ∷ c ∷ s) =
      let rest1 = strip (b ∷ c ∷ s) in
      let rest2 = strip (c ∷ s) in
      let rest3 = strip s in
      if space_one a
      then rest1
      else if two a b
      then rest2
      else if three a b c
      then rest3
      else a ∷ b ∷ c ∷ s

-- strings.TrimSpace
unfoldable pub trim_space : GoString → GoString
unfolding strip space_one space_two space_three
trim_space s = reverse (
    strip (λ a b. space_two b a) (λ a b c. space_three c b a)
      (reverse (strip space_two space_three s)))

-- The test `strings.TrimSpace(value) == ""`.
unfoldable pub is_blank : GoString → Bool
unfolding trim_space text_eq
is_blank s = text_eq (trim_space s) []

unfoldable pub lower_byte : ℕ → ℕ
lower_byte c = if leb b'A' c && leb c b'Z' then c + 32 else c

-- strings.EqualFold(s, t) for a `t` of ASCII letters other than k and s, to which no character
-- beyond ASCII folds.
unfoldable pub equal_fold : GoString → GoString → Bool
unfolding lower_byte
equal_fold [] [] = true
equal_fold [] (b ∷ t) = false
equal_fold (a ∷ s) [] = false
equal_fold (a ∷ s) (b ∷ t) = lower_byte a == lower_byte b && equal_fold s t

-- strings.ToLower, as far as the result is compared with ASCII texts: the two characters beyond
-- ASCII with a lower case within it are U+0130 and U+212A; any other stays beyond ASCII.
unfoldable pub to_lower : GoString → GoString
unfolding lower_byte
to_lower [] = []
to_lower (a ∷ []) = lower_byte a ∷ []
to_lower (a ∷ b ∷ []) =
    if a == 0xC4 && b == 0xB0 then b'i' ∷ [] else lower_byte a ∷ lower_byte b ∷ []
to_lower (a ∷ b ∷ c ∷ s) =
    let rest1 = to_lower (b ∷ c ∷ s) in
    let rest2 = to_lower (c ∷ s) in
    let rest3 = to_lower s in
    if a == 0xC4 && b == 0xB0
    then b'i' ∷ rest2
    else if a == 0xE2 && (b == 0x84 && c == 0xAA)
    then b'k' ∷ rest3
    else lower_byte a ∷ rest1

-- strings.ReplaceAll(s, old, "") for an `old` of one byte.
unfoldable pub remove_byte : ℕ → GoString → GoString
remove_byte x [] = []
remove_byte x (c ∷ s) = if c == x then remove_byte x s else c ∷ remove_byte x s

-- The decimal digits that fmt prints for %d: `fuel` digits at most.
digits_from : ℕ → ℕ → GoString → GoString
digits_from zero n out = out
digits_from (suc fuel) n out =
    let rest = digits_from fuel (n / 10) ((b'0' + n % 10) ∷ out) in
    if ltb n 10 then (b'0' + n) ∷ out else rest

unfoldable pub show_nat : ℕ → GoString
unfolding digits_from
show_nat n = digits_from (suc n) n []
