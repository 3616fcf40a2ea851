-- ===== src/Base/Text.antt =====
-- Go's `strings` package as far as the program uses it: Contains, Split and Join with a separator
-- of one character, and maps from strings to strings as association lists.
pub mod SplitLaws
pub mod ContainsLaws
use Prim.Native.Char.{Char, code}
use Prim.Native.String
use Prim.Native.String.{String}
use mathlib.Core.Bool.{Bool, true, false, ◌||◌}
use mathlib.Core.Option.{Option, none, some}
use mathlib.Core.List.{List, [], ◌∷◌}
use text.Mathlib.Text.{◌==◌}
use redis_backup_operator.Base.Tests.{nat_eq, if◌then◌else◌}

-- `s + t` on strings, by the characters of `s`.
infixr 65 ◌+++◌
abbrev pub ◌+++◌ : String → String → String
String.[] +++ t = t
(String.◌∷◌ c s) +++ t = String.◌∷◌ c (s +++ t)

-- The rest of the text after a prefix that it begins with.
unfoldable pub strip_prefix : String → String → Option String
strip_prefix String.[] s = some s
strip_prefix (String.◌∷◌ c lit) String.[] = none
strip_prefix (String.◌∷◌ c lit) (String.◌∷◌ d s) =
    if nat_eq (code c) (code d) then strip_prefix lit s else none

-- `strings.HasPrefix(s, prefix)`, from what is left behind it
abbrev pub has_prefix : Option String → Bool
has_prefix none = false
has_prefix (some _) = true

-- `strings.Contains(s, sub)`
unfoldable pub contains : String → String → Bool
unfolding strip_prefix
contains String.[] sub = has_prefix (strip_prefix sub "")
contains (String.◌∷◌ c s) sub = has_prefix (strip_prefix sub (String.◌∷◌ c s)) || contains s sub

-- The piece being read, put before the pieces of the rest.
abbrev extend : Char → List String → List String
extend c [] = String.◌∷◌ c "" ∷ []
extend c (piece ∷ pieces) = String.◌∷◌ c piece ∷ pieces

-- `strings.Split(s, sep)` for a separator of one character.
unfoldable pub split : String → Char → List String
split String.[] sep = "" ∷ []
split (String.◌∷◌ c s) sep =
    if nat_eq (code c) (code sep) then "" ∷ split s sep else extend c (split s sep)

-- `strings.Join(pieces, sep)`
unfoldable pub join : List String → Char → String
join [] sep = ""
join (piece ∷ []) sep = piece
join (piece ∷ next ∷ pieces) sep = piece +++ String.◌∷◌ sep (join (next ∷ pieces) sep)

-- A `map[string]V`, the newest write in front.
abbrev pub Dict {ℓ} : Type ℓ → Type ℓ
Dict V = List (String × V)

module _ {ℓ} {V : Type ℓ} where
  -- `m[key]` with its presence flag
  unfoldable pub lookup : String → Dict V → Option V
  lookup key [] = none
  lookup key ((other, value) ∷ older) = if other == key then some value else lookup key older

  -- `m[key] = value`
  unfoldable pub insert : String → V → Dict V → Dict V
  insert key value written = (key, value) ∷ written

-- `m[key]` on a map of strings: a missing key reads as "".
abbrev pub get : String → Dict String → String
get k m = elim (lookup k m) [ none ↦ "" | some v ↦ v ]
