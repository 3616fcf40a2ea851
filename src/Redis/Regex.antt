-- ===== src/Redis/Regex.antt =====
-- The regular expressions of redisclient.go: a literal followed by one captured run of characters
-- of a class, `literal([class]+)`, found at the leftmost place; and strconv.Atoi on the digits.
pub mod Laws
use redis_backup_operator.Base.{
  ℕ, suc, ◌+◌, ◌-◌, ◌*◌, ◌%◌, ◌^◌, Char, code, String, ◌==◌, Bool, true, false, ◌&&◌, ◌||◌, Option,
  none, some, ℤ, pos, negsuc, nat_eq, leb, ltb, if◌then◌else◌,
}
use redis_backup_operator.Base.Text.{strip_prefix}

-- The longest run of characters of the class at the beginning.
unfoldable pub take_class : (ℕ → Bool) → String → String
take_class cls String.[] = ""
take_class cls (String.◌∷◌ c s) = if cls (code c) then String.◌∷◌ c (take_class cls s) else ""

abbrev pub non_empty : String → Option String
non_empty String.[] = none
non_empty (String.◌∷◌ c s) = some (String.◌∷◌ c s)

-- The captured group of a match at the beginning of the text.
unfoldable pub match_here : String → (ℕ → Bool) → String → Option String
unfolding strip_prefix take_class
match_here lit cls s = elim (strip_prefix lit s) [
  | none ↦ none
  | some rest ↦ non_empty (take_class cls rest)
]

-- `FindStringSubmatch(s)[1]`, and `none` where there is no match.
unfoldable pub find_submatch : String → (ℕ → Bool) → String → Option String
unfolding match_here
find_submatch lit cls String.[] = match_here lit cls ""
find_submatch lit cls (String.◌∷◌ c s) = elim (match_here lit cls (String.◌∷◌ c s)) [
  | some group ↦ some group
  | none ↦ find_submatch lit cls s
]

abbrev pub is_digit : ℕ → Bool
is_digit c = leb b'0' c && leb c b'9'

abbrev pub is_lower : ℕ → Bool
is_lower c = leb b'a' c && leb c b'z'

abbrev pub is_digit_or_dot : ℕ → Bool
is_digit_or_dot c = is_digit c || nat_eq c b'.'

-- The value of a run of digits after `acc`.
unfoldable pub decimal : ℕ → String → ℕ
decimal acc String.[] = acc
decimal acc (String.◌∷◌ c s) = decimal (acc * 10 + (code c - b'0')) s

-- `strconv.Atoi` on the digits that the expressions capture: out of range from 2^63 on.
unfoldable pub atoi : String → Option ℕ
unfolding decimal
atoi s = if ltb (decimal 0 s) (2 ^ 63) then some (decimal 0 s) else none

-- `int32(n)` of a non-negative int
unfoldable pub to_int32 : ℕ → ℤ
to_int32 n =
    if ltb (n % 2 ^ 32) (2 ^ 31) then pos (n % 2 ^ 32) else negsuc (2 ^ 32 - 1 - n % 2 ^ 32)
