-- ===== src/Base/Text/SplitLaws.antt =====
-- Split and Join: joining the pieces gives the text back, and no piece holds the separator.
use Prim.Native.Char.{Char, code}
use Prim.Native.String.{String}
use mathlib.Core.Path.{◌≡◌, refl, ◌∙◌, ap, ap₂}
use mathlib.Core.Logic.{◌≢◌, inl, inr}
use mathlib.Core.Bool.{Bool, true, not, ◌&&◌}
use mathlib.Core.List.{List, [], ◌∷◌}
use native.Mathlib.Omega.{arith}
use text.Mathlib.TextEquality.{Char-path}
use redis_backup_operator.Base.Tests.{nat_eq, Bool-cases}
use redis_backup_operator.Base.Lists.{All}
use redis_backup_operator.Base.Text.{◌+++◌, split, join, extend}

-- The text has no character `sep`.
abbrev pub Avoids : Char → String → Type 0
Avoids sep String.[] = Unit
Avoids sep (String.◌∷◌ c s) = (code c ≢ code sep) × Avoids sep s

join-extend :
    (c sep : Char) (ps : List String) → join (extend c ps) sep ≡ String.◌∷◌ c (join ps sep)
unfolding join
join-extend c sep [] = refl
join-extend c sep (p ∷ []) = refl
join-extend c sep (p ∷ q ∷ ps) = refl

extend-ne-nil : (c : Char) (ps : List String) → extend c ps ≢ []
extend-ne-nil c [] e = cc
extend-ne-nil c (p ∷ ps) e = cc

pub split-ne-nil : (s : String) (sep : Char) → split s sep ≢ []
unfolding split
split-ne-nil String.[] sep e = cc
split-ne-nil (String.◌∷◌ c s) sep e = elim (Bool-cases (nat_eq (code c) (code sep))) [
  | inl same ↦ ground arith
  | inr other ↦ extend-ne-nil c (split s sep) (ground arith)
]

join-nil-cons :
    (sep : Char) (ps : List String) → ps ≢ [] → join ("" ∷ ps) sep ≡ String.◌∷◌ sep (join ps sep)
unfolding join
join-nil-cons sep [] h = absurd (h refl)
join-nil-cons sep (p ∷ ps) h = refl

-- Nothing is lost: the pieces joined by the separator are the text.
pub join-split : (s : String) (sep : Char) → join (split s sep) sep ≡ s
unfolding split join
join-split String.[] sep = refl
join-split (String.◌∷◌ c s) sep = elim (Bool-cases (nat_eq (code c) (code sep))) [
  | inl same ↦ rw same (
      join-nil-cons sep (split s sep) (split-ne-nil s sep)
      ∙ ap₂ String.◌∷◌ (Char-path sep c (ground arith)) (join-split s sep))
  | inr other ↦ rw other (join-extend c sep (split s sep) ∙ ap (String.◌∷◌ c) (join-split s sep))
]

extend-Avoids :
    (c sep : Char) (ps : List String)
    → code c ≢ code sep
    → All (Avoids sep) ps
    → All (Avoids sep) (extend c ps)
extend-Avoids c sep [] h a = ((h, tt), tt)
extend-Avoids c sep (p ∷ ps) h a = ((h, a.0), a.1)

-- No piece holds the separator.
pub split-Avoids : (s : String) (sep : Char) → All (Avoids sep) (split s sep)
unfolding split
split-Avoids String.[] sep = (tt, tt)
split-Avoids (String.◌∷◌ c s) sep = elim (Bool-cases (nat_eq (code c) (code sep))) [
  | inl same ↦ rw same (tt, split-Avoids s sep)
  | inr other ↦ rw other (extend-Avoids c sep (split s sep) (ground arith) (split-Avoids s sep))
]

-- A piece without the separator is read back whole, whatever follows the separator.
pub split-piece :
    (p s : String) (sep : Char)
    → Avoids sep p
    → split (p +++ String.◌∷◌ sep s) sep ≡ p ∷ split s sep
unfolding split
split-piece String.[] s sep a = elim (Bool-cases (nat_eq (code sep) (code sep))) [
  | inl same ↦ rw same
  | inr other ↦ absurd (ground arith)
]
split-piece (String.◌∷◌ c p) s sep a = elim (Bool-cases (nat_eq (code c) (code sep))) [
  | inl same ↦ absurd (a.0 (ground arith))
  | inr other ↦ rw (other, split-piece p s sep a.1)
]

pub split_one : (p : String) (sep : Char) → Avoids sep p → split p sep ≡ p ∷ []
unfolding split
split_one String.[] sep a = refl
split_one (String.◌∷◌ c p) sep a = elim (Bool-cases (nat_eq (code c) (code sep))) [
  | inl same ↦ absurd (a.0 (ground arith))
  | inr other ↦ rw (other, split_one p sep a.1)
]

-- The other round trip: pieces without the separator come back from the joined text.
pub split-join :
    (p : String) (ps : List String) (sep : Char)
    → All (Avoids sep) (p ∷ ps)
    → split (join (p ∷ ps) sep) sep ≡ p ∷ ps
unfolding join
split-join p [] sep a = split_one p sep a.0
split-join p (q ∷ ps) sep a =
    split-piece p (join (q ∷ ps) sep) sep a.0 ∙ ap (λ r. p ∷ r) (split-join q ps sep a.1)

-- Whether the text has no character `sep`
abbrev pub avoids : Char → String → Bool
avoids sep String.[] = true
avoids sep (String.◌∷◌ c s) = not (nat_eq (code c) (code sep)) && avoids sep s

pub avoids-Avoids : (sep : Char) (s : String) → avoids sep s ≡ true → Avoids sep s
avoids-Avoids sep String.[] h = tt
avoids-Avoids sep (String.◌∷◌ c s) h = (ground arith, avoids-Avoids sep s (ground arith))
