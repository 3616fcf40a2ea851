-- ===== src/Base/Text/ContainsLaws.antt =====
-- `strip_prefix` and `contains` against concatenation.
use Prim.Native.Char.{Char, code}
use Prim.Native.String.{String}
use mathlib.Core.Path.{◌≡◌, refl, ap, sym, ◌∙◌}
use mathlib.Core.Logic.{◌↔◌, inl, inr}
use mathlib.Core.Bool.{true, false, false≢true}
use mathlib.Core.Option.{some}
use native.Mathlib.Omega.{arith}
use text.Mathlib.TextEquality.{Char-path}
use redis_backup_operator.Base.Tests.{nat_eq, Bool-cases, Option-cases}
use redis_backup_operator.Base.Text.{◌+++◌, strip_prefix, has_prefix, contains}

pub strip_prefix-append : (lit s : String) → strip_prefix lit (lit +++ s) ≡ some s
unfolding strip_prefix
strip_prefix-append String.[] s = refl
strip_prefix-append (String.◌∷◌ c lit) s = ground (arith, strip_prefix-append lit s)

pub strip_prefix-some : (lit s rest : String) → strip_prefix lit s ≡ some rest → s ≡ lit +++ rest
unfolding strip_prefix
strip_prefix-some String.[] s rest e = ground arith
strip_prefix-some (String.◌∷◌ c lit) String.[] rest e = ground arith
strip_prefix-some (String.◌∷◌ c lit) (String.◌∷◌ d s) rest e =
    elim (Bool-cases (nat_eq (code c) (code d))) [
      | inl same ↦
          ap (λ (x : Char). String.◌∷◌ x s) (Char-path d c (ground arith))
          ∙ ap (String.◌∷◌ c) (strip_prefix-some lit s rest (rw same at e))
      | inr other ↦ absurd (ground arith)
    ]

-- `sub` stands somewhere in `s`.
pub record Occurs (sub s : String) : Type 0 where
  pub before : String
  pub after : String
  pub splits : s ≡ before +++ sub +++ after

Occurs-cons : (c : Char) (s sub : String) → Occurs sub s → Occurs sub (String.◌∷◌ c s)
Occurs-cons c s sub o = record {
  before = String.◌∷◌ c o.before;
  after = o.after;
  splits = ap (String.◌∷◌ c) o.splits;
}

prefix-Occurs : (s sub : String) → has_prefix (strip_prefix sub s) ≡ true → Occurs sub s
prefix-Occurs s sub h = elim (Option-cases (strip_prefix sub s)) [
  | inl e ↦ absurd (ground arith)
  | inr (rest, e) ↦ record { before = ""; after = rest; splits = strip_prefix-some sub s rest e }
]

contains-Occurs : (s sub : String) → contains s sub ≡ true → Occurs sub s
unfolding contains
contains-Occurs String.[] sub h = prefix-Occurs "" sub h
contains-Occurs (String.◌∷◌ c s) sub h =
    elim (Bool-cases (has_prefix (strip_prefix sub (String.◌∷◌ c s)))) [
      | inl here ↦ prefix-Occurs (String.◌∷◌ c s) sub here
      | inr later ↦ Occurs-cons c s sub (contains-Occurs s sub (rw (later, contains) at h))
    ]

prefix_contains : (s sub after : String) → strip_prefix sub s ≡ some after → contains s sub ≡ true
unfolding contains
prefix_contains String.[] sub after e = ground arith
prefix_contains (String.◌∷◌ c s) sub after e = ground arith

contains-append : (before sub after : String) → contains (before +++ sub +++ after) sub ≡ true
unfolding contains
contains-append String.[] sub after =
    prefix_contains (sub +++ after) sub after (strip_prefix-append sub after)
contains-append (String.◌∷◌ c before) sub after = ground (arith, contains-append before sub after)

-- `strings.Contains` finds every occurrence, and nothing else.
pub contains_iff : (s sub : String) → (contains s sub ≡ true) ↔ Occurs sub s
contains_iff s sub = (
  contains-Occurs s sub,
  λ o. ap (λ t. contains t sub) o.splits ∙ contains-append o.before sub o.after,
)

pub not-contains_iff : (s sub : String) → (contains s sub ≡ false) ↔ (¬ Occurs sub s)
not-contains_iff s sub = (
  λ e o. false≢true (sym e ∙ (contains_iff s sub).1 o),
  λ h. elim (Bool-cases (contains s sub)) [
    | inl is ↦ absurd (h (contains-Occurs s sub is))
    | inr isnt ↦ isnt
  ],
)
