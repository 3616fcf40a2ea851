-- ===== src/Clone/Info.antt =====
-- Reading the replication section: the fields of well-formed lines come back, the last write of a
-- key wins.
use mathlib.Core.Option
use redis_backup_operator.Base.{
  Char, String, ◌==◌, ◌≡◌, refl, ap, ◌∙◌, Bool, true, false, Option, none, some, List, [], ◌∷◌,
  ◌++◌, map, All-append, arith, All, if◌then◌else◌,
}
use redis_backup_operator.Base.Text.{◌+++◌, Dict, lookup, insert, get, join}
use redis_backup_operator.Base.Text.SplitLaws.{Avoids, split-join, split-piece, split_one}
use redis_backup_operator.Types.Clone.{CloneCondition}
use redis_backup_operator.Clone.{
  read_line, read_lines, replication_info, with_replication, read_parts,
}

abbrev pub Field : Type 0
Field = String × String

abbrev pub line_of : Field → String
line_of (key, value) = key +++ String.◌∷◌ ":" value

-- A field that can be printed: no colon and no line feed in the key or the value.
abbrev pub IsPrintable : Field → Type 0
IsPrintable (key, value) = Avoids ":" key × Avoids ":" value × Avoids "\n" key × Avoids "\n" value

-- The value of the last field with the key, or what stood there before
abbrev pub last_value : String → List Field → Option String → Option String
last_value k [] before = before
last_value k ((key, value) ∷ fields) before =
    last_value k fields (if key == k then some value else before)

-- The section that a server prints: a line for each field, after a heading without a colon.
abbrev pub print_section : String → List Field → String
print_section heading fields = join (heading ∷ map line_of fields) "\n"

read_line-field :
    (f : Field) (info : Dict String)
    → IsPrintable f
    → read_line (line_of f) info ≡ insert f.0 f.1 info
unfolding read_line
read_line-field (key, value) info p =
    ap (λ parts. read_parts parts info)
      (split-piece key value ":" p.0 ∙ ap (λ r. key ∷ r) (split_one value ":" p.1))

read_line-heading :
    (line : String) (info : Dict String) → Avoids ":" line → read_line line info ≡ info
unfolding read_line
read_line-heading line info a = ap (λ parts. read_parts parts info) (split_one line ":" a)

read_lines-fields :
    (k : String) (fields : List Field) (info : Dict String)
    → All IsPrintable fields
    → lookup k (read_lines (map line_of fields) info) ≡ last_value k fields (lookup k info)
unfolding read_lines lookup insert
read_lines-fields k [] info p = refl
read_lines-fields k (f ∷ fields) info p =
    ap (λ i. lookup k (read_lines (map line_of fields) i)) (read_line-field f info p.0)
    ∙ read_lines-fields k fields (insert f.0 f.1 info) p.1

append-Avoids : (c : Char) (s t : String) → Avoids c s → Avoids c t → Avoids c (s +++ t)
append-Avoids c String.[] t a b = b
append-Avoids c (String.◌∷◌ d s) t a b = (a.0, append-Avoids c s t a.1 b)

lines-Avoids :
    (fields : List Field) → All IsPrintable fields → All (Avoids "\n") (map line_of fields)
lines-Avoids [] p = tt
lines-Avoids ((key, value) ∷ fields) (f, p) =
    (append-Avoids "\n" key (String.◌∷◌ ":" value) f.2 (omega arith, f.3), lines-Avoids fields p)

-- The map that is read from a printed section, of fields and a heading that can be printed, holds
-- at each key the value of the last field with that key, and nothing else.
replication_info-print_section :
    (heading : String) (fields : List Field) (k : String)
    → Avoids ":" heading
    → Avoids "\n" heading
    → All IsPrintable fields
    → lookup k (replication_info (print_section heading fields)) ≡ last_value k fields none
unfolding replication_info read_lines lookup
replication_info-print_section heading fields k a b p =
    ap (λ lines. lookup k (read_lines lines []))
      (split-join heading (map line_of fields) "\n" (b, lines-Avoids fields p))
    ∙ ap (λ i. lookup k (read_lines (map line_of fields) i)) (read_line-heading heading [] a)
    ∙ read_lines-fields k fields [] p

get_found : (k : String) (info : Dict String) {v : String} → lookup k info ≡ some v → get k info ≡ v
get_found k info e = ap (λ o. elim o [ none ↦ "" | some v ↦ v ]) e

-- From a printed section that has the three fields, the status takes the last value of each, and
-- keeps its other fields.
pub with_replication-print_section :
    (c : CloneCondition) (heading : String) (fields : List Field) {offset lag link : String}
    → Avoids ":" heading
    → Avoids "\n" heading
    → All IsPrintable fields
    → last_value "slave_repl_offset" fields none ≡ some offset
    → last_value "master_last_io_seconds_ago" fields none ≡ some lag
    → last_value "master_link_status" fields none ≡ some link
    → with_replication c (print_section heading fields)
      ≡ record c { off_set = offset; clone_lag = lag; clone_status = link }
unfolding with_replication
with_replication-print_section c heading fields a b p eo el es =
    let at = λ (k : String). replication_info-print_section heading fields k a b p in
    λ i. record c {
      off_set = get_found "slave_repl_offset" _ (at "slave_repl_offset" ∙ eo) i;
      clone_lag = get_found "master_last_io_seconds_ago" _ (at "master_last_io_seconds_ago" ∙ el) i;
      clone_status = get_found "master_link_status" _ (at "master_link_status" ∙ es) i;
    }

-- A field of a line that ends in a carriage return and a line feed
abbrev pub ends_crlf : Field → Field
ends_crlf (key, value) = (key, value +++ "\r")

choice-crlf :
    (b : Bool) (v : String) (before : Option String)
    → (if b then some (v +++ "\r") else Option.map (λ s. s +++ "\r") before)
      ≡ Option.map (λ s. s +++ "\r") (if b then some v else before)
choice-crlf true v before = refl
choice-crlf false v before = refl

last_value-crlf :
    (k : String) (fields : List Field) (before : Option String)
    → last_value k (map ends_crlf fields) (Option.map (λ v. v +++ "\r") before)
      ≡ Option.map (λ v. v +++ "\r") (last_value k fields before)
last_value-crlf k [] before = refl
last_value-crlf k ((key, value) ∷ fields) before =
    ap (last_value k (map ends_crlf fields)) (choice-crlf (key == k) value before)
    ∙ last_value-crlf k fields (if key == k then some value else before)

crlf-IsPrintable :
    (fields : List Field) → All IsPrintable fields → All IsPrintable (map ends_crlf fields)
crlf-IsPrintable [] p = tt
crlf-IsPrintable ((key, value) ∷ fields) (f, p) = (
  (
    f.0,
    append-Avoids ":" value "\r" f.1 (omega arith, tt),
    f.2,
    append-Avoids "\n" value "\r" f.3 (omega arith, tt),
  ),
  crlf-IsPrintable fields p,
)

-- Where the lines of a printed section end in a carriage return and a line feed, as the INFO
-- command prints them, the link status that is stored ends in a carriage return.
pub with_replication-crlf :
    (c : CloneCondition) (heading : String) (fields : List Field) {link : String}
    → Avoids ":" heading
    → Avoids "\n" heading
    → All IsPrintable fields
    → last_value "master_link_status" fields none ≡ some link
    → (with_replication c (print_section heading (map ends_crlf fields))).clone_status
      ≡ link +++ "\r"
unfolding with_replication
with_replication-crlf c heading fields a b p e = get_found "master_link_status" _ (
    replication_info-print_section heading (map ends_crlf fields) "master_link_status" a b
      (crlf-IsPrintable fields p)
    ∙ last_value-crlf "master_link_status" fields none
    ∙ ap (Option.map (λ v. v +++ "\r")) e)

-- The answer of the INFO command: every line, the heading and the last one too, ends in a carriage
-- return and a line feed.
abbrev pub print_reply : String → List Field → String
print_reply heading fields =
    join ((heading +++ "\r") ∷ (map line_of (map ends_crlf fields) ++ "" ∷ [])) "\n"

read_lines-blank :
    (lines : List String) (info : Dict String)
    → read_lines (lines ++ "" ∷ []) info ≡ read_lines lines info
unfolding read_lines
read_lines-blank [] info = read_line-heading "" info tt
read_lines-blank (line ∷ lines) info = read_lines-blank lines (read_line line info)

replication_info-print_reply :
    (heading : String) (fields : List Field) (k : String)
    → Avoids ":" heading
    → Avoids "\n" heading
    → All IsPrintable fields
    → lookup k (replication_info (print_reply heading fields))
      ≡ last_value k (map ends_crlf fields) none
unfolding replication_info read_lines lookup
replication_info-print_reply heading fields k a b p =
    let lines = map line_of (map ends_crlf fields) in
    let printable = crlf-IsPrintable fields p in
    ap (λ ls. lookup k (read_lines ls []))
      (split-join (heading +++ "\r") (lines ++ "" ∷ []) "\n" (
        append-Avoids "\n" heading "\r" b (omega arith, tt),
        All-append (Avoids "\n") lines ("" ∷ []) (lines-Avoids (map ends_crlf fields) printable)
            (tt, tt),
      ))
    ∙ ap (λ i. lookup k (read_lines (lines ++ "" ∷ []) i))
        (read_line-heading (heading +++ "\r") []
          (append-Avoids ":" heading "\r" a (omega arith, tt)))
    ∙ ap (lookup k) (read_lines-blank lines [])
    ∙ read_lines-fields k (map ends_crlf fields) [] printable

-- The link status that is read from the answer of the INFO command ends in a carriage return.
pub get-print_reply :
    (heading : String) (fields : List Field) {link : String}
    → Avoids ":" heading
    → Avoids "\n" heading
    → All IsPrintable fields
    → last_value "master_link_status" fields none ≡ some link
    → get "master_link_status" (replication_info (print_reply heading fields)) ≡ link +++ "\r"
get-print_reply heading fields a b p e = get_found "master_link_status" _ (
    replication_info-print_reply heading fields "master_link_status" a b p
    ∙ last_value-crlf "master_link_status" fields none
    ∙ ap (Option.map (λ v. v +++ "\r")) e)
