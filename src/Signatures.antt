-- ===== src/Signatures.antt =====
-- The signature database (aegorx/signatures/db.py): the table `hash_signatures` and its operations.
--
-- A table is the list of its rows in insertion order. SQLite itself is not modelled beyond what
-- the statements rely on: the primary key on `sha256` makes INSERT OR IGNORE add nothing for a key
-- that is there, and a SELECT returns the first row that fits. Texts are normalised by
-- `str.lower().strip()`, which is the parameter `normalize`; `strip` for names is `trim`.
pub mod Laws
mod Tests
use aegor_x.Prelude.{
  ℕ, zero, suc, ◌+◌, String, ◌≡◌, refl, Bool, true, false, ite, Option, none, some, List, [], ◌∷◌,
  ◌++◌, min, max, ◌≐◌, is_some, if◌then◌else◌, String_discrete, ◌||◌, length,
}

pub record Row : Type 0 where
  pub sha256 : String
  pub md5 : String
  pub sha1 : String
  pub name : String
  pub family : String
  pub severity : ℕ
  pub source : String
  pub added_at : ℕ

-- `lower().strip()` of the digests and `strip()` of the names, by Python's own library.
pub record Text : Type 0 where
  pub normalize : String → String
  pub trim : String → String

-- max(0, min(10, int(severity))), of a severity that is no negative number
abbrev pub clamp_severity : ℕ → ℕ
clamp_severity n = max 0 (min 10 n)

-- SELECT * FROM hash_signatures WHERE <column> = ?, first row
unfoldable pub find : (Row → String) → String → List Row → Option Row
find column key [] = none
find column key (r ∷ rows) = ite (String_discrete (column r) key) (some r) (find column key rows)

-- INSERT OR IGNORE; the number is `cur.rowcount`.
unfoldable pub insert_or_ignore : Row → List Row → List Row × ℕ
insert_or_ignore r rows =
    if is_some (find (λ x. x.sha256) r.sha256 rows) then (rows, 0) else (rows ++ r ∷ [], 1)

-- The row that `add` writes.
abbrev pub stored : Text → ℕ → Row → Row
stored t now r = record {
  sha256 = t.normalize r.sha256;
  md5 = t.normalize r.md5;
  sha1 = t.normalize r.sha1;
  name = t.trim r.name;
  family = t.trim r.family;
  severity = clamp_severity r.severity;
  source = r.source;
  added_at = now;
}

unfoldable pub add : Text → ℕ → Row → List Row → List Row × ℕ
unfolding insert_or_ignore
add t now r rows = insert_or_ignore (stored t now r) rows

-- `row is None and digest`: the next column is asked only for a digest that is not empty.
abbrev or_find : Option Row → (Row → String) → String → List Row → Option Row
or_find (some r) column key rows = some r
or_find none column key rows = if key ≐ "" then none else find column key rows

unfoldable pub lookup : String → String → String → List Row → Option Row
lookup sha256 md5 sha1 rows =
    or_find (or_find (or_find none (λ x. x.sha256) sha256 rows) (λ x. x.md5) md5 rows) (λ x. x.sha1)
      sha1 rows

-- A record of an imported document: a field that is missing is `none`.
pub record Record : Type 0 where
  pub sha256 : Option String
  pub name : Option String
  pub md5 : String
  pub sha1 : String
  pub family : String
  pub severity : ℕ

-- `rec.get("sha256")` is true of a text that is there and not empty.
unfoldable pub present : Option String → Option String
present none = none
present (some s) = if s ≐ "" then none else some s

abbrev pub row_of : String → Record → String → String → Row
row_of source rec sha256 name = record {
  sha256 = sha256;
  md5 = rec.md5;
  sha1 = rec.sha1;
  name = name;
  family = rec.family;
  severity = rec.severity;
  source = source;
  added_at = 0;
}

-- One round of the loop: `continue` where the record lacks its digest or its name.
unfoldable pub import_one : Text → ℕ → String → Record → List Row → List Row × ℕ
unfolding add
import_one t now source rec rows = elim (present rec.sha256) [
  | none ↦ (rows, 0)
  | some sha256 ↦ elim (present rec.name) [
    | none ↦ (rows, 0)
    | some name ↦ add t now (row_of source rec sha256 name) rows
  ]
]

unfoldable pub import_records : Text → ℕ → String → List Record → List Row → ℕ → List Row × ℕ
unfolding import_one
import_records t now source [] rows added = (rows, added)
import_records t now source (rec ∷ recs) rows added =
    let (rows', n) = import_one t now source rec rows in
    import_records t now source recs rows' (added + n)

abbrev pub import_json : Text → ℕ → String → List Record → List Row → List Row × ℕ
import_json t now source recs rows = import_records t now source recs rows 0

unfoldable pub count : List Row → ℕ
count rows = length rows
