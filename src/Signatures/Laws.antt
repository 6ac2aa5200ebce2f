-- ===== src/Signatures/Laws.antt =====
-- What `add`, `lookup` and `import_json` of aegorx/signatures/db.py keep and return.
use aegor_x.Prelude.{
  ℕ, ◌+◌, ◌≤◌, String, ◌≡◌, refl, ◌≢◌, none, some, List, [], ◌∷◌, ◌++◌, if_neg, length, arith,
  Option-cases, length-append, inl, inr,
}
use aegor_x.Signatures.{
  Row, Text, Record, find, insert_or_ignore, add, lookup, import_one, import_records, import_json,
  present, row_of, count, stored,
}

-- No two rows have one digest, and every severity is within 0 and 10.
abbrev pub Fresh : String → List Row → Type 0
Fresh key rows = find (λ x. x.sha256) key rows ≡ none

pub data IsTable : List Row → Type 0 where
  empty : IsTable []
  snoc :
      {rows : List Row} (r : Row) {more : List Row}
      → IsTable rows
      → Fresh r.sha256 rows
      → r.severity ≤ 10
      → more ≡ rows ++ r ∷ []
      → IsTable more

insert_or_ignore-IsTable :
    (r : Row) (rows : List Row)
    → IsTable rows
    → r.severity ≤ 10
    → IsTable (insert_or_ignore r rows).0
unfolding insert_or_ignore
insert_or_ignore-IsTable r rows h small = elim (Option-cases (find (λ x. x.sha256) r.sha256 rows)) [
  | inl fresh ↦ rw fresh (snoc r h fresh small refl)
  | inr (x, old) ↦ rw old h
]

-- INSERT OR IGNORE keeps the primary key, and `add` the bound on severities.
pub add-IsTable :
    (t : Text) (now : ℕ) (r : Row) (rows : List Row) → IsTable rows → IsTable (add t now r rows).0
unfolding add
add-IsTable t now r rows h = insert_or_ignore-IsTable _ rows h (omega arith)

import_one-IsTable :
    (t : Text) (now : ℕ) (source : String) (rec : Record) (rows : List Row)
    → IsTable rows
    → IsTable (import_one t now source rec rows).0
unfolding import_one
import_one-IsTable t now source rec rows h = elim (Option-cases (present rec.sha256)) [
  | inl e ↦ rw (e, import_one) h
  | inr (sha256, e) ↦ elim (Option-cases (present rec.name)) [
    | inl f ↦ rw (e, import_one, f) h
    | inr (name, f) ↦
        rw (e, import_one, f) (add-IsTable t now (row_of source rec sha256 name) rows h)
  ]
]

-- Whatever a document holds, an import leaves a table with one row for each digest, every severity
-- within bounds.
pub import_json-IsTable :
    (t : Text) (now : ℕ) (source : String) (recs : List Record) (rows : List Row)
    → IsTable rows
    → IsTable (import_json t now source recs rows).0
unfolding import_records
import_json-IsTable t now source recs rows = loop recs rows 0
  where
    loop :
        (recs : List Record) (rows : List Row) (n : ℕ)
        → IsTable rows
        → IsTable (import_records t now source recs rows n).0
    loop [] rows n h = h
    loop (rec ∷ recs) rows n h =
        loop recs (import_one t now source rec rows).0 (n + (import_one t now source rec rows).1)
          (import_one-IsTable t now source rec rows h)

insert_or_ignore-count :
    (r : Row) (rows : List Row)
    → length (insert_or_ignore r rows).0 ≡ length rows + (insert_or_ignore r rows).1
unfolding insert_or_ignore
insert_or_ignore-count r rows = ground (arith, length-append rows (r ∷ []))

insert_or_ignore-le : (r : Row) (rows : List Row) → (insert_or_ignore r rows).1 ≤ 1
unfolding insert_or_ignore
insert_or_ignore-le r rows = ground arith

import_one-count :
    (t : Text) (now : ℕ) (source : String) (rec : Record) (rows : List Row)
    → (length (import_one t now source rec rows).0
        ≡ length rows + (import_one t now source rec rows).1)
      × ((import_one t now source rec rows).1 ≤ 1)
unfolding import_one add
import_one-count t now source rec rows = elim (Option-cases (present rec.sha256)) [
  | inl e ↦ rw (e, import_one) (omega arith)
  | inr (sha256, e) ↦ elim (Option-cases (present rec.name)) [
    | inl f ↦ rw (e, import_one, f) (omega arith)
    | inr (name, f) ↦
        rw (e, import_one, f) (insert_or_ignore-count _ rows, insert_or_ignore-le _ rows)
  ]
]

import_records-count :
    (t : Text) (now : ℕ) (source : String) (recs : List Record) (rows : List Row) (n : ℕ)
    → (length (import_records t now source recs rows n).0 + n
        ≡ length rows + (import_records t now source recs rows n).1)
      × ((import_records t now source recs rows n).1 ≤ n + length recs)
unfolding import_records
import_records-count t now source [] rows n = omega arith
import_records-count t now source (rec ∷ recs) rows n = omega (
  arith,
  import_one-count t now source rec rows,
  import_records-count t now source recs (import_one t now source rec rows).0
      (n + (import_one t now source rec rows).1),
)

-- The number that an import returns is exactly the growth of the table, and at most the number of
-- records given.
pub import_json-count :
    (t : Text) (now : ℕ) (source : String) (recs : List Record) (rows : List Row)
    → (count (import_json t now source recs rows).0
        ≡ count rows + (import_json t now source recs rows).1)
      × ((import_json t now source recs rows).1 ≤ length recs)
unfolding count
import_json-count t now source recs rows =
    omega (arith, import_records-count t now source recs rows 0)

find-append :
    (column : Row → String) (key : String) (rows : List Row) (r : Row) (x : Row)
    → find column key rows ≡ some x
    → find column key (rows ++ r ∷ []) ≡ some x
unfolding find
find-append column key [] r x h = cc
find-append column key (y ∷ rows) r x h = ground (arith, find-append column key rows r x)

find-append_new :
    (key : String) (rows : List Row) (r : Row)
    → find (λ x. x.sha256) key rows ≡ none
    → r.sha256 ≡ key
    → find (λ x. x.sha256) key (rows ++ r ∷ []) ≡ some r
unfolding find
find-append_new key [] r h e = ground arith
find-append_new key (y ∷ rows) r h e = ground (arith, find-append_new key rows r)

-- Adding never changes what a column already answers for a key: a signature that is known is not
-- replaced by one that comes later under its digest.
pub find-add :
    (t : Text) (now : ℕ) (r : Row) (column : Row → String) (key : String) (rows : List Row)
    (x : Row)
    → find column key rows ≡ some x
    → find column key (add t now r rows).0 ≡ some x
unfolding add
find-add t now r column key rows x h =
    elim (Option-cases (find (λ y. y.sha256) (t.normalize r.sha256) rows)) [
      | inl fresh ↦ rw fresh (find-append column key rows _ x h)
      | inr (y, old) ↦ rw old h
    ]

-- After an `add` of a digest that is not empty once normalised, `lookup` by the normalised digest
-- finds a row of that digest: the new one, with its severity clamped, exactly when the digest was
-- not there, and the old one else.
pub lookup-add :
    (t : Text) (now : ℕ) (r : Row) (md5 sha1 : String) (rows : List Row)
    → t.normalize r.sha256 ≢ ""
    → lookup (t.normalize r.sha256) md5 sha1 (add t now r rows).0
      ≡ some (elim (find (λ y. y.sha256) (t.normalize r.sha256) rows) [
        | none ↦ stored t now r
        | some old ↦ old
      ])
unfolding add lookup
lookup-add t now r md5 sha1 rows ne =
    elim (Option-cases (find (λ y. y.sha256) (t.normalize r.sha256) rows)) [
      | inl fresh ↦ rw (
        fresh,
        if_neg _ ne,
        find-append_new (t.normalize r.sha256) rows (stored t now r) fresh refl,
      )
      | inr (y, old) ↦ rw (old, if_neg _ ne, old)
    ]
