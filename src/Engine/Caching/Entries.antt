-- ===== src/Engine/Caching/Entries.antt =====
-- The list behind the cache: eviction, moving to the end and storing.
use aegor_x.Prelude.{
  ℕ, ◌≤◌, ◌<◌, ◌≡◌, refl, false, none, some, List, [], ◌∷◌, ◌++◌, All, All-append, length,
  length-append, arith, Option-cases, inl, inr, lookup, insert, remove, lookup-insert, ◌∙◌,
}
use aegor_x.Engine.World.{FileScanResult}
use aegor_x.Engine.Cache.{Key, Key-discrete, evict, move_to_end, is_error}

abbrev pub Entries : Type 0
Entries = List (Key × FileScanResult)

-- A kept result is no error.
abbrev pub Kept : Key × FileScanResult → Type 0
Kept (key, r) = is_error r.verdict ≡ false

pub length-evict : (limit : ℕ) (xs : Entries) → length (evict limit xs) ≤ limit
unfolding evict
length-evict limit [] = omega arith
length-evict limit (x ∷ xs) = ground (arith, length-evict limit xs)

pub evict_of_le : (limit : ℕ) (xs : Entries) → length xs ≤ limit → evict limit xs ≡ xs
unfolding evict
evict_of_le limit [] h = refl
evict_of_le limit (x ∷ xs) h = ground arith

pub evict-Kept : (limit : ℕ) (xs : Entries) → All Kept xs → All Kept (evict limit xs)
unfolding evict
evict-Kept limit [] h = h
evict-Kept limit (x ∷ xs) h = ground (arith, evict-Kept limit xs h.1)

pub insert-Kept :
    (key : Key) (r : FileScanResult) (xs : Entries)
    → is_error r.verdict ≡ false
    → All Kept xs
    → All Kept (insert Key-discrete key r xs)
unfolding insert
insert-Kept key r [] k h = (k, tt)
insert-Kept key r ((j, v) ∷ xs) k h = ground (arith, insert-Kept key r xs k h.1)

lookup-Kept :
    (key : Key) (r : FileScanResult) (xs : Entries)
    → lookup Key-discrete key xs ≡ some r
    → All Kept xs
    → is_error r.verdict ≡ false
unfolding lookup
lookup-Kept key r [] e h = cc
lookup-Kept key r ((j, v) ∷ xs) e h = ground (arith, lookup-Kept key r xs)

remove-Kept : (key : Key) (xs : Entries) → All Kept xs → All Kept (remove Key-discrete key xs)
unfolding remove
remove-Kept key [] h = h
remove-Kept key ((j, v) ∷ xs) h = ground (arith, remove-Kept key xs h.1)

pub move_to_end-Kept :
    (key : Key) (r : FileScanResult) (xs : Entries)
    → lookup Key-discrete key xs ≡ some r
    → All Kept xs
    → All Kept (move_to_end key r xs)
unfolding move_to_end
move_to_end-Kept key r xs e h =
    All-append Kept (remove Key-discrete key xs) ((key, r) ∷ []) (remove-Kept key xs h)
      (lookup-Kept key r xs e h, tt)

length-remove-le : (key : Key) (xs : Entries) → length (remove Key-discrete key xs) ≤ length xs
unfolding remove
length-remove-le key [] = omega arith
length-remove-le key ((j, v) ∷ xs) = ground (arith, length-remove-le key xs)

length-remove :
    (key : Key) (r : FileScanResult) (xs : Entries)
    → lookup Key-discrete key xs ≡ some r
    → length (remove Key-discrete key xs) < length xs
unfolding lookup remove
length-remove key r [] e = cc
length-remove key r ((j, v) ∷ xs) e =
    ground (arith, length-remove key r xs, length-remove-le key xs)

pub length-move_to_end :
    (key : Key) (r : FileScanResult) (xs : Entries)
    → lookup Key-discrete key xs ≡ some r
    → length (move_to_end key r xs) ≤ length xs
unfolding move_to_end
length-move_to_end key r xs e =
    omega
      (arith, length-remove key r xs e, length-append (remove Key-discrete key xs) ((key, r) ∷ []))

lookup-snoc :
    (key : Key) (r : FileScanResult) (xs : Entries)
    → lookup Key-discrete key xs ≡ none
    → lookup Key-discrete key (xs ++ (key, r) ∷ []) ≡ some r
unfolding lookup
lookup-snoc key r [] e = ground arith
lookup-snoc key r ((j, v) ∷ xs) e = ground (arith, lookup-snoc key r xs)

lookup-remove_self :
    (key : Key) (xs : Entries) → lookup Key-discrete key (remove Key-discrete key xs) ≡ none
unfolding lookup remove
lookup-remove_self key [] = refl
lookup-remove_self key ((j, v) ∷ xs) = ground (arith, lookup-remove_self key xs)

pub lookup-move_to_end :
    (key : Key) (r : FileScanResult) (xs : Entries)
    → lookup Key-discrete key (move_to_end key r xs) ≡ some r
unfolding move_to_end
lookup-move_to_end key r xs = lookup-snoc key r _ (lookup-remove_self key xs)

insert_new :
    (key : Key) (r : FileScanResult) (xs : Entries)
    → lookup Key-discrete key xs ≡ none
    → insert Key-discrete key r xs ≡ xs ++ (key, r) ∷ []
unfolding lookup insert
insert_new key r [] e = refl
insert_new key r ((j, v) ∷ xs) e = ground (arith, insert_new key r xs)

length-insert_old :
    (key : Key) (r v : FileScanResult) (xs : Entries)
    → lookup Key-discrete key xs ≡ some v
    → length (insert Key-discrete key r xs) ≡ length xs
unfolding lookup insert
length-insert_old key r v [] e = cc
length-insert_old key r v ((j, u) ∷ xs) e = ground (arith, length-insert_old key r v xs)

lookup-evict-snoc :
    (limit : ℕ) (key : Key) (r : FileScanResult) (xs : Entries)
    → 0 < limit
    → lookup Key-discrete key xs ≡ none
    → lookup Key-discrete key (evict limit (xs ++ (key, r) ∷ [])) ≡ some r
unfolding evict lookup
lookup-evict-snoc limit key r [] pos e = ground arith
lookup-evict-snoc limit key r ((j, v) ∷ xs) pos e =
    ground (arith, lookup-evict-snoc limit key r xs, lookup-snoc key r xs)

-- The result that is stored is found again: it is the newest entry, and eviction starts at the oldest.
pub lookup-store :
    (limit : ℕ) (key : Key) (r : FileScanResult) (xs : Entries)
    → 0 < limit
    → length xs ≤ limit
    → lookup Key-discrete key (evict limit (insert Key-discrete key r xs)) ≡ some r
lookup-store limit key r xs pos fits = elim (Option-cases (lookup Key-discrete key xs)) [
  | inl e ↦ rw (insert_new key r xs e) (lookup-evict-snoc limit key r xs pos e)
  | inr (v, e) ↦
      rw
        (evict_of_le limit (insert Key-discrete key r xs)
          (omega (arith, length-insert_old key r v xs e)))
        (lookup-insert Key-discrete key key r xs ∙ ground arith)
]
