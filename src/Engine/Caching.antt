-- ===== src/Engine/Caching.antt =====
-- The scan cache of aegorx/engine.py: its bound, what it keeps, and a second scan of a file.
mod Entries
use aegor_x.Prelude.{
  ℕ, zero, suc, ◌+◌, ◌≤◌, ◌<◌, String, ◌≡◌, refl, Bool, true, false, Option, none, some, List, [],
  ◌∷◌, ◌++◌, All, length, arith, Option-cases, Bool-cases, inl, inr, lookup, insert, remove, leb,
  ltb,
}
use aegor_x.Engine.World.{
  Engine, World, FileScanResult, Verdict, error, Entry, Hashes, Detection, Extraction, Io, entries,
  bomb, unscannable, ok, raised,
}
use aegor_x.Engine.Cache.{
  ScanCache, Key, Key-discrete, cache_key, evict, move_to_end, hit, miss, is_error, store,
}
use aegor_x.Engine.Sniff.{looks_like_archive}
use aegor_x.Engine.Scan.{
  scan_extraction, scan_hashed, scan_sized, or_scan, stored, Scanner, scan_entries,
  scan_archive_contents, archive_stage, analyse, scan_uncached, scan_step, scan_at, scan_file,
}
use Entries.{
  Kept, evict-Kept, length-evict, insert-Kept, move_to_end-Kept, length-move_to_end,
  lookup-move_to_end, lookup-store,
}

-- What holds of the cache between two scans.
pub record IsCache (limit : ℕ) (c : ScanCache) : Type 0 where
  pub bounded : length c.entries ≤ limit
  pub kept : All Kept c.entries

hit-IsCache :
    (limit : ℕ) (key : Option Key) (c : ScanCache) {found : ScanCache × FileScanResult}
    → IsCache limit c
    → hit key c ≡ some found
    → IsCache limit found.0
unfolding hit
hit-IsCache limit none c h e = cc
hit-IsCache limit (some key) c h e = elim (Option-cases (lookup Key-discrete key c.entries)) [
  | inl absent ↦ ground arith
  | inr (r, found) ↦ ground (
    arith,
    move_to_end-Kept key r c.entries found h.kept,
    length-move_to_end key r c.entries found,
  )
]

store-IsCache :
    (limit : ℕ) (key : Option Key) (r : FileScanResult) (c : ScanCache)
    → IsCache limit c
    → IsCache limit (store limit key r c)
unfolding store
store-IsCache limit none r c h = h
store-IsCache limit (some key) r c h = elim (Bool-cases (is_error r.verdict)) [
  | inl e ↦ rw e h
  | inr e ↦ rw e (record {
    bounded = length-evict limit (insert Key-discrete key r c.entries);
    kept = evict-Kept limit _ (insert-Kept key r c.entries e h.kept);
  })
]

-- A scanner that keeps the invariant, at every path.
abbrev Keeps : ℕ → Scanner → Type 0
Keeps limit scan = (c : ScanCache) (path : String) → IsCache limit c → IsCache limit (scan c path).0

module _ (limit : ℕ) (scan : Scanner) (keeps : Keeps limit scan) where
  scan_entries-IsCache :
      (found : List Entry) (c : ScanCache) (ds : List Detection) (ps : List ℕ)
      → IsCache limit c
      → IsCache limit (scan_entries scan found c ds ps).0
  unfolding scan_entries
  scan_entries-IsCache [] c ds ps h = h
  scan_entries-IsCache (entry ∷ rest) c ds ps h =
      scan_entries-IsCache rest (scan c entry.temp_path).0 _ _ (keeps c entry.temp_path h)

  scan_extraction-IsCache :
      (c : ScanCache) (x : Extraction)
      → IsCache limit c
      → IsCache limit (scan_extraction scan c x).0
  unfolding scan_extraction
  scan_extraction-IsCache c (entries found) h = scan_entries-IsCache found c [] [] h
  scan_extraction-IsCache c (bomb detail) h = h
  scan_extraction-IsCache c (unscannable detail) h = h

  archive_stage-IsCache :
      (e : Engine) (w : World) (path : String) (depth : ℕ) (head : List ℕ) (c : ScanCache)
      → IsCache limit c
      → IsCache limit (archive_stage scan e w path depth head c).0
  unfolding archive_stage
  archive_stage-IsCache e w path depth head c h = elim (Bool-cases (looks_like_archive head)) [
    | inr plain ↦ rw plain h
    | inl archive ↦ elim (Bool-cases (leb e.max_depth depth)) [
      | inl deep ↦ rw (archive, deep) h
      | inr shallow ↦ rw (archive, shallow) (scan_extraction-IsCache c (w.extract_archive path) h)
    ]
  ]

  scan_hashed-IsCache :
      (e : Engine) (w : World) (depth : ℕ) (c : ScanCache) (path : String) (r : FileScanResult)
      (x : Io Hashes)
      → IsCache limit c
      → IsCache limit (scan_hashed scan e w depth c path r x).0
  unfolding scan_hashed analyse
  scan_hashed-IsCache e w depth c path r (raised x) h = h
  scan_hashed-IsCache e w depth c path r (ok hashes) h = archive_stage-IsCache e w path depth _ c h

  scan_sized-IsCache :
      (e : Engine) (w : World) (depth : ℕ) (c : ScanCache) (path : String) (x : Io ℕ)
      → IsCache limit c
      → IsCache limit (scan_sized scan e w depth c path x).0
  unfolding scan_sized
  scan_sized-IsCache e w depth c path (raised x) h = h
  scan_sized-IsCache e w depth c path (ok size) h = elim (Bool-cases (ltb e.max_file_size size)) [
    | inl large ↦ rw large h
    | inr fits ↦ rw fits (scan_hashed-IsCache e w depth c path _ (w.file_hashes path) h)
  ]

  scan_uncached-IsCache :
      (e : Engine) (w : World) (depth : ℕ) (c : ScanCache) (path : String)
      → IsCache limit c
      → IsCache limit (scan_uncached scan e w depth c path).0
  unfolding scan_uncached
  scan_uncached-IsCache e w depth c path h = scan_sized-IsCache e w depth c path (w.getsize path) h

miss-IsCache : (limit : ℕ) (c : ScanCache) → IsCache limit c → IsCache limit (miss c)
miss-IsCache limit c h = record { bounded = h.bounded; kept = h.kept }

scan_step-IsCache :
    (scan : Scanner) (e : Engine) (w : World) (depth : ℕ)
    → Keeps e.scan_cache_max scan
    → Keeps e.scan_cache_max (scan_step scan e w depth)
unfolding scan_step or_scan
scan_step-IsCache scan e w depth keeps c path h = elim (Option-cases (hit (cache_key w path) c)) [
  | inr (found, e') ↦ rw e' (hit-IsCache e.scan_cache_max (cache_key w path) c h e')
  | inl absent ↦ rw absent (
      store-IsCache e.scan_cache_max (cache_key w path) _ _ (
        scan_uncached-IsCache e.scan_cache_max scan keeps e w depth (miss c) path
          (miss-IsCache e.scan_cache_max c h)))
]

scan_at-IsCache :
    (fuel : ℕ) (e : Engine) (w : World) (depth : ℕ)
    → Keeps e.scan_cache_max (scan_at fuel e w depth)
unfolding scan_at
scan_at-IsCache zero e w depth c path h = h
scan_at-IsCache (suc fuel) e w depth c path h =
    scan_step-IsCache (scan_at fuel e w (depth + 1)) e w depth
      (scan_at-IsCache fuel e w (depth + 1)) c path h

-- A scan, the scans of nested archives included, leaves the cache within its bound and without a
-- result that is an error.
pub scan_file-IsCache :
    (e : Engine) (w : World) (c : ScanCache) (path : String)
    → IsCache e.scan_cache_max c
    → IsCache e.scan_cache_max (scan_file e w c path).0
unfolding scan_file
scan_file-IsCache e w c path h = scan_at-IsCache (suc e.max_depth) e w 0 c (w.abspath path) h

hit-lookup :
    (key : Key) (c : ScanCache) {found : ScanCache × FileScanResult}
    → hit (some key) c ≡ some found
    → lookup Key-discrete key found.0.entries ≡ some found.1
unfolding hit
hit-lookup key c e = elim (Option-cases (lookup Key-discrete key c.entries)) [
  | inl absent ↦ ground arith
  | inr (r, found) ↦ ground (arith, lookup-move_to_end key r c.entries)
]

lookup-store_fine :
    (limit : ℕ) (key : Key) (r : FileScanResult) (c : ScanCache)
    → IsCache limit c
    → 0 < limit
    → is_error r.verdict ≡ false
    → lookup Key-discrete key (store limit (some key) r c).entries ≡ some r
unfolding store
lookup-store_fine limit key r c h pos fine =
    rw fine (lookup-store limit key r c.entries pos h.bounded)

hit-of_lookup :
    (key : Key) (c : ScanCache) (r : FileScanResult)
    → lookup Key-discrete key c.entries ≡ some r
    → hit (some key) c
      ≡ some (record c { entries = move_to_end key r c.entries; hits = c.hits + 1 }, r)
unfolding hit
hit-of_lookup key c r e = rw (e, hit)

module _ (scan : Scanner) (e : Engine) (w : World) (depth : ℕ) where
  -- What a scan returns for a file with a key is found under the key afterwards.
  scan_step-lookup :
      (c : ScanCache) (path : String) (key : Key)
      → Keeps e.scan_cache_max scan
      → IsCache e.scan_cache_max c
      → 0 < e.scan_cache_max
      → cache_key w path ≡ some key
      → is_error (scan_step scan e w depth c path).1.verdict ≡ false
      → lookup Key-discrete key (scan_step scan e w depth c path).0.entries
        ≡ some (scan_step scan e w depth c path).1
  unfolding scan_step or_scan
  scan_step-lookup c path key keeps h pos k fine = elim (Option-cases (hit (cache_key w path) c)) [
    | inr (found, e') ↦ rw e' (hit-lookup key c (rw k at e'))
    | inl absent ↦
        rw (absent, k)
          (lookup-store_fine e.scan_cache_max key (scan_uncached scan e w depth (miss c) path).1
            (scan_uncached scan e w depth (miss c) path).0
            (scan_uncached-IsCache e.scan_cache_max scan keeps e w depth (miss c) path
              (miss-IsCache e.scan_cache_max c h))
            pos (rw absent at fine))
  ]

  scan_step-hit :
      (c : ScanCache) (path : String) (key : Key) (r : FileScanResult)
      → cache_key w path ≡ some key
      → lookup Key-discrete key c.entries ≡ some r
      → scan_step scan e w depth c path
        ≡ (record c { entries = move_to_end key r c.entries; hits = c.hits + 1 }, r)
  unfolding scan_step or_scan
  scan_step-hit c path key r k found = rw (k, hit-of_lookup key c r found)

-- On a cache with room for a result, a second scan of a file whose path, time and size are as they were
-- returns the result of the first, unless that was an error, whatever has become of the file's content
-- and of all else in the world; it counts one hit and no miss.
pub scan_file_again :
    (e : Engine) (w later : World) (c : ScanCache) (path : String) (key : Key)
    → IsCache e.scan_cache_max c
    → 0 < e.scan_cache_max
    → later.abspath path ≡ w.abspath path
    → cache_key w (w.abspath path) ≡ some key
    → cache_key later (w.abspath path) ≡ some key
    → is_error (scan_file e w c path).1.verdict ≡ false
    → ((scan_file e later (scan_file e w c path).0 path).1 ≡ (scan_file e w c path).1)
      × ((scan_file e later (scan_file e w c path).0 path).0.hits
          ≡ (scan_file e w c path).0.hits + 1)
      × ((scan_file e later (scan_file e w c path).0 path).0.misses
          ≡ (scan_file e w c path).0.misses)
unfolding scan_file scan_at
scan_file_again e w later c path key h pos same k k' fine =
    let scan = scan_at e.max_depth e w 1 in
    let first = scan_step scan e w 0 c (w.abspath path) in
    let again = scan_at e.max_depth e later 1 in
    let found =
      scan_step-lookup scan e w 0 c (w.abspath path) key (scan_at-IsCache e.max_depth e w 1) h pos k
        fine in
    let second = scan_step-hit again e later 0 first.0 (w.abspath path) key first.1 k' found in
    rw (same, second) (refl, refl, refl)
