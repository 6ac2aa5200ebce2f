-- ===== src/Engine/Cache.antt =====
-- The scan result cache (aegorx/engine.py, `_scan_cache`): an `OrderedDict` from (path, mtime, size)
-- to a result, oldest first.
use native.Mathlib.Decide.{ℕ_discrete}
use aegor_x.Prelude.{
  ℕ, ◌+◌, String, Bool, true, false, Option, none, some, List, [], ◌∷◌, ◌++◌, ltb, length, lookup,
  insert, remove, String_discrete, if◌then◌else◌,
}
use aegor_x.Engine.World.{FileScanResult, World, Verdict, error}

pub record Key : Type 0 where
  pub path : String
  pub mtime : ℕ
  pub size : ℕ

pub Key-discrete : Discrete Key
Key-discrete = hlevel (String_discrete, ℕ_discrete)

pub record ScanCache : Type 0 where
  pub entries : List (Key × FileScanResult)
  pub hits : ℕ
  pub misses : ℕ

-- (path, st_mtime, st_size), or None where the file cannot be read.
unfoldable pub cache_key : World → String → Option Key
cache_key w path = elim (w.stat path) [
  | none ↦ none
  | some s ↦ some (record { path = path; mtime = s.mtime; size = s.size })
]

-- while len(cache) > max: cache.popitem(last=False)
unfoldable pub evict : ℕ → List (Key × FileScanResult) → List (Key × FileScanResult)
evict limit [] = []
evict limit (x ∷ xs) =
    let rest = evict limit xs in if ltb limit (length (x ∷ xs)) then rest else x ∷ xs

-- cache.move_to_end(key)
unfoldable pub move_to_end :
    Key → FileScanResult → List (Key × FileScanResult) → List (Key × FileScanResult)
move_to_end key r entries = remove Key-discrete key entries ++ (key, r) ∷ []

-- The lookup at the head of `_scan_file`: on a hit, the cache as the hit leaves it and the result.
unfoldable pub hit : Option Key → ScanCache → Option (ScanCache × FileScanResult)
unfolding move_to_end
hit none c = none
hit (some key) c = elim (lookup Key-discrete key c.entries) [
  | none ↦ none
  | some r ↦ some (record c { entries = move_to_end key r c.entries; hits = c.hits + 1 }, r)
]

abbrev pub miss : ScanCache → ScanCache
miss c = record c { misses = c.misses + 1 }

abbrev pub is_error : Verdict → Bool
is_error error = true
is_error _ = false

-- The store at the end of `_scan_file`: results with an error are not kept.
unfoldable pub store : ℕ → Option Key → FileScanResult → ScanCache → ScanCache
unfolding evict
store limit none r c = c
store limit (some key) r c =
    if is_error r.verdict
    then c
    else record c { entries = evict limit (insert Key-discrete key r c.entries) }
