-- ===== src/Engine/Scan.antt =====
-- `_scan_file` and `_scan_archive_contents` of aegorx/engine.py: the archive stage, the whole of a scan,
-- and the recursion into archives. The stages that need no other scan stand in the child.
mod Stages
use aegor_x.Prelude.{
  ℕ, zero, suc, ◌+◌, String, Bool, true, false, ◌&&◌, not, Option, none, some, List, [], ◌∷◌, ◌++◌,
  map, leb, ltb, max, if◌then◌else◌, is_some, lookup, String_discrete,
}
use Prim.Native.String.{◌++◌ as ◌++ₛ◌}
use aegor_x.Signatures
use aegor_x.Engine.Sniff.{looks_like_archive, looks_like_office, looks_like_pdf, looks_executable}
use aegor_x.Engine.World.{
  Engine, World, FileScanResult, Detection, Hashes, Match, Finding, Entry, Extraction, Prediction,
  Verdict, clean, Io, ok, raised, os_error, exceeds_max_size, archive_note, extraction_failed, text,
  texts, number, chance, new_result, failed, probability, unreadable, crashed, entries, bomb,
  unscannable, malicious_probability, suspicious_probability, verdict_of,
}
use aegor_x.Engine.Cache.{ScanCache, Key, cache_key, hit, miss, store}
unfoldable pub use Stages.*

-- A detection of an entry, as the container reports it: the detector behind "archive:", and the
-- entry's name among the details, where a detail of the same name would replace it.
unfoldable pub from_entry : Entry → Detection → Detection
from_entry entry d = record d {
  detector = "archive:" ++ₛ d.detector;
  details =
      if is_some (lookup String_discrete "entry" d.details)
      then d.details
      else ("entry", text entry.name) ∷ d.details;
}

-- What a container takes from its entries: detections, probabilities, and a note where it could not
-- be scanned.
pub record Contents : Type 0 where
  pub detections : List Detection
  pub probabilities : List ℕ
  pub note : Option String

abbrev pub known : Option ℕ → List ℕ
known none = []
known (some p) = p ∷ []

-- A scan of one file as a step on the cache.
abbrev pub Scanner : Type 0
Scanner = ScanCache → String → ScanCache × FileScanResult

-- The loop over the extracted entries.
unfoldable pub scan_entries :
    Scanner → List Entry → ScanCache → List Detection → List ℕ → ScanCache × Contents
unfolding from_entry
scan_entries scan [] c ds ps = (c, record { detections = ds; probabilities = ps; note = none })
scan_entries scan (entry ∷ rest) c ds ps =
    let (c', inner) = scan c entry.temp_path in
    scan_entries scan rest c' (ds ++ map (from_entry entry) inner.detections)
      (ps ++ known inner.ml_probability)

-- `_scan_archive_contents`, by what the extraction came to
unfoldable pub scan_extraction : Scanner → ScanCache → Extraction → ScanCache × Contents
unfolding scan_entries
scan_extraction scan c (entries found) = scan_entries scan found c [] []
scan_extraction scan c (bomb detail) = (
  c,
  record {
    detections =
        record {
          detector = "archive";
          name = "Archive.BombSuspected";
          severity = 6;
          details = ("detail", text detail) ∷ [];
        }
        ∷ [];
    probabilities = [];
    note = none;
  },
)
scan_extraction scan c (unscannable detail) =
    (c, record { detections = []; probabilities = []; note = some detail })

unfoldable pub scan_archive_contents : Scanner → World → String → ScanCache → ScanCache × Contents
unfolding scan_extraction
scan_archive_contents scan w path c = scan_extraction scan c (w.extract_archive path)

-- The archive stage; `scan` scans an entry at the next depth.
unfoldable pub archive_stage :
    Scanner → Engine → World → String → ℕ → List ℕ → ScanCache → ScanCache × Contents
unfolding scan_archive_contents
archive_stage scan e w path depth head c =
    if looks_like_archive head
    then if leb e.max_depth depth
      then (
        c,
        record {
          detections =
              record {
                detector = "archive";
                name = "Archive.NestedTooDeep";
                severity = 3;
                details = ("depth", number depth) ∷ ("limit", number e.max_depth) ∷ [];
              }
              ∷ [];
          probabilities = [];
          note = none;
        },
      )
      else scan_archive_contents scan w path c
    else (c, record { detections = []; probabilities = []; note = none })

-- From the hashes to the verdict: everything behind the early returns.
unfoldable pub analyse :
    Scanner
    → Engine
    → World
    → String
    → ℕ
    → FileScanResult
    → Hashes
    → ScanCache
    → ScanCache × FileScanResult
analyse scan e w path depth r h c =
    let found = signature_detections e h ++ yara_detections (w.match_file path) in
    let head : List ℕ = elim (w.read_head path) [ none ↦ [] | some bytes ↦ bytes ] in
    let (own_prob, ml_failed) = ml_stage e w path head in
    let documents = pdf_stage w path head (office_stage w path head found) in
    let (c', inner) = archive_stage scan e w path depth head c in
    (
      c',
      finish e r (documents ++ inner.detections) (max_probability own_prob inner.probabilities)
          inner.note ml_failed,
    )

abbrev pub with_hashes : FileScanResult → Hashes → FileScanResult
with_hashes r h = record r { md5 = h.md5; sha1 = h.sha1; sha256 = h.sha256 }

-- The scan of a file that the cache does not hold, up to the store: the early returns where its
-- hashes cannot be had, where its size cannot be had, and where it is too large.
unfoldable pub scan_hashed :
    Scanner
    → Engine
    → World
    → ℕ
    → ScanCache
    → String
    → FileScanResult
    → Io Hashes
    → ScanCache × FileScanResult
unfolding analyse
scan_hashed scan e w depth c path r (raised x) = (c, failed r (os_error x))
scan_hashed scan e w depth c path r (ok h) = analyse scan e w path depth (with_hashes r h) h c

unfoldable pub scan_sized :
    Scanner → Engine → World → ℕ → ScanCache → String → Io ℕ → ScanCache × FileScanResult
unfolding scan_hashed
scan_sized scan e w depth c path (raised x) = (c, failed (new_result path) (os_error x))
scan_sized scan e w depth c path (ok size) =
    let r : FileScanResult = record (new_result path) { size = size } in
    if ltb e.max_file_size size
    then (c, failed r (exceeds_max_size e.max_file_size))
    else scan_hashed scan e w depth c path r (w.file_hashes path)

unfoldable pub scan_uncached : Scanner → Engine → World → ℕ → Scanner
unfolding scan_sized
scan_uncached scan e w depth c path = scan_sized scan e w depth c path (w.getsize path)

abbrev pub stored : Engine → Option Key → ScanCache × FileScanResult → ScanCache × FileScanResult
stored e key (c, r) = (store e.scan_cache_max key r c, r)

-- `_scan_file` at one depth; `scan` is `_scan_file` at the next.
unfoldable pub or_scan :
    Scanner
    → Engine
    → World
    → ℕ
    → ScanCache
    → String
    → Option (ScanCache × FileScanResult)
    → ScanCache × FileScanResult
or_scan scan e w depth c path (some found) = found
or_scan scan e w depth c path none =
    stored e (cache_key w path) (scan_uncached scan e w depth (miss c) path)

unfoldable pub scan_step : Scanner → Engine → World → ℕ → Scanner
scan_step scan e w depth c path = or_scan scan e w depth c path (hit (cache_key w path) c)

-- `_scan_file`. The number bounds the depth of the recursion; where it runs out the file is left
-- unscanned, which no depth from 0 on reaches with `max_depth + 1`.
unfoldable pub scan_at : ℕ → Engine → World → ℕ → Scanner
scan_at zero e w depth c path = (c, new_result path)
scan_at (suc fuel) e w depth c path = scan_step (scan_at fuel e w (depth + 1)) e w depth c path

unfoldable pub scan_file : Engine → World → Scanner
scan_file e w c path = scan_at (suc e.max_depth) e w 0 c (w.abspath path)

-- What a test of a whole scan computes with.
unfoldable pub scanning : Unit {0}
unfolding scan_at scan_step or_scan scan_uncached analyse ml_stage office_stage pdf_stage
    archive_stage signature_detections yara_detections finish max_probability
scanning = tt
