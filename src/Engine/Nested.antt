-- ===== src/Engine/Nested.antt =====
-- A threat inside an archive (aegorx/engine.py, `_scan_archive_contents`) is the archive's threat.
use aegor_x.Prelude.{
  ℕ, String, ◌≡◌, refl, true, false, ◌||◌, some, List, [], ◌∷◌, ◌++◌, map, leb, any, arith, ap,
}
use aegor_x.Engine.Sniff.{looks_like_archive}
use aegor_x.Engine.World.{
  Engine, World, FileScanResult, Entry, Detection, Hashes, entries, malicious, malicious_severity,
  severe,
}
use aegor_x.Engine.Cache.{ScanCache}
use aegor_x.Engine.Scan.{
  Scanner, from_entry, scan_entries, scan_extraction, scan_archive_contents, archive_stage, analyse,
  known, office_stage, pdf_stage, signature_detections, yara_detections,
}
use aegor_x.Engine.Verdicts.{severe-append, finish-malicious}

-- The results of the entries' own scans, in order, each on the cache that the one before left.
abbrev pub inner_results : Scanner → List Entry → ScanCache → List FileScanResult
inner_results scan [] c = []
inner_results scan (entry ∷ rest) c =
    let (c', r) = scan c entry.temp_path in r ∷ inner_results scan rest c'

severe-from_entry :
    (n : ℕ) (entry : Entry) (ds : List Detection)
    → severe n (map (from_entry entry) ds) ≡ severe n ds
unfolding from_entry
severe-from_entry n entry [] = refl
severe-from_entry n entry (d ∷ ds) = ap (λ b. leb n d.severity || b) (severe-from_entry n entry ds)

module _ (scan : Scanner) (n : ℕ) where
  severe-scan_entries :
      (found : List Entry) (c : ScanCache) (ds : List Detection) (ps : List ℕ)
      → severe n (scan_entries scan found c ds ps).1.detections
        ≡ severe n ds || any (λ r. severe n r.detections) (inner_results scan found c)
  unfolding scan_entries
  severe-scan_entries [] c ds ps = ground arith
  severe-scan_entries (entry ∷ rest) c ds ps =
      let (c', r) = scan c entry.temp_path in
      ground (
        arith,
        severe-scan_entries rest c' (ds ++ map (from_entry entry) r.detections)
            (ps ++ known r.ml_probability),
        severe-append n ds (map (from_entry entry) r.detections),
        severe-from_entry n entry r.detections,
      )

archive_stage-entries :
    (scan : Scanner) (e : Engine) (w : World) (path : String) (depth : ℕ) (head : List ℕ)
    (c : ScanCache) (found : List Entry)
    → looks_like_archive head ≡ true
    → leb e.max_depth depth ≡ false
    → w.extract_archive path ≡ entries found
    → archive_stage scan e w path depth head c ≡ scan_entries scan found c [] []
unfolding archive_stage scan_archive_contents scan_extraction
archive_stage-entries scan e w path depth head c found archive shallow extracted =
    rw (archive, shallow) (rw (extracted, scan_extraction))

-- Above the depth limit, a file that looks like an archive and can be extracted is malicious as soon as
-- the scan of one of its entries finds a detection of severity 8 or more, whatever else is found.
pub analyse-malicious_entry :
    (scan : Scanner) (e : Engine) (w : World) (path : String) (depth : ℕ) (r : FileScanResult)
    (h : Hashes) (c : ScanCache) (head : List ℕ) (found : List Entry)
    → w.read_head path ≡ some head
    → looks_like_archive head ≡ true
    → leb e.max_depth depth ≡ false
    → w.extract_archive path ≡ entries found
    → any (λ x. severe malicious_severity x.detections) (inner_results scan found c) ≡ true
    → (analyse scan e w path depth r h c).1.verdict ≡ malicious
unfolding analyse
analyse-malicious_entry scan e w path depth r h c head found read archive shallow extracted bad =
    let documents = pdf_stage w path head (
      office_stage w path head (signature_detections e h ++ yara_detections (w.match_file path))) in
    rw (read, archive_stage-entries scan e w path depth head c found archive shallow extracted)
      (finish-malicious e r (documents ++ (scan_entries scan found c [] []).1.detections) _ _ _ (
        ground (
          arith,
          severe-append malicious_severity documents (scan_entries scan found c [] []).1.detections,
          severe-scan_entries scan malicious_severity found c [] [],
        )))
