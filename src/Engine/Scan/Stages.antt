-- ===== src/Engine/Scan/Stages.antt =====
-- The stages of `_scan_file` (aegorx/engine.py) that need no other scan: signatures, YARA, the model,
-- documents, and the verdict at the end.
use aegor_x.Prelude.{
  ℕ, String, Bool, true, false, ◌&&◌, not, Option, none, some, List, [], ◌∷◌, ◌++◌, map, leb, max,
  if◌then◌else◌,
}
use aegor_x.Signatures
use aegor_x.Engine.Sniff.{looks_like_office, looks_like_pdf, looks_executable}
use aegor_x.Engine.World.{
  Engine, World, FileScanResult, Detection, Hashes, Match, Finding, Prediction, Verdict, clean,
  archive_note, extraction_failed, text, texts, chance, failed, probability, unreadable, crashed,
  malicious_probability, suspicious_probability, verdict_of,
}

-- Detection from the signature database, if a digest is known.
unfoldable pub signature_detections : Engine → Hashes → List Detection
signature_detections e h = elim (Signatures.lookup h.sha256 h.md5 h.sha1 e.db) [
  | none ↦ []
  | some sig ↦
      record {
        detector = "signature";
        name = sig.name;
        severity = sig.severity;
        details = ("family", text sig.family) ∷ ("source", text sig.source) ∷ [];
      }
      ∷ []
]

unfoldable pub yara_detections : List Match → List Detection
yara_detections = map λ m. record {
  detector = "yara";
  name = m.rule;
  severity = m.severity;
  details = ("tags", texts m.tags) ∷ [];
}

abbrev pub from_finding : String → Finding → Detection
from_finding detector f = record {
  detector = detector;
  name = f.name;
  severity = f.severity;
  details = f.details;
}

-- The outcome of the model: the probability, and whether extraction failed on malformed input.
abbrev pub prediction : Prediction → Option ℕ × Bool
prediction (probability p) = (p, false)
prediction unreadable = (none, false)
prediction crashed = (none, true)

unfoldable pub ml_stage : Engine → World → String → List ℕ → Option ℕ × Bool
ml_stage e w path head =
    if e.classifier && looks_executable head then prediction (w.predict path) else (none, false)

abbrev pub is_empty {ℓ} : {A : Type ℓ} → List A → Bool
is_empty [] = true
is_empty (_ ∷ _) = false

unfoldable pub office_stage : World → String → List ℕ → List Detection → List Detection
office_stage w path head detections =
    if looks_like_office head
    then elim (w.analyze_document path) [
      | none ↦
          if not w.office_available && is_empty detections
          then detections
            ++ record {
              detector = "office";
              name = "Document.MacroAnalysisUnavailable";
              severity = 3;
              details = ("hint", text "pip install 'aegorx[office]'") ∷ [];
            }
              ∷ []
          else detections
      | some found ↦ detections ++ map (from_finding "office") found
    ]
    else detections

unfoldable pub pdf_stage : World → String → List ℕ → List Detection → List Detection
pdf_stage w path head detections =
    if looks_like_pdf head
    then elim (w.analyze_pdf path) [
      | none ↦ detections
      | some found ↦ detections ++ map (from_finding "pdf") found
    ]
    else detections

-- max of the file's own probability and those of its entries; unchanged without entries that have one
unfoldable pub max_probability : Option ℕ → List ℕ → Option ℕ
max_probability p [] = p
max_probability none (q ∷ qs) = max_probability (some q) qs
max_probability (some p) (q ∷ qs) = max_probability (some (max p q)) qs

-- The detection that a probability adds, by the constants of the module.
unfoldable pub ml_detections : Option ℕ → List Detection
ml_detections none = []
ml_detections (some p) =
    if leb malicious_probability p
    then record {
      detector = "ml";
      name = "Heuristic.Malware.HighConfidence";
      severity = 9;
      details = ("probability", chance p) ∷ [];
    }
      ∷ []
    else if leb suspicious_probability p
    then record {
      detector = "ml";
      name = "Heuristic.Suspicious.StaticFeatures";
      severity = 6;
      details = ("probability", chance p) ∷ [];
    }
      ∷ []
    else []

-- The verdict, and the two cases in which a scan with nothing found is an error instead.
abbrev pub note_error : Option String → FileScanResult → FileScanResult
note_error none r = r
note_error (some why) r = if is_empty r.detections then failed r (archive_note why) else r

abbrev pub is_clean : Verdict → Bool
is_clean clean = true
is_clean _ = false

unfoldable pub settle : Option String → Bool → FileScanResult → FileScanResult
settle why ml_failed judged =
    let noted = note_error why judged in
    if ml_failed && is_clean noted.verdict then failed noted extraction_failed else noted

abbrev pub judge : Engine → FileScanResult → List Detection → Option ℕ → FileScanResult
judge e r detections ml_prob = record r {
  detections = detections;
  ml_probability = ml_prob;
  verdict = verdict_of e detections ml_prob;
}

unfoldable pub finish :
    Engine → FileScanResult → List Detection → Option ℕ → Option String → Bool → FileScanResult
unfolding ml_detections settle
finish e r detections ml_prob why ml_failed =
    settle why ml_failed (judge e r (detections ++ ml_detections ml_prob) ml_prob)
