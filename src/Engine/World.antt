-- ===== src/Engine/World.antt =====
-- The data of a scan (aegorx/engine.py): constants, detections, results, and what the engine calls.
use aegor_x.Prelude.{
  ℕ, ◌*◌, ◌^◌, String, Bool, false, Option, none, some, List, [], any, leb, if◌then◌else◌,
}
use aegor_x.Signatures.{Row}

abbrev pub malicious_severity : ℕ
malicious_severity = 8

abbrev pub suspicious_severity : ℕ
suspicious_severity = 5

-- The doubles nearest to 0.85 and 0.60, in units of 2 ^ -1074. Shut, so that the numerals stay small
-- in proofs.
unfoldable pub malicious_probability : ℕ
malicious_probability = 7656119366529843 * 2 ^ 1021

unfoldable pub suspicious_probability : ℕ
suspicious_probability = 5404319552844595 * 2 ^ 1021

pub data Verdict : Type 0 where
  clean suspicious malicious error : Verdict

-- The values of a detection's details. A probability is kept as it is, without the rounding to four
-- places of the report.
pub data Value : Type 0 where
  text : String → Value
  texts : List String → Value
  number : ℕ → Value
  chance : ℕ → Value

-- A severity is a number from 0 on; a YARA rule's negative severity, which no test tells from 0, is
-- read as 0.
pub record Detection : Type 0 where
  pub detector : String
  pub name : String
  pub severity : ℕ
  pub details : List (String × Value)

-- The texts of `result.error`, by what they say.
pub data Problem : Type 0 where
  os_error : String → Problem
  exceeds_max_size : ℕ → Problem
  archive_note : String → Problem
  extraction_failed : Problem

pub record FileScanResult : Type 0 where
  pub path : String
  pub size : ℕ
  pub md5 : String
  pub sha1 : String
  pub sha256 : String
  pub verdict : Verdict
  pub detections : List Detection
  pub ml_probability : Option ℕ
  pub error : Option Problem

abbrev pub new_result : String → FileScanResult
new_result path = record {
  path = path;
  size = 0;
  md5 = "";
  sha1 = "";
  sha256 = "";
  verdict = clean;
  detections = [];
  ml_probability = none;
  error = none;
}

abbrev pub failed : FileScanResult → Problem → FileScanResult
failed r p = record r { verdict = error; error = some p }

-- A call that may raise `OSError`.
pub data Io (A : Type 0) : Type 0 where
  ok : A → Io A
  raised : String → Io A

pub record Hashes : Type 0 where
  pub md5 : String
  pub sha1 : String
  pub sha256 : String

pub record Stat : Type 0 where
  pub mtime : ℕ
  pub size : ℕ

-- A match of a YARA rule, as `match_file` and `match_bytes` return it.
pub record Match : Type 0 where
  pub rule : String
  pub tags : List String
  pub severity : ℕ

-- A finding of the analysers of office documents and of PDF documents.
pub record Finding : Type 0 where
  pub name : String
  pub severity : ℕ
  pub details : List (String × Value)

-- `classifier.predict_proba(vectorize(extract_features(path)))`: a probability, or None, an OSError,
-- or another exception.
pub data Prediction : Type 0 where
  probability : Option ℕ → Prediction
  unreadable : Prediction
  crashed : Prediction

pub record Entry : Type 0 where
  pub name : String
  pub temp_path : String

-- `archives.extract_archive`: its entries, ArchiveBomb, or another ArchiveError.
pub data Extraction : Type 0 where
  entries : List Entry → Extraction
  bomb : String → Extraction
  unscannable : String → Extraction

pub record World : Type 0 where
  pub abspath : String → String
  pub stat : String → Option Stat
  pub getsize : String → Io ℕ
  pub file_hashes : String → Io Hashes
  pub match_file : String → List Match
  pub read_head : String → Option (List ℕ)
  pub predict : String → Prediction
  pub office_available : Bool
  pub analyze_document : String → Option (List Finding)
  pub analyze_pdf : String → Option (List Finding)
  pub extract_archive : String → Extraction

pub record Engine : Type 0 where
  pub db : List Row
  pub max_file_size : ℕ
  pub max_depth : ℕ
  pub malicious_at : ℕ  -- self.malicious_probability
  pub suspicious_at : ℕ  -- self.suspicious_probability
  pub classifier : Bool  -- there is a classifier and its model is available
  pub scan_cache_max : ℕ

-- `policy.get(key, default)` of the two thresholds.
unfoldable pub threshold : Option ℕ → ℕ → ℕ
threshold none default = default
threshold (some p) default = p

-- The thresholds that `__init__` takes from the policy.
unfoldable pub with_policy : Option ℕ → Option ℕ → Engine → Engine
unfolding threshold
with_policy m s e = record e {
  malicious_at = threshold m malicious_probability;
  suspicious_at = threshold s suspicious_probability;
}

abbrev pub reaches : ℕ → Option ℕ → Bool
reaches limit none = false
reaches limit (some p) = leb limit p

abbrev pub severe : ℕ → List Detection → Bool
severe limit = any (λ d. leb limit d.severity)

-- `_verdict`
unfoldable pub verdict_of : Engine → List Detection → Option ℕ → Verdict
verdict_of e detections ml_prob =
    if severe malicious_severity detections
    then malicious
    else if reaches e.malicious_at ml_prob
    then malicious
    else if severe suspicious_severity detections
    then suspicious
    else if reaches e.suspicious_at ml_prob
    then suspicious
    else clean
