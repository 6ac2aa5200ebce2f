-- ===== src/Sandbox/Archive.antt =====
-- The sandbox for archives (aegorx/sandbox/archive_sandbox.py): `ArchiveSandbox`. What zipfile and
-- tarfile answer is an argument, and the same for the analysis and the extraction. Names are lists
-- of code points. A score is kept in twentieths; the sums of the code's doubles meet the same
-- thresholds.
pub mod Analyse
pub mod Extract
pub mod Safe
pub mod Bombs
mod Tests
use aegor_x.Prelude.{
  ℕ, ◌+◌, ◌*◌, Bool, true, false, ◌&&◌, ◌||◌, not, Option, none, some, List, [], ◌∷◌, ◌++◌, ◌==◌,
  ltb, leb, length, min, max, if◌then◌else◌,
}

abbrev pub Name : Type 0
Name = List ℕ

abbrev pub is_separator : ℕ → Bool
is_separator c = (c == b'/') || (c == b'\\')

-- `([\\/]|$)`: `$` is also before a line feed that ends the text.
abbrev pub ends_part : Name → Bool
ends_part [] = true
ends_part (c ∷ []) = is_separator c || (c == 10)
ends_part (c ∷ d ∷ s) = is_separator c

abbrev pub is_parent : Name → Bool
is_parent (c ∷ d ∷ s) = (c == b'.') && (d == b'.') && ends_part s
is_parent _ = false

-- `_PATH_TRAVERSAL.search`, from a place on that is the start or behind a separator, or not.
abbrev pub traverses_from : Bool → Name → Bool
traverses_from at_start [] = false
traverses_from at_start (c ∷ s) =
    let rest = traverses_from (is_separator c) s in (at_start && is_parent (c ∷ s)) || rest

unfoldable pub traverses : Name → Bool
traverses s = traverses_from true s

abbrev pub is_letter : ℕ → Bool
is_letter c = (leb b'A' c && leb c b'Z') || (leb b'a' c && leb c b'z')

-- `_ABSOLUTE_PATH.match`.
unfoldable pub is_absolute : Name → Bool
is_absolute [] = false
is_absolute (c ∷ []) = is_separator c
is_absolute (c ∷ d ∷ s) = is_separator c || (is_letter c && (d == b':'))

-- `name.count("/")`, and `name.count("..")` without overlaps.
abbrev pub slashes : Name → ℕ
slashes [] = 0
slashes (c ∷ s) = (if c == b'/' then 1 else 0) + slashes s

abbrev pub dots : Name → ℕ
dots [] = 0
dots (c ∷ []) = 0
dots (c ∷ d ∷ s) =
    let found = dots s in
    let rest = dots (d ∷ s) in if (c == b'.') && (d == b'.') then found + 1 else rest

pub record ArchiveEntry : Type 0 where
  pub name : Name
  pub size : ℕ
  pub compressed_size : ℕ
  pub is_dir : Bool
  pub is_symlink : Bool
  pub link_target : Name
  pub depth : ℕ

pub data BombType : Type 0 where
  entry_count compression_ratio total_uncompressed_size : BombType

pub data RiskFactor : Type 0 where
  file_not_found unsupported_archive_type too_many_entries large_entry bad_zip_file zip_read_error
        bad_tar_file tar_read_error excessive_nesting extraction_error high_compression :
      RiskFactor
  bomb_detected : BombType → RiskFactor
  path_traversal symlink_attack many_entries deep_nesting : ℕ → RiskFactor

pub data ArchiveType : Type 0 where
  unknown zip gzip bzip2 xz seven_zip rar tar : ArchiveType

pub data Verdict : Type 0 where
  undecided malicious suspicious clean : Verdict

-- `ratio` holds the two sizes whose quotient is the ratio, if it was taken.
pub record ExtractionResult : Type 0 where
  pub archive_type : ArchiveType
  pub total_entries : ℕ
  pub extracted_entries : ℕ
  pub skipped_entries : ℕ
  pub entries : List ArchiveEntry
  pub traversals : ℕ
  pub symlink_attacks : ℕ
  pub bomb : Option BombType
  pub max_nesting_depth : ℕ
  pub total_size_extracted : ℕ
  pub total_size_compressed : ℕ
  pub ratio : Option (ℕ × ℕ)
  pub risk_score : ℕ
  pub risk_factors : List RiskFactor
  pub verdict : Verdict

abbrev pub new_result : ExtractionResult
new_result = record {
  archive_type = unknown;
  total_entries = 0;
  extracted_entries = 0;
  skipped_entries = 0;
  entries = [];
  traversals = 0;
  symlink_attacks = 0;
  bomb = none;
  max_nesting_depth = 0;
  total_size_extracted = 0;
  total_size_compressed = 0;
  ratio = none;
  risk_score = 0;
  risk_factors = [];
  verdict = undecided;
}

abbrev pub note : RiskFactor → ExtractionResult → ExtractionResult
note f r = record r { risk_factors = r.risk_factors ++ f ∷ [] }

-- The limits of the constructor and of the class.
pub record Limits : Type 0 where
  pub max_entries : ℕ
  pub max_total_size : ℕ

abbrev pub max_compression_ratio : ℕ
max_compression_ratio = 100

abbrev pub max_nesting_depth : ℕ
max_nesting_depth = 5

abbrev pub max_entry_size : ℕ
max_entry_size = 500 * 1024 * 1024

abbrev pub max_individual_size : ℕ
max_individual_size = 100 * 1024 * 1024

-- `compression_ratio > n`.
abbrev pub is_above : ℕ → ExtractionResult → Bool
is_above n r = elim r.ratio [ none ↦ false | some (size, compressed) ↦ ltb (n * compressed) size ]

-- `score += weight` and a factor, where the test holds.
abbrev pub weigh : Bool → ℕ → RiskFactor → ℕ × List RiskFactor → ℕ × List RiskFactor
weigh test weight f (score, factors) =
    if test then (score + weight, factors ++ f ∷ []) else (score, factors)

abbrev pub weigh_bomb : Option BombType → ℕ × List RiskFactor → ℕ × List RiskFactor
weigh_bomb none w = w
weigh_bomb (some b) (score, factors) = (score + 10, factors ++ bomb_detected b ∷ [])

abbrev pub weights : ExtractionResult → ℕ × List RiskFactor
weights r = weigh (ltb 3 r.max_nesting_depth) 2 (deep_nesting r.max_nesting_depth) (
    weigh (ltb 5000 r.total_entries) 2 (many_entries r.total_entries) (
      weigh (is_above 50 r) 4 high_compression (
        weigh (ltb 0 r.symlink_attacks) 5 (symlink_attack r.symlink_attacks) (
          weigh (ltb 0 r.traversals) 6 (path_traversal r.traversals) (weigh_bomb r.bomb (0, []))))))

abbrev pub verdict_of : ℕ → Verdict
verdict_of score = if leb 14 score then malicious else if leb 6 score then suspicious else clean

unfoldable pub compute_risk : ExtractionResult → ExtractionResult
compute_risk r =
    let w = weights r in
    let score = min 20 w.0 in
    record r {
      risk_score = score;
      risk_factors = r.risk_factors ++ w.1;
      verdict = verdict_of score;
    }
