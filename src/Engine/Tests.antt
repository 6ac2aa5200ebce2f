-- ===== src/Engine/Tests.antt =====
-- Runs of the engine of aegorx/engine.py over one archive with one infected entry.
use aegor_x.Prelude.{
  ◌≡◌, refl, ◌+◌, String_discrete, true, false, none, some, [], ◌∷◌, ◌≐◌, if◌then◌else◌, arith,
  lookup,
}
use aegor_x.Signatures
use aegor_x.Signatures.{find}
use aegor_x.Engine.World.{
  Engine, World, Detection, malicious, ok, raised, entries, unscannable, probability, new_result,
  malicious_probability, suspicious_probability, verdict_of,
}
use aegor_x.Engine.Cache.{ScanCache, cache_key, hit}
use aegor_x.Engine.Sniff.{looks_like_archive, looks_like_pdf, looks_like_office}
use aegor_x.Engine.Scan.{analyse, scan_at, scan_file, scanning}
use aegor_x.Engine.Descriptor.{Fd, scan_file_descriptor}
use aegor_x.Engine.Verdicts.{worst, grade, verdict_of-grade}
use aegor_x.Engine.Caching.{IsCache, scan_file-IsCache, scan_file_again}
use aegor_x.Engine.Handles.{scan_file_descriptor_raises}
use aegor_x.Engine.Depth.{scan_at-fuel}
use aegor_x.Engine.Nested.{analyse-malicious_entry}

abbrev engine : Engine
engine = record {
  db =
      record {
        sha256 = "bad";
        md5 = "";
        sha1 = "";
        name = "Worm.A";
        family = "worm";
        severity = 9;
        source = "builtin";
        added_at = 0;
      }
      ∷ [];
  max_file_size = 1000;
  max_depth = 2;
  malicious_at = malicious_probability;
  suspicious_at = suspicious_probability;
  classifier = false;
  scan_cache_max = 4;
}

-- A zip file with one entry, whose digest is in the database.
abbrev world : World
world = record {
  abspath = λ p. p;
  stat = λ p. if p ≐ "a.zip" then some (record { mtime = 3; size = 20 }) else none;
  getsize = λ p. ok 20;
  file_hashes =
      λ p. ok (record { md5 = "m"; sha1 = "s"; sha256 = if p ≐ "a.zip" then "good" else "bad" });
  match_file = λ p. [];
  read_head = λ p. some (if p ≐ "a.zip" then b'P' ∷ b'K' ∷ 3 ∷ 4 ∷ [] else []);
  predict = λ p. probability none;
  office_available = true;
  analyze_document = λ p. none;
  analyze_pdf = λ p. none;
  extract_archive = λ p. entries (record { name = "in.txt"; temp_path = "/tmp/in" } ∷ []);
}

abbrev no_cache : ScanCache
no_cache = record { entries = []; hits = 0; misses = 0 }

no_cache-IsCache : IsCache 4 no_cache
no_cache-IsCache = record { bounded = omega arith; kept = tt }

abbrev worm : Detection
worm = record { detector = "yara"; name = "Worm"; severity = 9; details = [] }

abbrev packer : Detection
packer = record { detector = "yara"; name = "Packer"; severity = 5; details = [] }

verdict_of-grade_example :
    verdict_of engine (packer ∷ worm ∷ []) none ≡ grade engine (worst (packer ∷ worm ∷ [])) none
verdict_of-grade_example = verdict_of-grade engine (packer ∷ worm ∷ []) none

scan_file-IsCache_example : IsCache 4 (scan_file engine world no_cache "a.zip").0
scan_file-IsCache_example = scan_file-IsCache engine world no_cache "a.zip" no_cache-IsCache

archive_malicious : (scan_file engine world no_cache "a.zip").1.verdict ≡ malicious
unfolding scan_file scanning String_discrete hit cache_key lookup looks_like_archive verdict_of
    looks_like_pdf looks_like_office Signatures.lookup find
archive_malicious = refl

-- The file has been replaced behind its name, time and size.
abbrev later : World
later = record world { file_hashes = λ p. raised "gone"; extract_archive = λ p. unscannable "gone" }

scan_file_again_example :
    ((scan_file engine later (scan_file engine world no_cache "a.zip").0 "a.zip").1
      ≡ (scan_file engine world no_cache "a.zip").1)
    × ((scan_file engine later (scan_file engine world no_cache "a.zip").0 "a.zip").0.hits
        ≡ (scan_file engine world no_cache "a.zip").0.hits + 1)
    × ((scan_file engine later (scan_file engine world no_cache "a.zip").0 "a.zip").0.misses
        ≡ (scan_file engine world no_cache "a.zip").0.misses)
unfolding cache_key String_discrete
scan_file_again_example =
    scan_file_again engine world later no_cache "a.zip"
      (record { path = "a.zip"; mtime = 3; size = 20 }) no_cache-IsCache (omega arith) refl refl
      refl (ground (arith, archive_malicious))

scan_at-fuel_example : scan_at 3 engine world 0 ≡ scan_at 4 engine world 0
scan_at-fuel_example = scan_at-fuel 2 engine world 0 (omega arith)

analyse-malicious_entry_example :
    (analyse
      (scan_at 2 engine world 1)
      engine
      world
      "a.zip"
      0
      (new_result "a.zip")
      (record { md5 = "m"; sha1 = "s"; sha256 = "good" })
      no_cache).1.verdict
    ≡ malicious
unfolding scanning String_discrete hit cache_key looks_like_archive looks_like_pdf looks_like_office
    Signatures.lookup find
analyse-malicious_entry_example =
    analyse-malicious_entry (scan_at 2 engine world 1) engine world "a.zip" 0 (new_result "a.zip")
      (record { md5 = "m"; sha1 = "s"; sha256 = "good" }) no_cache (b'P' ∷ b'K' ∷ 3 ∷ 4 ∷ [])
      (record { name = "in.txt"; temp_path = "/tmp/in" } ∷ []) refl refl refl refl refl

-- Descriptor 7 is open, and `os.dup` returns 8.
abbrev descriptor : Fd
descriptor = record {
  path = "<fd:7>";
  fstat = ok 20;
  dup = ok 8;
  hashes = ok (record { md5 = "m"; sha1 = "s"; sha256 = "bad" });
  lseek = ok tt;
  read = ok (1 ∷ 2 ∷ []);
  match_bytes = λ bytes. [];
}

scan_file_descriptor_raises_example :
    (scan_file_descriptor engine descriptor (7 ∷ [])).result ≡ raised "Bad file descriptor"
scan_file_descriptor_raises_example =
    scan_file_descriptor_raises engine descriptor (7 ∷ []) 20 8
      (record { md5 = "m"; sha1 = "s"; sha256 = "bad" }) tt refl (omega arith) refl refl refl
