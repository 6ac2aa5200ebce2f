-- ===== src/Ransomware/Tests.antt =====
-- Runs of the detectors of aegorx/ransomware.py.
use aegor_x.Prelude.{◌≡◌, refl, String_discrete, true, none, some, [], ◌∷◌, length, ◌≐◌, arith}
use aegor_x.Ransomware.{Detector}
use aegor_x.Ransomware.Rate.{Stamps, Window, record_modification}
use aegor_x.Ransomware.Recent.{results, expected, results-expected}
use aegor_x.Ransomware.Entropy.{EntropyDetector}
use aegor_x.Ransomware.Canaries.{Canary, Files, check_all, deploy_to_directory}
use aegor_x.Ransomware.Log.{IsLog}

abbrev burst : Stamps
burst = (100, "a") ∷ (101, "b") ∷ (102, "c") ∷ (115, "d") ∷ []

abbrev no_stamps : Window
no_stamps = record { window = 10; threshold = 3; stamps = [] }

results-expected_example : results no_stamps burst ≡ expected 10 3 [] burst
results-expected_example = results-expected 10 3 burst (omega arith)

third_alarms : results no_stamps burst ≡ none ∷ none ∷ some 3 ∷ none ∷ []
unfolding record_modification
third_alarms = refl

abbrev small_detector : EntropyDetector
small_detector = record { spike_threshold = 4; min_entropy = 13; baselines = [] }

abbrev decoy : Canary
decoy = record {
  path = "/home/tax_return_2024.pdf";
  directory = "/home";
  original_hash = "aa";
  created_at = 1;
  last_checked = 0;
}

abbrev encrypted : Files
encrypted = record {
  exists = λ p. p ≐ "/home/tax_return_2024.pdf";
  file_hash = λ p. "bb";
  is_dir = λ p. true;
  writable = λ p. true;
  join = λ d n. n;
  written_hash = λ p. "aa";
}

deploys_two : (deploy_to_directory 5 3 encrypted "/home" (decoy ∷ [])).1 ≡ 2
unfolding deploy_to_directory String_discrete
deploys_two = refl

abbrev detector : Detector
detector = record {
  velocity = record { window = 10; threshold = 1; stamps = [] };
  entropy = small_detector;
  extensions = record { window = 60; threshold = 5; stamps = [] };
  canaries = decoy ∷ [];
  log = [];
  checks_performed = 0;
  events_detected = 0;
}

detector-IsLog : IsLog detector
detector-IsLog = record { bounded = omega arith; counted = omega arith }

finds_the_decoy : length (check_all 5 encrypted (decoy ∷ [])).1 ≡ 1
unfolding check_all String_discrete
finds_the_decoy = refl
