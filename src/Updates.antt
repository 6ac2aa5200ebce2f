-- ===== src/Updates.antt =====
-- The update channel (aegorx/update.py): `verify_manifest` and `check`. Children: the version
-- numbers, the download and the installer.
pub mod Versions
pub mod Download
pub mod Install
pub mod Fetched
pub mod Installed
pub mod Accepted
mod Tests
use package.text.Mathlib.Text.{starts_with}
use aegor_x.Prelude.{
  ℕ, String, Bool, true, false, ◌&&◌, ◌||◌, not, Option, none, some, List, [], ◌∷◌, ◌≐◌, ◌==◌, leb,
  if◌then◌else◌,
}
use aegor_x.Json.{
  Json, Fields, null, boolean, whole, negative, float, text, array, object, end, field, get, unit,
  fields_of, text_at,
}
use aegor_x.Feeds.{World, Outcome, Problem, to_int, verify_signature, check_expiry}
use aegor_x.Feeds
use aegor_x.Feeds.Rules.{str_at}
use aegor_x.Updates.Versions.{Digits, codes, parse_text, version_lt}

-- `UpdateError`, told apart by their messages. `signing` has the problems that manifests share
-- with feeds.
pub data UpdateError : Type 0 where
  bad_format bad_version no_artifacts bad_kind not_https bad_sha256 bad_size unparseable unavailable
        bad_entry no_suffix too_large download_failed size_mismatch checksum_mismatch rollback
        no_installer timed_out no_suitable :
      UpdateError
  signing : Problem → UpdateError

-- What a function gives; `crashed` is any other exception.
pub data Checked {ℓ} (A : Type ℓ) : Type ℓ where
  passed : A → Checked A
  refused : UpdateError → Checked A
  crashed : Checked A

infixl 5 ◌>>=◌
abbrev pub ◌>>=◌ {ℓ κ} : {A : Type ℓ} {B : Type κ} → Checked A → (A → Checked B) → Checked B
passed a >>= f = f a
refused e >>= f = refused e
crashed >>= f = crashed

abbrev pub from_outcome {ℓ} : {A : Type ℓ} → Outcome A → Checked A
from_outcome (Feeds.ok a) = passed a
from_outcome (Feeds.bad p) = refused (signing p)
from_outcome Feeds.crash = crashed

-- `ARTIFACT_SUFFIXES`: its keys and its values.
abbrev pub is_kind : String → Bool
is_kind k = (k ≐ "deb") || (k ≐ "wheel") || (k ≐ "sdist")

abbrev pub is_hex : ℕ → Bool
is_hex c = (leb b'0' c && leb c b'9') || (leb b'a' c && leb c b'f')

abbrev pub all_hex : List ℕ → Bool
all_hex [] = true
all_hex (c ∷ s) = is_hex c && all_hex s

-- `value == 1`, also of True and of 1.0.
abbrev pub is_one : Json → Bool
is_one (whole n) = n == 1
is_one (boolean b) = b
is_one (float false n) = n == unit
is_one _ = false

abbrev pub is_sha256 : World → String → Bool
is_sha256 w s = (w.len s == 64) && all_hex (codes (w.lower s))

abbrev pub check_size : World → Option Json → Checked {0} Unit
check_size w none = refused bad_size
check_size w (some j) = elim (to_int w j) [ some (Feeds.pos n) ↦ passed tt | _ ↦ refused bad_size ]

-- The tests of one artifact's fields.
abbrev pub check_artifact : World → Fields → Checked {0} Unit
check_artifact w entry = elim (text_at "url" entry) [
  | none ↦ refused not_https
  | some url ↦
      if not (starts_with url "https://")
      then refused not_https
      else elim (text_at "sha256" entry) [
        | none ↦ refused bad_sha256
        | some s ↦ if is_sha256 w s then check_size w (get "size" entry) else refused bad_sha256
      ]
]

-- The loop over the artifacts.
unfoldable pub check_artifacts : World → Fields → Checked {0} Unit
check_artifacts w end = passed tt
check_artifacts w (field kind v fs) =
    let rest = check_artifacts w fs in
    if not (is_kind kind) then refused bad_kind else elim (fields_of v) [
      | none ↦ refused bad_kind
      | some entry ↦ (check_artifact w entry >>= λ _. rest)
    ]

abbrev pub is_manifest : Fields → Bool
is_manifest fs = elim (get "format" fs) [ some (text s) ↦ s ≐ "aegorx-update-manifest" | _ ↦ false ]

abbrev pub is_version_one : Fields → Bool
is_version_one fs = elim (get "manifest_version" fs) [ none ↦ false | some j ↦ is_one j ]

-- A dict of artifacts that is not empty.
abbrev pub artifacts_of : Fields → Option Fields
artifacts_of fs = elim (get "artifacts" fs) [
  | some (object (field k v rest)) ↦ some (field k v rest)
  | _ ↦ none
]

unfoldable pub verify_manifest : World → Json → Checked String
unfolding check_artifacts
verify_manifest w doc = elim (fields_of doc) [
  | none ↦ refused bad_format
  | some fs ↦
      if not (is_manifest fs)
      then refused bad_format
      else if not (is_version_one fs)
      then refused bad_version
      else elim (artifacts_of fs) [
        | none ↦ refused no_artifacts
        | some artifacts ↦
            (check_artifacts w artifacts >>= λ _. from_outcome (verify_signature w fs))
      ]
]

unfoldable pub parse_version : World → Digits → String → Checked (List ℕ)
parse_version w d version = elim (parse_text d (codes (w.strip version))) [
  | none ↦ crashed
  | some [] ↦ refused unparseable
  | some (n ∷ ns) ↦ passed (n ∷ ns)
]

-- What `check` reports, with the document.
pub record Release : Type 0 where
  pub available : String
  pub update_available : Bool
  pub key_fingerprint : String
  pub document : Fields

-- `parse_version(available) > parse_version(current)`, false where one cannot be parsed.
unfoldable pub is_newer : World → Digits → String → String → Checked Bool
is_newer w d available current = elim (parse_version w d available) [
  | crashed ↦ crashed
  | refused _ ↦ passed false
  | passed v ↦ elim (parse_version w d current) [
    | crashed ↦ crashed
    | refused _ ↦ passed false
    | passed u ↦ passed (version_lt u v)
  ]
]

-- `check` of a document that was fetched, at the time `now`.
unfoldable pub check : World → Digits → ℕ → Bool → String → Option Json → Checked Release
check w d now allow_expired current none = refused unavailable
check w d now allow_expired current (some doc) = verify_manifest w doc >>= λ fingerprint.
    elim (fields_of doc) [
      | none ↦ refused bad_format
      | some fs ↦ from_outcome (check_expiry w now allow_expired fs) >>= λ _.
          is_newer w d (str_at w "version" fs) current >>= λ newer. passed (record {
            available = str_at w "version" fs;
            update_available = newer;
            key_fingerprint = fingerprint;
            document = fs;
          })
    ]
