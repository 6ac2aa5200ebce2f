-- ===== src/Updates/Tests.antt =====
-- An update to a release 1.2.10 of a program at 1.2.9, with a key that signs every text by the
-- text "sig" and digests that are all the same.
use Prim.Native.String.{len}
use aegor_x.Prelude.{
  ℕ, ◌+◌, ◌-◌, ◌*◌, ◌≡◌, ◌⊎◌, refl, String, String_discrete, false, ◌&&◌, none, some, List, [], ◌∷◌,
  ◌≐◌, leb, lookup, insert,
}
use aegor_x.Json.{
  Json, Fields, text, whole, object, end, field, get, fields_of, text_of, text_at, is_true,
}
use aegor_x.Feeds.{World, check_expiry, pos}
use aegor_x.Updates.Versions.{
  Digits, lstrip_v, split, leading, parts_of, parse_text, version_lt, version_le,
}
use aegor_x.Updates.{check, check_artifacts, verify_manifest, parse_version, is_newer, passed}
use aegor_x.Updates.Download.{Device, chunk, finished, exited, receive, download_artifact}
use aegor_x.Updates.Install.{Run, apply_update, auto_apply, updated}
use aegor_x.Updates.Accepted.{IsAccepted, auto_apply-IsAccepted}
use aegor_x.Updates.Installed.{IsChecked}

abbrev value_of : ℕ → List ℕ → ℕ
value_of n [] = n
value_of n (c ∷ s) = value_of (10 * n + (c - b'0')) s

abbrev digits : Digits
digits = record { is_digit = λ c. leb b'0' c && leb c b'9'; int_of = λ s. some (value_of 0 s) }

abbrev digest : String
digest = "0123456789abcdef0123456789abcdef0123456789abcdef0123456789abcdef"

abbrev world : World
world = record {
  show = λ _. "";
  strip = λ s. s;
  lower = λ s. s;
  len = len;
  size = len;
  digest = λ s. s;
  parse_int = λ _. none;
  parse_utc = λ _. some 100;
  canonical = λ _. "payload";
  decode = λ s. some s;
  trusted = record { fingerprint = "k1"; verify = λ sig payload. sig ≐ "sig" } ∷ [];
  database = record { normalize = λ s. s; trim = λ s. s };
}

abbrev device : Device
device = record {
  world = world;
  digits = digits;
  open_url = λ _. chunk (1 ∷ 2 ∷ []) (chunk (3 ∷ []) finished);
  hexdigest = λ _. digest;
  base_name = λ _. "a.whl";
  ends_with = λ s suffix. suffix ≐ ".whl";
  is_root = false;
  has_apt_get = false;
  executable = "python3";
  run = λ _ _. exited (pos 0);
  version = "1.2.9";
}

abbrev entry : Fields
entry =
    field "url" (text "https://h/a.whl") (field "sha256" (text digest) (field "size" (whole 3) end))

abbrev manifest : Json
manifest = object (
    field "format" (text "aegorx-update-manifest") (
      field "manifest_version" (whole 1) (
        field "version" (text "v1.2.10") (
          field "artifacts" (object (field "wheel" (object entry) end))
            (field "signature" (text "sig") end)))))

abbrev ran : Run
ran = auto_apply device 60 "auto" false false (some manifest) []

updates : ran ≡ record {
  files = ("a.whl", 1 ∷ 2 ∷ 3 ∷ []) ∷ [];
  calls =
      record {
        command = "python3" ∷ "-m" ∷ "pip" ∷ "install" ∷ "--upgrade" ∷ "a.whl" ∷ [];
        content = some (1 ∷ 2 ∷ 3 ∷ []);
      }
      ∷ [];
  result = passed (updated "wheel" (record { installer = "python3"; returncode = pos 0 }));
}
unfolding auto_apply check verify_manifest check_artifacts check_expiry is_newer parse_version
    parse_text parts_of leading split lstrip_v version_lt version_le apply_update download_artifact
    receive get fields_of text_of text_at is_true insert lookup String_discrete
updates = refl

auto_apply-IsAccepted_example :
    (ran.calls ≡ [])
    ⊎ ((fs : Fields) × IsAccepted world 60 false (some manifest) fs
        × IsChecked device "auto" false fs ran)
auto_apply-IsAccepted_example =
    auto_apply-IsAccepted device 60 "auto" false false (some manifest) []
