-- ===== src/Updates/Download.antt =====
-- Downloading an artifact: `download_artifact` of aegorx/update.py. `Device` has what is outside:
-- the network, hashlib, the commands, and functions of Python on texts. The files are those of the
-- directory of downloads, by their names.
use Prim.Native.Char.{code}
use package.text.Mathlib.Text.{starts_with}
use aegor_x.Prelude.{
  ℕ, ◌*◌, String, String_discrete, Bool, ◌||◌, not, Option, none, some, List, [], ◌∷◌, ◌++◌, ◌≐◌,
  ◌==◌, length, ltb, insert, remove, if◌then◌else◌,
}
use aegor_x.Json.{Fields, get, is_true}
use aegor_x.Feeds.{World, str, str_or, to_int}
use aegor_x.Feeds
use aegor_x.Updates.Versions.{Digits}
use aegor_x.Updates.{
  Checked, passed, refused, crashed, not_https, bad_entry, no_suffix, too_large, download_failed,
  size_mismatch, checksum_mismatch,
}

-- What the response gives: its chunks, an exception on the way or at the start, the end.
pub data Stream : Type 0 where
  finished broken : Stream
  chunk : List ℕ → Stream → Stream

-- How `subprocess.run` ends.
pub data Ran : Type 0 where
  exited : Feeds.ℤ → Ran
  late failed : Ran

pub record Device : Type 0 where
  pub world : World
  pub digits : Digits
  pub open_url : String → Stream
  pub hexdigest : List ℕ → String
  pub base_name : String → String
  pub ends_with : String → String → Bool
  pub is_root : Bool
  pub has_apt_get : Bool
  pub executable : String
  pub run : List String → Option (List ℕ) → Ran
  pub version : String

abbrev pub Files : Type 0
Files = List (String × List ℕ)

abbrev pub max_artifact_bytes : ℕ
max_artifact_bytes = 512 * 1024 * 1024

-- The loop of the download; an empty chunk ends it.
unfoldable pub receive : List ℕ → Stream → Checked (List ℕ)
receive got finished = passed got
receive got broken = refused download_failed
receive got (chunk [] rest) = passed got
receive got (chunk (c ∷ cs) rest) =
    let done = receive (got ++ (c ∷ cs)) rest in
    if ltb max_artifact_bytes (length (got ++ (c ∷ cs))) then refused too_large else done

-- `url.split("?")[0]`.
abbrev pub before_query : String → String
before_query String.[] = ""
before_query (String.◌∷◌ c s) =
    let rest = before_query s in if code c == b'?' then "" else String.◌∷◌ c rest

-- `int(entry.get("size") or -1)`; none where it is negative, crashed where `int` raises.
abbrev pub expected_size : World → Fields → Checked (Option ℕ)
expected_size w entry = elim (get "size" entry) [
  | none ↦ passed none
  | some j ↦ if not (is_true j) then passed none else elim (to_int w j) [
    | none ↦ crashed
    | some (Feeds.pos n) ↦ passed (some n)
    | some (Feeds.negsuc n) ↦ passed none
  ]
]

abbrev pub has_suffix : Device → String → Bool
has_suffix d name = d.ends_with name ".deb" || d.ends_with name ".whl" || d.ends_with name ".tar.gz"

-- The size and the digest of what was written under the name.
abbrev pub accept : Device → String → ℕ → String → List ℕ → Checked String
accept d sha256 size name content =
    if not (length content == size)
    then refused size_mismatch
    else if not (d.hexdigest content ≐ sha256)
    then refused checksum_mismatch
    else passed name

-- The download; a partial file is removed, one that does not match stays.
abbrev pub fetch : Device → String → String → ℕ → String → Files → Files × Checked String
fetch d url sha256 size name files = elim (receive [] (d.open_url url)) [
  | passed content ↦ (insert String_discrete name content files, accept d sha256 size name content)
  | refused e ↦ (remove String_discrete name files, refused e)
  | crashed ↦ (files, crashed)
]

-- The download once the size is known.
abbrev pub download_sized : Device → Fields → String → Option ℕ → Files → Files × Checked String
download_sized d entry url none files = (files, refused bad_entry)
download_sized d entry url (some size) files =
    let sha256 = d.world.lower (str_or d.world (get "sha256" entry)) in
    let name = d.base_name (before_query url) in
    if not (d.world.len sha256 == 64)
    then (files, refused bad_entry)
    else if not (has_suffix d (d.world.lower name))
    then (files, refused no_suffix)
    else fetch d url sha256 size name files

-- It gives the name of the file, which with the directory is the path.
unfoldable pub download_artifact : Device → Fields → Files → Files × Checked String
unfolding receive
download_artifact d entry files =
    let url = str_or d.world (get "url" entry) in
    if not (starts_with (d.world.lower url) "https://")
    then (files, refused not_https)
    else elim (expected_size d.world entry) [
      | passed size ↦ download_sized d entry url size files
      | refused e ↦ (files, refused e)
      | crashed ↦ (files, crashed)
    ]
