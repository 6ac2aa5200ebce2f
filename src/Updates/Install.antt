-- ===== src/Updates/Install.antt =====
-- Handing an artifact to the installer: `apply_update` and `auto_apply` of aegorx/update.py.
use aegor_x.Prelude.{
  ℕ, String, String_discrete, Bool, ◌&&◌, ◌||◌, not, Option, none, some, List, [], ◌∷◌, ◌≐◌, lookup,
  if◌then◌else◌,
}
use aegor_x.Json.{Json, Fields, get, fields_of}
use aegor_x.Feeds.{World, str, str_or, to_int}
use aegor_x.Feeds
use aegor_x.Updates.Versions.{version_le}
use aegor_x.Updates.{
  Checked, passed, refused, crashed, ◌>>=◌, Release, check, parse_version, unparseable, rollback,
  no_installer, timed_out, no_suitable,
}
use aegor_x.Updates.Download.{Ran, exited, late, failed, Device, Files, download_artifact}

abbrev pub installer_for : Device → String → List String
installer_for d path =
    let lower = d.world.lower path in
    if d.ends_with lower ".deb"
    then (if d.is_root && d.has_apt_get then "apt-get" ∷ "install" ∷ "-y" ∷ path ∷ [] else [])
    else if d.ends_with lower ".whl" || d.ends_with lower ".tar.gz"
    then d.executable ∷ "-m" ∷ "pip" ∷ "install" ∷ "--upgrade" ∷ path ∷ []
    else []

-- A run of an installer, with what the file of the path that it is given holds at that time.
pub record Call : Type 0 where
  pub command : List String
  pub content : Option (List ℕ)

-- The result of `apply_update`, less the tails of the installer's output.
pub record Installed : Type 0 where
  pub installer : String
  pub returncode : Feeds.ℤ

abbrev pub finish : String → Ran → Checked Installed
finish installer (exited n) = passed (record { installer = installer; returncode = n })
finish installer late = refused timed_out
finish installer failed = crashed

abbrev pub launch : Device → List String → Option (List ℕ) → List Call × Checked Installed
launch d [] content = ([], refused no_installer)
launch d (c ∷ cs) content =
    (record { command = c ∷ cs; content = content } ∷ [], finish c (d.run (c ∷ cs) content))

-- The two versions that `apply_update` compares.
abbrev pub versions : Device → String → Checked (List ℕ × List ℕ)
versions d target = parse_version d.world d.digits target >>= λ v.
    parse_version d.world d.digits d.version >>= λ u. passed (v, u)

-- `installer_cmd` is empty for None.
unfoldable pub apply_update :
    Device → String → String → Bool → List String → Files → List Call × Checked Installed
apply_update d path target force installer_cmd files = elim (versions d target) [
  | crashed ↦ ([], crashed)
  | refused e ↦ ([], refused unparseable)
  | passed (v, u) ↦
      if not force && version_le v u
      then ([], refused rollback)
      else launch d (elim installer_cmd [ [] ↦ installer_for d path | c ∷ cs ↦ c ∷ cs ])
          (lookup String_discrete path files)
]

-- What `auto_apply` returns.
pub data Ending : Type 0 where
  unchanged : Release → Ending
  updated : String → Installed → Ending

-- The first kind of the order that the manifest has.
abbrev pub first_of : List String → Fields → Option (String × Json)
first_of [] fs = none
first_of (k ∷ ks) fs =
    let rest = first_of ks fs in elim (get k fs) [ none ↦ rest | some j ↦ some (k, j) ]

abbrev pub choose : String → Fields → Option (String × Json)
choose kind fs = elim (get "artifacts" fs) [
  | none ↦ none
  | some j ↦ elim (fields_of j) [
    | none ↦ none
    | some artifacts ↦
        first_of (if kind ≐ "auto" then "deb" ∷ "wheel" ∷ [] else kind ∷ []) artifacts
  ]
]

-- What is left of the directory, the installers that ran, the result.
pub record Run : Type 0 where
  pub files : Files
  pub calls : List Call
  pub result : Checked Ending

abbrev pub stop : Files → Checked Ending → Run
stop files result = record { files = files; calls = []; result = result }

abbrev pub ended : String → Checked Installed → Checked Ending
ended kind outcome = outcome >>= λ i. passed (updated kind i)

-- `apply_update(path, doc["version"], force=force)` of a file that was downloaded.
abbrev pub hand_over : Device → Fields → String → String → Bool → Files → Run
hand_over d fs kind path force files = elim (get "version" fs) [
  | none ↦ stop files crashed
  | some j ↦
      let done = apply_update d path (str d.world j) force [] files in
      record { files = files; calls = done.0; result = ended kind done.1 }
]

abbrev pub install_artifact : Device → Fields → String → Fields → Bool → Files → Run
install_artifact d fs kind entry force files =
    let done = download_artifact d entry files in
    elim done.1 [
      | passed path ↦ hand_over d fs kind path force done.0
      | refused e ↦ stop done.0 (refused e)
      | crashed ↦ stop done.0 crashed
    ]

abbrev pub apply_release : Device → String → Bool → Release → Files → Run
apply_release d kind force r files =
    if not r.update_available && not force
    then stop files (passed (unchanged r))
    else elim (choose kind r.document) [
      | none ↦ stop files (refused no_suitable)
      | some (k, j) ↦ elim (fields_of j) [
        | none ↦ stop files crashed
        | some entry ↦ install_artifact d r.document k entry force files
      ]
    ]

-- `auto_apply` with a directory of its caller's, at the time `now`.
unfoldable pub auto_apply : Device → ℕ → String → Bool → Bool → Option Json → Files → Run
unfolding apply_update download_artifact check
auto_apply d now kind force allow_expired fetched files =
    elim (check d.world d.digits now allow_expired d.version fetched) [
      | passed r ↦ apply_release d kind force r files
      | refused e ↦ stop files (refused e)
      | crashed ↦ stop files crashed
    ]
