-- ===== src/Updates/Installed.antt =====
-- What holds of every installer that `auto_apply` (aegorx/update.py) runs.
use aegor_x.Prelude.{
  ℕ, ◌≡◌, sym, ◌⊎◌, inl, inr, refl, ap, ◌∙◌, ◌++◌, ◌||◌, String, String_discrete, Bool, true, false,
  not, ◌&&◌, some, List, [], ◌∷◌, arith, length, Option-cases, Bool-cases, lookup,
}
use aegor_x.Json.{Json, Fields, get, fields_of}
use aegor_x.Feeds.{str}
use aegor_x.Updates.Versions.{version_lt, version_le, version_lt-version_le}
use aegor_x.Updates.{Checked, passed, refused, crashed, Release}
use aegor_x.Updates.Fetched.{sha256_of, download_artifact-IsFetched}
use aegor_x.Updates.Download.{Device, Files, download_artifact, expected_size}
use aegor_x.Updates.Install.{
  Call, Run, apply_release, install_artifact, hand_over, choose, apply_update, installer_for,
  versions, launch,
}

-- The text of the version is that of a newer version than the one that runs.
pub record IsNewer (d : Device) (version : String) : Type 0 where
  pub target : List ℕ
  pub running : List ℕ
  pub parsed : versions d version ≡ passed (target, running)
  pub above : version_lt running target ≡ true

-- The installers, each with its arguments before the path.
pub data IsInstaller (d : Device) : List String → Type 0 where
  apt : IsInstaller d ("apt-get" ∷ "install" ∷ "-y" ∷ [])
  pip : IsInstaller d (d.executable ∷ "-m" ∷ "pip" ∷ "install" ∷ "--upgrade" ∷ [])

-- One installer was run on the path, with the file that stands there among the files.
pub record IsLaunched (d : Device) (files : Files) (path : String) (calls : List Call)
    : Type 0 where
  pub before : List String
  pub installer : IsInstaller d before
  pub once :
      calls
      ≡ record { command = before ++ path ∷ []; content = lookup String_discrete path files } ∷ []

launch-calls :
    (d : Device) (path : String) (files : Files)
    → ((launch d (installer_for d path) (lookup String_discrete path files)).0 ≡ [])
      ⊎ IsLaunched d files path
          (launch d (installer_for d path) (lookup String_discrete path files)).0
launch-calls d path files = elim (Bool-cases (d.ends_with (d.world.lower path) ".deb")) [
  | inl deb ↦ elim (Bool-cases (d.is_root && d.has_apt_get)) [
    | inl can ↦
        rw (deb, can)
          (inr
            (record { before = "apt-get" ∷ "install" ∷ "-y" ∷ []; installer = apt; once = refl }))
    | inr not_root ↦ rw (deb, not_root) (inl refl)
  ]
  | inr no_deb ↦
      elim (Bool-cases
        (d.ends_with (d.world.lower path) ".whl" || d.ends_with (d.world.lower path) ".tar.gz")) [
          | inl wheel ↦
              rw (no_deb, wheel)
                (inr (record {
                  before = d.executable ∷ "-m" ∷ "pip" ∷ "install" ∷ "--upgrade" ∷ [];
                  installer = pip;
                  once = refl;
                }))
          | inr none_of ↦ rw (no_deb, none_of) (inl refl)
        ]
]

guard_open : (force b : Bool) → (not force && b) ≡ false → (force ≡ true) ⊎ (b ≡ false)
guard_open force b h = ground arith

apply_update-calls :
    (d : Device) (path t : String) (force : Bool) (files : Files)
    → ((apply_update d path t force [] files).0 ≡ [])
      ⊎ (IsLaunched d files path (apply_update d path t force [] files).0
          × ((force ≡ true) ⊎ IsNewer d t))
unfolding apply_update
apply_update-calls d path t force files = this (versions d t) refl
  where
    this :
        (c : Checked (List ℕ × List ℕ))
        → versions d t ≡ c
        → ((apply_update d path t force [] files).0 ≡ [])
          ⊎ (IsLaunched d files path (apply_update d path t force [] files).0
              × ((force ≡ true) ⊎ IsNewer d t))
    this crashed e = inl (rw (apply_update, e) refl)
    this (refused x) e = inl (rw (apply_update, e) refl)
    this (passed (v, u)) e = elim (Bool-cases (not force && version_le v u)) [
      | inl g ↦ inl (rw (apply_update, e, g) refl)
      | inr g ↦ elim (launch-calls d path files) [
        | inl z ↦ inl (rw (apply_update, e, g) z)
        | inr z ↦ inr (
          record {
            before = z.before;
            installer = z.installer;
            once = rw (apply_update, e, g) z.once;
          },
          elim (guard_open force (version_le v u) g) [
            | inl f ↦ inl f
            | inr f ↦ inr (record {
              target = v;
              running = u;
              parsed = e;
              above = version_lt-version_le u v f;
            })
          ],
        )
      ]
    ]

-- The installer ran on a path where a file stands, among those that are left, whose size and digest are
-- those of a chosen artifact.
pub record IsChecked (d : Device) (kind : String) (force : Bool) (fs : Fields) (run : Run)
    : Type 0 where
  pub chosen : String × Json
  pub entry : Fields
  pub before : List String
  pub path : String
  pub content : List ℕ
  pub picked : choose kind fs ≡ some chosen
  pub is_dict : fields_of chosen.1 ≡ some entry
  pub installer : IsInstaller d before
  pub once : run.calls ≡ record { command = before ++ path ∷ []; content = some content } ∷ []
  pub stored : lookup String_discrete path run.files ≡ some content
  pub long : expected_size d.world entry ≡ passed (some (length content))
  pub digested : d.hexdigest content ≡ sha256_of d entry
  pub allowed :
      (force ≡ true)
      ⊎ ((version : Json) × (get "version" fs ≡ some version) × IsNewer d (str d.world version))

abbrev pub IsAllowed : Device → Fields → Bool → Type 0
IsAllowed d fs force =
    (force ≡ true)
    ⊎ ((version : Json) × (get "version" fs ≡ some version) × IsNewer d (str d.world version))

hand_over-calls :
    (d : Device) (fs : Fields) (kind path : String) (force : Bool) (files : Files)
    (content : List ℕ)
    → lookup String_discrete path files ≡ some content
    → ((hand_over d fs kind path force files).calls ≡ [])
      ⊎ ((before : List String) × IsInstaller d before
          × ((hand_over d fs kind path force files).calls
              ≡ record { command = before ++ path ∷ []; content = some content } ∷ [])
          × ((hand_over d fs kind path force files).files ≡ files)
          × IsAllowed d fs force)
hand_over-calls d fs kind path force files content s = elim (Option-cases (get "version" fs)) [
  | inl e ↦ inl (rw (hand_over, e) refl)
  | inr (j, e) ↦ elim (apply_update-calls d path (str d.world j) force files) [
    | inl z ↦ inl (rw (hand_over, e) z)
    | inr (launched, allowed) ↦ inr (
      launched.before,
      launched.installer,
      rw (hand_over, e, sym s) launched.once,
      rw (hand_over, e) refl,
      elim allowed [ inl f ↦ inl f | inr newer ↦ inr (j, e, newer) ],
    )
  ]
]

install_artifact-calls :
    (d : Device) (fs : Fields) (kind : String) (chosen : String × Json) (entry : Fields)
    (force : Bool) (files : Files)
    → choose kind fs ≡ some chosen
    → fields_of chosen.1 ≡ some entry
    → ((install_artifact d fs chosen.0 entry force files).calls ≡ [])
      ⊎ IsChecked d kind force fs (install_artifact d fs chosen.0 entry force files)
install_artifact-calls d fs kind chosen entry force files p q =
    this (download_artifact d entry files).1 refl
  where
    this :
        (c : Checked String)
        → (download_artifact d entry files).1 ≡ c
        → ((install_artifact d fs chosen.0 entry force files).calls ≡ [])
          ⊎ IsChecked d kind force fs (install_artifact d fs chosen.0 entry force files)
    this crashed e = inl (rw (install_artifact, e) refl)
    this (refused x) e = inl (rw (install_artifact, e) refl)
    this (passed path) e =
        let (n, sized, f) = download_artifact-IsFetched d entry files path e in
        elim (hand_over-calls d fs chosen.0 path force (download_artifact d entry files).0 f.content
          f.stored) [
            | inl z ↦ inl (rw (install_artifact, e) z)
            | inr (before, installer, once, kept, allowed) ↦ inr (record {
              chosen = chosen;
              entry = entry;
              before = before;
              path = path;
              content = f.content;
              picked = p;
              is_dict = q;
              installer = installer;
              once = rw (install_artifact, e) once;
              stored =
                  rw (install_artifact, e)
                    (ap (λ x. lookup String_discrete path x) kept ∙ f.stored);
              long = rw f.long sized;
              digested = f.digested;
              allowed = allowed;
            })
          ]

pub apply_release-calls :
    (d : Device) (kind : String) (force : Bool) (r : Release) (files : Files)
    → ((apply_release d kind force r files).calls ≡ [])
      ⊎ IsChecked d kind force r.document (apply_release d kind force r files)
apply_release-calls d kind force r files = elim (Bool-cases (not r.update_available && not force)) [
  | inl e ↦ inl (rw (apply_release, e) refl)
  | inr e ↦ elim (Option-cases (choose kind r.document)) [
    | inl f ↦ inl (rw (apply_release, e, f) refl)
    | inr (chosen, f) ↦ elim (Option-cases (fields_of chosen.1)) [
      | inl g ↦ inl (rw (apply_release, e, f, g) refl)
      | inr (entry, g) ↦
          rw (apply_release, e, f, g)
            (install_artifact-calls d r.document kind chosen entry force files f g)
    ]
  ]
]
