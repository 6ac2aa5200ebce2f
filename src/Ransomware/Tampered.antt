-- ===== src/Ransomware/Tampered.antt =====
-- The canary files of aegorx/ransomware.py: what a check reports, and the room in a directory.
use aegor_x.Prelude.{
  ℕ, ◌+◌, ◌-◌, ◌≤◌, String, ◌≡◌, refl, ◌↔◌, ◌⊎◌, inl, inr, true, none, List, [], ◌∷◌, ◌++◌, All,
  length, take, length-take, arith, Option-cases,
}
use aegor_x.Ransomware.Canaries.{
  Canary, Files, check_one, check_all, canary_names, in_directory, deploy_names,
  deploy_to_directory,
}

-- The decoy is there and, where a hash was taken when it was written, has that hash still.
abbrev pub Intact : Files → Canary → Type 0
Intact files c =
    (files.exists c.path ≡ true)
    × ((c.original_hash ≡ "") ⊎ (c.original_hash ≡ files.file_hash c.path))

check_one-Intact : (files : Files) (c : Canary) → (check_one files c ≡ none) ↔ Intact files c
unfolding check_one
check_one-Intact files c = (λ h. ground arith, λ h. ground arith)

check_all-cons :
    (now : ℕ) (files : Files) (c : Canary) (cs : List Canary)
    → (check_all now files (c ∷ cs)).1 ≡ []
    → (check_one files c ≡ none) × ((check_all now files cs).1 ≡ [])
unfolding check_all
check_all-cons now files c cs h = elim (Option-cases (check_one files c)) [
  | inl e ↦ (e, rw e at h)
  | inr (r, e) ↦ absurd (ground arith)
]

check_all_sound :
    (now : ℕ) (files : Files) (cs : List Canary)
    → (check_all now files cs).1 ≡ []
    → All (Intact files) cs
check_all_sound now files [] h = tt
check_all_sound now files (c ∷ cs) h =
    let (this, rest) = check_all-cons now files c cs h in
    ((check_one-Intact files c).0 this, check_all_sound now files cs rest)

check_all_complete :
    (now : ℕ) (files : Files) (cs : List Canary)
    → All (Intact files) cs
    → (check_all now files cs).1 ≡ []
unfolding check_all
check_all_complete now files [] h = refl
check_all_complete now files (c ∷ cs) h =
    rw ((check_one-Intact files c).1 h.0) (check_all_complete now files cs h.1)

-- A check reports nothing exactly when every canary is there with its hash unchanged.
pub check_all-Intact :
    (now : ℕ) (files : Files) (cs : List Canary)
    → ((check_all now files cs).1 ≡ []) ↔ All (Intact files) cs
check_all-Intact now files cs = (check_all_sound now files cs, check_all_complete now files cs)

in_directory-append :
    (directory : String) (xs ys : List Canary)
    → in_directory directory (xs ++ ys) ≡ in_directory directory xs + in_directory directory ys
in_directory-append directory [] ys = omega arith
in_directory-append directory (c ∷ cs) ys = ground (arith, in_directory-append directory cs ys)

-- Each name of the loop adds at most one canary, and the count is of those that were added.
deploy_names-count :
    (now : ℕ) (files : Files) (directory : String) (names : List String) (cs : List Canary) (n : ℕ)
    → (in_directory directory (deploy_names now files directory names cs n).0 + n
        ≡ in_directory directory cs + (deploy_names now files directory names cs n).1)
      × ((deploy_names now files directory names cs n).1 ≤ n + length names)
unfolding deploy_names
deploy_names-count now files directory [] cs n = omega arith
deploy_names-count now files directory (name ∷ names) cs n =
    let path = files.join directory name in
    let new : Canary = record {
      path = path;
      directory = directory;
      original_hash = files.written_hash path;
      created_at = now;
      last_checked = 0;
    } in
    ground (
      arith,
      deploy_names-count now files directory names cs n,
      deploy_names-count now files directory names (cs ++ new ∷ []) (n + 1),
      in_directory-append directory cs (new ∷ []),
    )

-- Deploying into a directory never takes it past the limit, and adds exactly the number returned.
pub deploy_to_directory-le :
    (now max_canaries : ℕ) (files : Files) (directory : String) (cs : List Canary)
    → in_directory directory cs ≤ max_canaries
    → (in_directory directory (deploy_to_directory now max_canaries files directory cs).0
        ≤ max_canaries)
      × (in_directory directory (deploy_to_directory now max_canaries files directory cs).0
          ≡ in_directory directory cs + (deploy_to_directory now max_canaries files directory cs).1)
unfolding deploy_to_directory
deploy_to_directory-le now max_canaries files directory cs h =
    let room = max_canaries - in_directory directory cs in
    omega (
      arith,
      deploy_names-count now files directory (take room canary_names) cs 0,
      length-take room canary_names,
    )
