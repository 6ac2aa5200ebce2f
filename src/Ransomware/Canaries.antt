-- ===== src/Ransomware/Canaries.antt =====
-- `CanaryManager` of aegorx/ransomware.py: deploying the decoy files and checking them.
--
-- `Files` is the file system as one call sees it: what exists, each file's SHA-256 ("" where it cannot
-- be read), which files can be written, `os.path.join`, and the hash of the canary text once written.
use aegor_x.Prelude.{
  ℕ, suc, ◌+◌, ◌-◌, String, Bool, true, ◌||◌, not, Option, none, some, List, [], ◌∷◌, ◌++◌, take,
  ◌≐◌, any, if◌then◌else◌,
}

pub record Canary : Type 0 where
  pub path : String
  pub directory : String
  pub original_hash : String
  pub created_at : ℕ
  pub last_checked : ℕ

pub record Files : Type 0 where
  pub exists : String → Bool
  pub file_hash : String → String
  pub is_dir : String → Bool
  pub writable : String → Bool
  pub join : String → String → String
  pub written_hash : String → String

pub data Reason : Type 0 where
  deleted modified : Reason

unfoldable pub hash_matches : Canary → String → Bool
hash_matches c current = if c.original_hash ≐ "" then true else c.original_hash ≐ current

-- One round of the loop of `check_all`.
unfoldable pub check_one : Files → Canary → Option Reason
unfolding hash_matches
check_one files c =
    if not (files.exists c.path)
    then some deleted
    else if hash_matches c (files.file_hash c.path)
    then none
    else some modified

-- A canary that is gone keeps its time of the last check.
abbrev checked : ℕ → Option Reason → Canary → Canary
checked now (some deleted) c = c
checked now _ c = record c { last_checked = now }

abbrev noted : Canary → Option Reason → List (Canary × Reason) → List (Canary × Reason)
noted c none rest = rest
noted c (some r) rest = (c, r) ∷ rest

unfoldable pub check_all : ℕ → Files → List Canary → List Canary × List (Canary × Reason)
unfolding check_one
check_all now files [] = ([], [])
check_all now files (c ∷ cs) =
    let (cs', found) = check_all now files cs in
    let result = check_one files c in
    (checked now result c ∷ cs', noted (checked now result c) result found)

abbrev pub canary_names : List String
canary_names =
    "financial_records.xlsx" ∷ "passwords.docx" ∷ "tax_return_2024.pdf" ∷ "backup_credentials.txt"
    ∷ "crypto_wallet.dat" ∷ "ssh_keys_backup.pem" ∷ "database_passwords.txt"
    ∷ "client_list.confidential.xlsx" ∷ "project_roadmap秘密.docx" ∷ "salary_information.xlsx" ∷ []

abbrev pub in_directory : String → List Canary → ℕ
in_directory directory [] = 0
in_directory directory (c ∷ cs) =
    let rest = in_directory directory cs in if c.directory ≐ directory then suc rest else rest

-- The loop over the names: a name is passed over where its path is a canary, exists, or cannot be
-- written.
unfoldable pub deploy_names : ℕ → Files → String → List String → List Canary → ℕ → List Canary × ℕ
deploy_names now files directory [] cs n = (cs, n)
deploy_names now files directory (name ∷ names) cs n =
    let path = files.join directory name in
    let skip = any (λ c. c.path ≐ path) cs || files.exists path || not (files.writable path) in
    let new : Canary = record {
      path = path;
      directory = directory;
      original_hash = files.written_hash path;
      created_at = now;
      last_checked = 0;
    } in
    deploy_names now files directory names (if skip then cs else cs ++ new ∷ [])
      (if skip then n else n + 1)

-- `_deploy_to_directory`; without room the loop has no name to go through.
unfoldable pub deploy_to_directory : ℕ → ℕ → Files → String → List Canary → List Canary × ℕ
unfolding deploy_names
deploy_to_directory now max_canaries files directory cs =
    deploy_names now files directory (take (max_canaries - in_directory directory cs) canary_names)
      cs 0

-- `deploy`
unfoldable pub deploy : ℕ → ℕ → Files → List String → List Canary → ℕ → List Canary × ℕ
unfolding deploy_to_directory
deploy now max_canaries files [] cs n = (cs, n)
deploy now max_canaries files (d ∷ ds) cs n =
    let (cs', k) = deploy_to_directory now max_canaries files d cs in
    deploy now max_canaries files ds (if files.is_dir d then cs' else cs)
      (if files.is_dir d then n + k else n)
