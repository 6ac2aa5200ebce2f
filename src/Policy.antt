-- ===== src/Policy.antt =====
-- The central policy (aegorx/policy.py): the validation of a document, and the file that is active.
--
-- `Text` is what the module asks of Python's `str`: `strip`, and whether ".." occurs. A probability is a
-- double, and -0.0 is kept as 0.0. The file is what the last write left: a write goes to a temporary file that
-- replaces it.
pub mod Valid
pub mod Saved
mod Tests
use aegor_x.Prelude.{
  ℕ, ◌*◌, String, Bool, true, false, ◌&&◌, ◌||◌, not, Option, none, some, List, [], ◌∷◌, map, any,
  all, select, length, ◌≐◌, ◌==◌, ltb, leb, if◌then◌else◌,
}
use aegor_x.Json.{
  Json, Fields, null, boolean, whole, negative, float, text, array, object, end, field, get, keys,
  unit, fields_of, list_of, text_of, items_of,
}

pub data PolicyError : Type 0 where
  not_an_object bad_exclusions empty_pattern dotted_pattern bad_interval short_interval :
      PolicyError
  bad_paths bad_backend bad_probability unknown_fields : PolicyError

pub data Checked {ℓ} (A : Type ℓ) : Type ℓ where
  ok : A → Checked A
  err : PolicyError → Checked A

infixl 5 ◌>>=◌
abbrev pub ◌>>=◌ {ℓ κ} : {A : Type ℓ} {B : Type κ} → Checked A → (A → Checked B) → Checked B
ok a >>= f = f a
err e >>= f = err e

pub record Text : Type 0 where
  pub strip : String → String
  pub has_dots : String → Bool

-- A normalized policy.
pub record Policy : Type 0 where
  pub exclusions : List String
  pub scan_interval_seconds : ℕ
  pub scheduled_paths : List String
  pub backend : String
  pub malicious_probability : Option ℕ
  pub suspicious_probability : Option ℕ

abbrev pub backends : List String
backends = "auto" ∷ "fanotify" ∷ "inotify" ∷ "fswatch" ∷ "es" ∷ "minifilter" ∷ []

abbrev pub max_exclusions : ℕ
max_exclusions = 200

abbrev pub known_fields : List String
known_fields =
    "exclusions" ∷ "scan_interval_seconds" ∷ "scheduled_paths" ∷ "backend" ∷ "malicious_probability"
    ∷ "suspicious_probability" ∷ []

-- The loop over the patterns.
abbrev pub check_patterns : Text → List Json → Checked (List String)
check_patterns t [] = ok []
check_patterns t (x ∷ xs) =
    let rest = check_patterns t xs in
    elim (text_of x) [
      | none ↦ err empty_pattern
      | some s ↦
          if t.strip s ≐ ""
          then err empty_pattern
          else if t.has_dots s
          then err dotted_pattern
          else (rest >>= λ ss. ok (s ∷ ss))
    ]

-- [p for p in (s.strip() for s in exclusions) if p]
abbrev pub non_empty : List String → List String
non_empty xs = select (λ x. not (x ≐ "")) xs

abbrev pub check_exclusions : Text → Option Json → Checked (List String)
check_exclusions t none = ok []
check_exclusions t (some j) = elim (list_of j) [
  | none ↦ err bad_exclusions
  | some xs ↦
      if ltb max_exclusions (length xs)
      then err bad_exclusions
      else (check_patterns t xs >>= λ ss. ok (non_empty (map t.strip ss)))
]

abbrev pub check_interval : Option Json → Checked ℕ
check_interval none = ok 0
check_interval (some (whole n)) = if not (n == 0) && ltb n 60 then err short_interval else ok n
check_interval (some _) = err bad_interval

-- Whether each element is a text, with the texts then.
abbrev pub texts_of : List Json → Option (List String)
texts_of [] = some []
texts_of (x ∷ xs) =
    let rest = texts_of xs in
    elim (text_of x) [ none ↦ none | some s ↦ elim rest [ none ↦ none | some ss ↦ some (s ∷ ss) ] ]

abbrev pub check_paths : Option Json → Checked (List String)
check_paths none = ok []
check_paths (some j) = elim (list_of j) [
  | none ↦ err bad_paths
  | some xs ↦ elim (texts_of xs) [ none ↦ err bad_paths | some ss ↦ ok (non_empty ss) ]
]

abbrev pub check_backend : Option Json → Checked String
check_backend none = ok "auto"
check_backend (some j) = elim (text_of j) [
  | none ↦ err bad_backend
  | some s ↦ if any (λ b. b ≐ s) backends then ok s else err bad_backend
]

-- A number in [0, 1], and no Boolean.
abbrev pub check_probability : Option Json → Checked (Option ℕ)
check_probability none = ok none
check_probability (some null) = ok none
check_probability (some (whole n)) = if leb n 1 then ok (some (n * unit)) else err bad_probability
check_probability (some (float false n)) = if leb n unit then ok (some n) else err bad_probability
check_probability (some (float true n)) = if n == 0 then ok (some 0) else err bad_probability
check_probability (some _) = err bad_probability

abbrev pub check_keys : Fields → Checked {0} Unit
check_keys fs =
    if all (λ k. any (λ x. x ≐ k) known_fields) (keys fs) then ok tt else err unknown_fields

-- The fields of the document, in the order of the tests.
unfoldable pub check_fields : Text → Fields → Checked Policy
check_fields t fs = do
  exclusions ← check_exclusions t (get "exclusions" fs)
  interval ← check_interval (get "scan_interval_seconds" fs)
  paths ← check_paths (get "scheduled_paths" fs)
  backend ← check_backend (get "backend" fs)
  malicious ← check_probability (get "malicious_probability" fs)
  suspicious ← check_probability (get "suspicious_probability" fs)
  _ ← check_keys fs
  ok (record {
    exclusions = exclusions;
    scan_interval_seconds = interval;
    scheduled_paths = paths;
    backend = backend;
    malicious_probability = malicious;
    suspicious_probability = suspicious;
  })

-- `validate_policy`
unfoldable pub validate_policy : Text → Json → Checked Policy
unfolding check_fields
validate_policy t doc = elim (fields_of doc) [
  | none ↦ err not_an_object
  | some fs ↦ check_fields t fs
]

abbrev pub texts : List String → Json
texts ss = array (items_of (map text ss))

abbrev pub probability : String → Option ℕ → Fields → Fields
probability key none rest = rest
probability key (some n) rest = field key (float false n) rest

-- The `dict` that `validate_policy` returns.
unfoldable pub document_of : Policy → Json
document_of p = object (
    field "exclusions" (texts p.exclusions) (
      field "scan_interval_seconds" (whole p.scan_interval_seconds) (
        field "scheduled_paths" (texts p.scheduled_paths) (
          field "backend" (text p.backend) (
            probability "malicious_probability" p.malicious_probability
              (probability "suspicious_probability" p.suspicious_probability end))))))

-- `save_policy`, on the file that is active: none is no file
unfoldable pub save_policy : Text → Json → Option Json → Checked (Option Json)
save_policy t doc file = validate_policy t doc >>= λ p. ok (some (document_of p))

-- `load_policy`
unfoldable pub load_policy : Option Json → Option Fields
load_policy none = none
load_policy (some doc) = fields_of doc

-- `clear_policy`
unfoldable pub clear_policy : Option Json → Option Json × Bool
clear_policy none = (none, false)
clear_policy (some doc) = (none, true)

-- The policy half of `cmd_apply_policy` (aegorx/management/agent.py): what is validated is validated again as it
-- is saved; an error leaves the file.
unfoldable pub apply_policy : Text → Json → Option Json → Option Json × Checked Policy
unfolding validate_policy save_policy document_of
apply_policy t args file = elim (validate_policy t args) [
  | err e ↦ (file, err e)
  | ok p ↦ elim (save_policy t (document_of p) file) [
    | err e ↦ (file, err e)
    | ok written ↦ (written, ok p)
  ]
]
