-- ===== src/Feeds.antt =====
-- Signed signature feeds (aegorx/signing/feed.py): verification, expiry and replay of a document, and its entries in the
-- signature database. Feeds.Rules has the rules of a feed, and Feeds.Update the command that applies one.
--
-- `World` is what the module asks of Python's library and of the package cryptography: texts, `int` of a
-- text, times, `json.dumps`, base64, and the keys that are installed, of which one that does not load
-- verifies nothing. A FeedError is `bad` with what it says, and `crash` is an exception of another kind.
pub mod Rules
pub mod Update
pub mod Normal
pub mod Synced
pub mod Signed
pub mod Accepted
pub mod Replayed
pub mod Stored
mod Tests
use aegor_x.Prelude.{
  ℕ, zero, suc, ◌+◌, ◌-◌, ◌/◌, String, Bool, true, false, ◌&&◌, ◌||◌, not, Option, none, some, List,
  [], ◌∷◌, ◌≐◌, ◌==◌, ltb, leb, min, if◌then◌else◌,
}
use aegor_x.Json.{
  Json, Fields, null, boolean, whole, negative, float, text, array, object, end, field, get, unit,
  fields_of, list_of, text_of, is_true,
}
use aegor_x.Signatures.{Row}
use aegor_x.Signatures

pub data ℤ : Type 0 where
  pos : ℕ → ℤ
  negsuc : ℕ → ℤ

pub data Problem : Type 0 where
  not_a_feed bad_version no_signature bad_base64 no_keys unverified bad_time expired no_array
        bad_rules :
      Problem

pub data Outcome {ℓ} (A : Type ℓ) : Type ℓ where
  ok : A → Outcome A
  bad : Problem → Outcome A
  crash : Outcome A

infixl 5 ◌>>=◌
abbrev pub ◌>>=◌ {ℓ κ} : {A : Type ℓ} {B : Type κ} → Outcome A → (A → Outcome B) → Outcome B
ok a >>= f = f a
bad p >>= f = bad p
crash >>= f = crash

pub record Key : Type 0 where
  pub fingerprint : String
  pub verify : String → String → Bool

pub record World : Type 0 where
  pub show : Json → String
  pub strip : String → String
  pub lower : String → String
  pub len : String → ℕ
  pub size : String → ℕ
  pub digest : String → String
  pub parse_int : String → Option ℤ
  pub parse_utc : Json → Option ℕ
  pub canonical : Fields → String
  pub decode : String → Option String
  pub trusted : List Key
  pub database : Signatures.Text

-- int(x), where it raises nothing
abbrev pub to_int : World → Json → Option ℤ
to_int w null = none
to_int w (boolean b) = some (pos (if b then 1 else 0))
to_int w (whole n) = some (pos n)
to_int w (negative n) = some (negsuc n)
to_int w (float false n) = some (pos (n / unit))
to_int w (float true n) = elim (n / unit) [ zero ↦ some (pos 0) | suc m ↦ some (negsuc m) ]
to_int w (text s) = w.parse_int s
to_int w (array xs) = none
to_int w (object fs) = none

-- str(x)
abbrev pub str : World → Json → String
str w j = elim (text_of j) [ none ↦ w.show j | some s ↦ s ]

-- The `dict` without its signature.
abbrev pub unsigned : Fields → Fields
unsigned end = end
unsigned (field k v fs) = let rest = unsigned fs in if k ≐ "signature" then rest else field k v rest

abbrev pub is_feed : Fields → Bool
is_feed fs = elim (get "format" fs) [ some (text s) ↦ s ≐ "aegorx-signature-feed" | _ ↦ false ]

abbrev pub is_version_one : World → Fields → Bool
is_version_one w fs = elim (get "feed_version" fs) [
  | none ↦ false
  | some j ↦ elim (to_int w j) [ some (pos n) ↦ n == 1 | _ ↦ false ]
]

-- The first key that verifies the signature.
abbrev pub first_key : List Key → String → String → Outcome String
first_key [] sig payload = bad unverified
first_key (k ∷ ks) sig payload =
    let rest = first_key ks sig payload in if k.verify sig payload then ok k.fingerprint else rest

-- The tests of a feed's signature, as `verify_document` makes them.
abbrev pub verify_signature : World → Fields → Outcome String
verify_signature w fs = elim (get "signature" fs) [
  | some (text s) ↦ if s ≐ "" then bad no_signature else elim (w.decode s) [
    | none ↦ bad bad_base64
    | some sig ↦ elim w.trusted [
      | [] ↦ bad no_keys
      | k ∷ ks ↦ first_key (k ∷ ks) sig (w.canonical (unsigned fs))
    ]
  ]
  | _ ↦ bad no_signature
]

-- `verify_document`, with no further keys: the fingerprint of the key that matched
unfoldable pub verify_document : World → Json → Outcome String
verify_document w doc = elim (fields_of doc) [
  | none ↦ bad not_a_feed
  | some fs ↦
      if not (is_feed fs)
      then bad not_a_feed
      else if not (is_version_one w fs)
      then bad bad_version
      else verify_signature w fs
]

-- `parse_utc`
abbrev pub parse_utc : World → Json → Outcome ℕ
parse_utc w j = elim (w.parse_utc j) [ none ↦ bad bad_time | some t ↦ ok t ]

-- `check_expiry`; a time that is missing or empty never expires
unfoldable pub check_expiry : World → ℕ → Bool → Fields → Outcome {0} Unit
check_expiry w now allow_expired fs = elim (get "expires_utc" fs) [
  | none ↦ ok tt
  | some j ↦
      if not (is_true j)
      then ok tt
      else (parse_utc w j >>= λ t. if ltb t now && not allow_expired then bad expired else ok tt)
]

-- doc["generated_utc"], parsed; a KeyError where it is missing
abbrev pub generated_of : World → Fields → Outcome ℕ
generated_of w fs = elim (get "generated_utc" fs) [ none ↦ crash | some j ↦ parse_utc w j ]

-- `check_replay`, on the time that was recorded last; what is missing or empty is no record
unfoldable pub check_replay : World → Bool → Fields → Option Json → Outcome Bool
check_replay w force fs last = generated_of w fs >>= λ generated. elim last [
  | none ↦ ok true
  | some j ↦
      if not (is_true j) || force then ok true else (parse_utc w j >>= λ t. ok (ltb t generated))
]

-- `record_applied`
unfoldable pub record_applied : World → Fields → Option Json → Outcome (Option Json)
record_applied w fs last = generated_of w fs >>= λ generated. elim last [
  | none ↦ ok (get "generated_utc" fs)
  | some j ↦
      if not (is_true j)
      then ok (get "generated_utc" fs)
      else (parse_utc w j >>= λ t.
          if leb generated t then ok (some j) else ok (get "generated_utc" fs))
]

-- An integer as far as a severity is clamped: what is negative counts as 0.
abbrev pub severity_of : ℤ → ℕ
severity_of (pos n) = n
severity_of (negsuc n) = 0

-- str(rec.get(key, "") or "")
abbrev pub str_or : World → Option Json → String
str_or w none = ""
str_or w (some j) = if is_true j then str w j else ""

-- int(rec.get("severity", default)), where it raises nothing
abbrev pub severity_at : World → ℕ → Fields → Option ℕ
severity_at w default rec = elim (get "severity" rec) [
  | none ↦ some default
  | some j ↦ elim (to_int w j) [ none ↦ none | some n ↦ some (severity_of n) ]
]

-- The row of an entry that has a digest and a name; `none` where `int` raises.
abbrev pub row_of : World → Fields → Json → Json → Option Row
row_of w rec sha256 name = elim (severity_at w 8 rec) [
  | none ↦ none
  | some severity ↦ some (record {
    sha256 = str w sha256;
    md5 = str_or w (get "md5" rec);
    sha1 = str_or w (get "sha1" rec);
    name = str w name;
    family = str_or w (get "family" rec);
    severity = severity;
    source = "feed";
    added_at = 0;
  })
]

-- rec.get(key), where it is true
abbrev pub true_at : String → Fields → Option Json
true_at key rec = elim (get key rec) [ none ↦ none | some j ↦ if is_true j then some j else none ]

-- What an entry comes to: it is passed over, it raises, or it is added.
pub data Entry : Type 0 where
  passed : Entry
  raised : Entry
  entered : Row → Entry

abbrev pub entry_of : World → Json → Entry
entry_of w x = elim (fields_of x) [
  | none ↦ passed
  | some rec ↦ elim (true_at "sha256" rec) [
    | none ↦ passed
    | some sha256 ↦ elim (true_at "name" rec) [
      | none ↦ passed
      | some name ↦ elim (row_of w rec sha256 name) [ none ↦ raised | some row ↦ entered row ]
    ]
  ]
]

-- The loop of `apply_feed`: the table behind it, and the number that was added, or `none` for an exception.
unfoldable pub apply_entries : World → ℕ → List Json → List Row → ℕ → List Row × Option ℕ
apply_entries w now [] rows added = (rows, some added)
apply_entries w now (x ∷ xs) rows added = elim (entry_of w x) [
  | passed ↦ apply_entries w now xs rows added
  | raised ↦ (rows, none)
  | entered row ↦
      let done = Signatures.add w.database now row rows in
      apply_entries w now xs done.0 (added + done.1)
]

-- doc.get("signatures"), where it is a list
abbrev pub signatures_of : Fields → Option (List Json)
signatures_of fs = elim (get "signatures" fs) [ none ↦ none | some j ↦ list_of j ]

-- `apply_feed`
unfoldable pub apply_feed : World → ℕ → Fields → List Row → List Row × Outcome ℕ
unfolding apply_entries
apply_feed w now fs rows = elim (signatures_of fs) [
  | none ↦ (rows, bad no_array)
  | some xs ↦
      let done = apply_entries w now xs rows 0 in
      (done.0, elim done.1 [ none ↦ crash | some n ↦ ok n ])
]
