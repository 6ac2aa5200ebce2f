-- ===== src/Updates/Accepted.antt =====
-- What `auto_apply` of aegorx/update.py runs comes from a release that `check` lets through.
use aegor_x.Prelude.{
  ℕ, ◌≡◌, sym, ◌⊎◌, ◌∙◌, ap, Bool-cases, inl, inr, refl, String, Bool, true, Option, none, some, [],
  arith, Option-cases,
}
use aegor_x.Json.{
  Json, Fields, null, boolean, whole, negative, float, text, array, object, get, fields_of,
}
use aegor_x.Feeds.{World, Outcome, check_expiry, verify_signature}
use aegor_x.Feeds.Signed.{IsSigned, IsFresh, verify_signature-IsSigned, check_expiry-IsFresh}
use aegor_x.Feeds
use aegor_x.Feeds.Rules.{str_at}
use aegor_x.Updates.Versions.{Digits}
use aegor_x.Updates.{
  Checked, passed, refused, crashed, ◌>>=◌, Release, check, verify_manifest, from_outcome, is_newer,
  is_manifest, is_version_one, artifacts_of, check_artifacts,
}
use aegor_x.Updates.Download.{Device, Files}
use aegor_x.Updates.Install.{auto_apply}
use aegor_x.Updates.Installed.{IsChecked, apply_release-calls}

bind-passed :
    {A : Type 0} {B : Type 0} (c : Checked A) (f : A → Checked B) (b : B)
    → (c >>= f) ≡ passed b
    → (a : A) × (c ≡ passed a) × (f a ≡ passed b)
bind-passed (passed a) f b h = (a, refl, h)
bind-passed (refused e) f b h = absurd (ground arith)
bind-passed crashed f b h = absurd (ground arith)

from_outcome-ok : {A : Type 0} (c : Outcome A) (a : A) → from_outcome c ≡ passed a → c ≡ Feeds.ok a
from_outcome-ok (Feeds.ok b) a h = ground arith
from_outcome-ok (Feeds.bad p) a h = absurd (ground arith)
from_outcome-ok Feeds.crash a h = absurd (ground arith)

-- A manifest that `check` lets through.
pub record IsPassed (w : World) (now : ℕ) (allow_expired : Bool) (fetched : Option Json)
    (fs : Fields) : Type 0 where
  pub doc : Json
  pub fingerprint : String
  pub arrived : fetched ≡ some doc
  pub verified : verify_manifest w doc ≡ passed fingerprint
  pub is_dict : fields_of doc ≡ some fs
  pub fresh : check_expiry w now allow_expired fs ≡ Feeds.ok tt

same_document : (a b : Release) → passed a ≡ passed b → a.document ≡ b.document
same_document a b h = ground arith

pub check-IsPassed :
    (w : World) (d : Digits) (now : ℕ) (allow_expired : Bool) (current : String)
    (fetched : Option Json) (r : Release)
    → check w d now allow_expired current fetched ≡ passed r
    → IsPassed w now allow_expired fetched r.document
unfolding check
check-IsPassed w d now allow_expired current none r h = absurd (ground arith)
check-IsPassed w d now allow_expired current (some doc) r h =
    let (fingerprint, a, h) = bind-passed (verify_manifest w doc) _ r h in
    elim (Option-cases (fields_of doc)) [
      | inl e ↦ absurd (ground arith)
      | inr (found, e) ↦ accept fingerprint a found e (rw e at h)
    ]
  where
    accept :
        (fingerprint : String)
        → verify_manifest w doc ≡ passed fingerprint
        → (found : Fields) → fields_of doc ≡ some found
        → (from_outcome (check_expiry w now allow_expired found) >>= λ _.
            is_newer w d (str_at w "version" found) current >>= λ newer. passed (record {
              available = str_at w "version" found;
              update_available = newer;
              key_fingerprint = fingerprint;
              document = found;
            }))
          ≡ passed r
        → IsPassed w now allow_expired (some doc) r.document
    accept fingerprint a found e h =
        let (u, b, h) = bind-passed (from_outcome (check_expiry w now allow_expired found)) _ r h in
        let (newer, c, h) = bind-passed (is_newer w d (str_at w "version" found) current) _ r h in
        let same : found ≡ r.document = same_document _ r h in
        record {
          doc = doc;
          fingerprint = fingerprint;
          arrived = refl;
          verified = a;
          is_dict = rw (sym same) e;
          fresh = rw (sym same) (from_outcome-ok (check_expiry w now allow_expired found) u b);
        }

-- A manifest whose signature a trusted key verifies for its other entries, in time.
pub record IsAccepted (w : World) (now : ℕ) (allow_expired : Bool) (fetched : Option Json)
    (fs : Fields) : Type 0 where
  pub arrived : fetched ≡ some (object fs)
  pub is_format : get "format" fs ≡ some (text "aegorx-update-manifest")
  pub is_signed : IsSigned w fs
  pub is_fresh : IsFresh w now allow_expired fs

format_of :
    (fs : Fields) → is_manifest fs ≡ true → get "format" fs ≡ some (text "aegorx-update-manifest")
format_of fs h = this (get "format" fs) refl
  where
    this :
        (j : Option Json)
        → get "format" fs ≡ j
        → get "format" fs ≡ some (text "aegorx-update-manifest")
    this (some (text s)) e =
        let same : s ≡ "aegorx-update-manifest" = ground arith in e ∙ ap (λ x. some (text x)) same
    this none e = absurd (ground arith)
    this (some null) e = absurd (ground arith)
    this (some (boolean b)) e = absurd (ground arith)
    this (some (whole n)) e = absurd (ground arith)
    this (some (negative n)) e = absurd (ground arith)
    this (some (float b n)) e = absurd (ground arith)
    this (some (array xs)) e = absurd (ground arith)
    this (some (object gs)) e = absurd (ground arith)

verify_manifest-parts :
    (w : World) (doc : Json) (fs : Fields) (f : String)
    → fields_of doc ≡ some fs
    → verify_manifest w doc ≡ passed f
    → (is_manifest fs ≡ true) × (verify_signature w fs ≡ Feeds.ok f)
unfolding verify_manifest
verify_manifest-parts w doc fs f e h = elim (Bool-cases (is_manifest fs)) [
  | inr a ↦ absurd (ground arith)
  | inl a ↦ elim (Bool-cases (is_version_one fs)) [
    | inr b ↦ absurd (ground arith)
    | inl b ↦ elim (Option-cases (artifacts_of fs)) [
      | inl c ↦ absurd (ground arith)
      | inr (artifacts, c) ↦
          let (u, checked, signed) =
            bind-passed (check_artifacts w artifacts) (λ _. from_outcome (verify_signature w fs)) f
              (rw (verify_manifest, e, a, b, c) at h) in
          (a, from_outcome-ok (verify_signature w fs) f signed)
    ]
  ]
]

dict_of : (doc : Json) (fs : Fields) → fields_of doc ≡ some fs → doc ≡ object fs
unfolding fields_of
dict_of doc fs h = ground arith

IsPassed-IsAccepted :
    (w : World) (now : ℕ) (allow_expired : Bool) (fetched : Option Json) (fs : Fields)
    → IsPassed w now allow_expired fetched fs
    → IsAccepted w now allow_expired fetched fs
IsPassed-IsAccepted w now allow_expired fetched fs a =
    let (format, signed) = verify_manifest-parts w a.doc fs a.fingerprint a.is_dict a.verified in
    record {
      arrived = a.arrived ∙ ap some (dict_of a.doc fs a.is_dict);
      is_format = format_of fs format;
      is_signed = verify_signature-IsSigned w fs a.fingerprint signed;
      is_fresh = check_expiry-IsFresh w now allow_expired fs a.fresh;
    }

-- An automatic update runs no installer, or one: apt-get or pip, on the path of a file that is left behind
-- with the size and the digest that the manifest has for an artifact of the wanted kind; a trusted key
-- verifies the signature of the manifest for its other entries, and it has no time of expiry, or one that
-- is not before now, unless expired manifests are allowed; and its version is newer than the one that runs,
-- or force is given.
pub auto_apply-IsAccepted :
    (d : Device) (now : ℕ) (kind : String) (force allow_expired : Bool) (fetched : Option Json)
    (files : Files)
    → ((auto_apply d now kind force allow_expired fetched files).calls ≡ [])
      ⊎ ((fs : Fields) × IsAccepted d.world now allow_expired fetched fs
          × IsChecked d kind force fs (auto_apply d now kind force allow_expired fetched files))
unfolding auto_apply
auto_apply-IsAccepted d now kind force allow_expired fetched files =
    this (check d.world d.digits now allow_expired d.version fetched) refl
  where
    this :
        (c : Checked Release)
        → check d.world d.digits now allow_expired d.version fetched ≡ c
        → ((auto_apply d now kind force allow_expired fetched files).calls ≡ [])
          ⊎ ((fs : Fields) × IsAccepted d.world now allow_expired fetched fs
              × IsChecked d kind force fs (auto_apply d now kind force allow_expired fetched files))
    this (passed r) e = elim (apply_release-calls d kind force r files) [
      | inl z ↦ inl (rw (auto_apply, e) z)
      | inr z ↦ inr (
        r.document,
        IsPassed-IsAccepted d.world now allow_expired fetched r.document
            (check-IsPassed d.world d.digits now allow_expired d.version fetched r e),
        rw (auto_apply, e) z,
      )
    ]
    this (refused x) e = inl (rw (auto_apply, e) refl)
    this crashed e = inl (rw (auto_apply, e) refl)
