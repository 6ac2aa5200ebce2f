-- ===== src/Feeds/Accepted.antt =====
-- What `aegorx feed update` (aegorx/cli.py, `cmd_feed`, over aegorx/signing/feed.py) lets change the machine.
use aegor_x.Prelude.{
  ℕ, ◌≡◌, ◌⊎◌, inl, inr, refl, String, Bool, true, Option, none, some, arith, Option-cases,
  if◌then◌else◌,
}
use aegor_x.Json.{Json, Fields, text, object, get, fields_of}
use aegor_x.Feeds.{
  World, Outcome, ok, bad, crash, ◌>>=◌, verify_document, check_expiry, check_replay, parse_utc,
  to_int, pos,
}
use aegor_x.Feeds.Signed.{IsSigned, IsFresh, IsNew}
use aegor_x.Feeds.Rules.{Compiler}
use aegor_x.Feeds.Update.{Machine, examine, update}

bind-ok :
    {A : Type 0} {B : Type 0} (c : Outcome A) (f : A → Outcome B) (b : B)
    → (c >>= f) ≡ ok b
    → (a : A) × (c ≡ ok a) × (f a ≡ ok b)
bind-ok (ok a) f b h = (a, refl, h)
bind-ok (bad p) f b h = absurd (ground arith)
bind-ok crash f b h = absurd (ground arith)

pub ok_same : {A : Type 0} (a b : A) → ok a ≡ ok b → b ≡ a
ok_same a b h = ground arith

pub parse_utc-some : (w : World) (j : Json) (k : ℕ) → w.parse_utc j ≡ some k → parse_utc w j ≡ ok k
parse_utc-some w j k e = rw (parse_utc, e) refl

-- What a document that is applied has passed.
pub record IsPassed (w : World) (now : ℕ) (allow_expired force : Bool) (doc : Json)
    (last : Option Json) (fs : Fields) : Type 0 where
  pub fingerprint : String
  pub verified : verify_document w doc ≡ ok fingerprint
  pub is_dict : fields_of doc ≡ some fs
  pub fresh : check_expiry w now allow_expired fs ≡ ok tt
  pub newer : check_replay w force fs last ≡ ok true

pub examine-IsPassed :
    (w : World) (now : ℕ) (allow_expired force : Bool) (doc : Json) (last : Option Json)
    (fs : Fields)
    → examine w now allow_expired force doc last ≡ ok (some fs)
    → IsPassed w now allow_expired force doc last fs
unfolding examine
examine-IsPassed w now allow_expired force doc last fs h =
    let (fingerprint, a, h) = bind-ok (verify_document w doc) _ (some fs) h in
    elim (Option-cases (fields_of doc)) [
      | inl e ↦ absurd (ground arith)
      | inr (found, e) ↦ accept fingerprint a found e (rw e at h)
    ]
  where
    accept :
        (fingerprint : String)
        → verify_document w doc ≡ ok fingerprint
        → (found : Fields) → fields_of doc ≡ some found
        → (check_expiry w now allow_expired found >>= λ _.
            check_replay w force found last >>= λ newer. ok (if newer then some found else none))
          ≡ ok (some fs)
        → IsPassed w now allow_expired force doc last fs
    accept fingerprint a found e h =
        let (u, b, h) = bind-ok (check_expiry w now allow_expired found) _ (some fs) h in
        let (newer, c, h) = bind-ok (check_replay w force found last) _ (some fs) h in
        let (yes_newer, same) : (newer ≡ true) × (fs ≡ found) = ground arith in
        record {
          fingerprint = fingerprint;
          verified = a;
          is_dict = rw same e;
          fresh = rw same b;
          newer = rw same (rw yes_newer at c);
        }

-- What a document that is applied is: a feed of version 1 that a trusted key has signed, in time and new.
pub record IsAccepted (w : World) (now : ℕ) (allow_expired force : Bool) (doc : Json)
    (last : Option Json) (fs : Fields) : Type 0 where
  pub version : Json
  pub is_dict : doc ≡ object fs
  pub is_format : get "format" fs ≡ some (text "aegorx-signature-feed")
  pub has_version : get "feed_version" fs ≡ some version
  pub is_one : to_int w version ≡ some (pos 1)
  pub is_signed : IsSigned w fs
  pub is_fresh : IsFresh w now allow_expired fs
  pub is_new : IsNew w force fs last

pub update-IsPassed :
    (w : World) (y : Compiler) (now : ℕ) (allow_expired force : Bool) (doc : Json) (m : Machine)
    → ((update w y now allow_expired force doc m).0 ≡ m)
      ⊎ ((fs : Fields) × IsPassed w now allow_expired force doc m.last fs)
unfolding update
update-IsPassed w y now allow_expired force doc m =
    this (examine w now allow_expired force doc m.last) refl
  where
    this :
        (c : Outcome (Option Fields))
        → examine w now allow_expired force doc m.last ≡ c
        → ((update w y now allow_expired force doc m).0 ≡ m)
          ⊎ ((fs : Fields) × IsPassed w now allow_expired force doc m.last fs)
    this (ok none) e = inl (rw (update, e) refl)
    this (ok (some fs)) e = inr (fs, examine-IsPassed w now allow_expired force doc m.last fs e)
    this (bad p) e = inl (rw (update, e) refl)
    this crash e = inl (rw (update, e) refl)
