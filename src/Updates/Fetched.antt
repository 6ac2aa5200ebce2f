-- ===== src/Updates/Fetched.antt =====
-- What a download of aegorx/update.py leaves.
use package.text.Mathlib.Text.{starts_with}
use aegor_x.Prelude.{
  ℕ, ◌≡◌, sym, ap, ◌∙◌, if_pos, refl, String, String_discrete, Bool, true, false, Option, none,
  some, List, [], ◌==◌, arith, length, lookup, insert, lookup-insert,
}
use aegor_x.Json.{Fields, get}
use aegor_x.Feeds.{str_or}
use aegor_x.Updates.{Checked, passed, refused, crashed}
use aegor_x.Updates.Download.{
  Device, Files, download_artifact, download_sized, expected_size, accept, receive, has_suffix,
  before_query, fetch,
}

accept-passed :
    (d : Device) (sha256 : String) (size : ℕ) (name path : String) (content : List ℕ)
    → accept d sha256 size name content ≡ passed path
    → (length content ≡ size) × (d.hexdigest content ≡ sha256) × (name ≡ path)
accept-passed d sha256 size name path content h = ground arith

insert_self :
    (name : String) (content : List ℕ) (files : Files)
    → lookup String_discrete name (insert String_discrete name content files) ≡ some content
insert_self name content files =
    lookup-insert String_discrete name name content files
    ∙ if_pos (String_discrete name name) refl _ _

-- What a download that is given a size has left.
pub record IsFetched (d : Device) (sha256 : String) (size : ℕ) (path : String) (files : Files)
    : Type 0 where
  pub content : List ℕ
  pub stored : lookup String_discrete path files ≡ some content
  pub long : length content ≡ size
  pub digested : d.hexdigest content ≡ sha256

fetch-IsFetched :
    (d : Device) (url sha256 : String) (size : ℕ) (name : String) (files : Files) (path : String)
    → (fetch d url sha256 size name files).1 ≡ passed path
    → IsFetched d sha256 size path (fetch d url sha256 size name files).0
fetch-IsFetched d url sha256 size name files path h = this (receive [] (d.open_url url)) refl
  where
    this :
        (c : Checked (List ℕ))
        → receive [] (d.open_url url) ≡ c
        → IsFetched d sha256 size path (fetch d url sha256 size name files).0
    this (passed content) e =
        let (long, digested, same) =
          accept-passed d sha256 size name path content (rw (fetch, e) at h) in
        record {
          content = content;
          stored = rw (fetch, e, sym same) (insert_self name content files);
          long = long;
          digested = digested;
        }
    this (refused x) e = absurd (ground (arith, (rw (fetch, e) at h)))
    this crashed e = absurd (ground (arith, (rw (fetch, e) at h)))

abbrev pub sha256_of : Device → Fields → String
sha256_of d entry = d.world.lower (str_or d.world (get "sha256" entry))

download_sized-IsFetched :
    (d : Device) (entry : Fields) (url : String) (size : Option ℕ) (files : Files) (path : String)
    → (download_sized d entry url size files).1 ≡ passed path
    → (n : ℕ) × (size ≡ some n)
      × IsFetched d (sha256_of d entry) n path (download_sized d entry url size files).0
download_sized-IsFetched d entry url none files path h = absurd (ground arith)
download_sized-IsFetched d entry url (some n) files path h =
    this (d.world.len (sha256_of d entry) == 64)
      (has_suffix d (d.world.lower (d.base_name (before_query url)))) refl refl
  where
    this :
        (b c : Bool)
        → (d.world.len (sha256_of d entry) == 64) ≡ b
        → has_suffix d (d.world.lower (d.base_name (before_query url))) ≡ c
        → (m : ℕ) × (some n ≡ some m)
          × IsFetched d (sha256_of d entry) m path (download_sized d entry url (some n) files).0
    this false c e f = absurd (ground (arith, (rw e at h)))
    this true false e f = absurd (ground (arith, (rw (e, f) at h)))
    this true true e f = (
      n,
      refl,
      rw (e, f)
          (fetch-IsFetched d url (sha256_of d entry) n (d.base_name (before_query url)) files path
            (rw (e, f) at h)),
    )

pub download_artifact-IsFetched :
    (d : Device) (entry : Fields) (files : Files) (path : String)
    → (download_artifact d entry files).1 ≡ passed path
    → (n : ℕ) × (expected_size d.world entry ≡ passed (some n))
      × IsFetched d (sha256_of d entry) n path (download_artifact d entry files).0
unfolding download_artifact
download_artifact-IsFetched d entry files path h =
    this (starts_with (d.world.lower (str_or d.world (get "url" entry))) "https://")
      (expected_size d.world entry) refl refl
  where
    this :
        (b : Bool) (c : Checked (Option ℕ))
        → starts_with (d.world.lower (str_or d.world (get "url" entry))) "https://" ≡ b
        → expected_size d.world entry ≡ c
        → (n : ℕ) × (expected_size d.world entry ≡ passed (some n))
          × IsFetched d (sha256_of d entry) n path (download_artifact d entry files).0
    this false c e f = absurd (ground (arith, (rw (download_artifact, e) at h)))
    this true (passed size) e f =
        let (n, same, fetched) =
          download_sized-IsFetched d entry (str_or d.world (get "url" entry)) size files path
            (rw (download_artifact, e, f) at h) in
        (n, f ∙ ap (λ x. passed x) same, rw (download_artifact, e, f) fetched)
    this true (refused x) e f = absurd (ground (arith, (rw (download_artifact, e, f) at h)))
    this true crashed e f = absurd (ground (arith, (rw (download_artifact, e, f) at h)))
