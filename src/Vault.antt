-- ===== src/Vault.antt =====
-- The quarantine vault (aegorx/quarantine/vault.py): the index, the blobs, and `quarantine`, `restore`,
-- `delete`, `purge_missing_blobs`.
--
-- `Cipher` is Fernet with the vault's key, or none where there is no key. Paths are absolute already; a text
-- is a list of code points, so that blob names can be tested. `files` is what is outside the vault, by path.
-- An index is what `_read_index` reads. Writing the index and a destination and removing a blob always
-- succeed; times and the mode of the files are left out. A name that matches has no slash, so the second
-- test of `_blob_path_checked` never refuses it.
pub mod Blobs
pub mod Restored
mod Tests
mod Format
use native.Mathlib.Decide.{ℕ_discrete}
use aegor_x.Prelude.{
  ℕ, zero, suc, ◌+◌, ◌*◌, ◌/◌, ◌%◌, ◌^◌, Bool, true, false, ◌&&◌, ◌||◌, not, Option, none, some,
  List, [], ◌∷◌, ◌++◌, length, take, drop, all, select, any, ltb, leb, ◌==◌, lookup, insert, remove,
  is_some, ite, if◌then◌else◌,
}
unfoldable pub use Format.*

pub record Item : Type 0 where
  pub id : Text
  pub original_path : Text
  pub blob : Text
  pub reason : Text
  pub size : ℕ
  pub encrypted : Bool
  pub chunked : Bool

pub record Vault : Type 0 where
  pub index : List Item
  pub blobs : List (Text × Bytes)
  pub files : List (Text × Bytes)

abbrev pub legacy_max_plain : ℕ
legacy_max_plain = 1024 * 1024 * 1024

-- The entry that `quarantine` adds.
abbrev pub item_of : Bool → Text → Text → Text → ℕ → Item
item_of encrypts id path reason size = record {
  id = id;
  original_path = path;
  blob = id ++ quar;
  reason = reason;
  size = size;
  encrypted = encrypts;
  chunked = encrypts;
}

-- The body of `quarantine`, of a file that could be opened and is a regular file. `removable` says whether
-- the original can be removed, which is tried after the index is written.
unfoldable pub quarantine_open :
    ℕ → Option Cipher → Bool → Text → Text → Text → Bytes → Vault → Vault × Result Item
quarantine_open chunk_size cipher removable id path reason content v =
    let entry = item_of (is_some cipher) id path reason (length content) in
    if ltb legacy_max_plain (length content)
    then (v, raised too_large)
    else if is_some (lookup Text-discrete entry.blob v.blobs)
    then (v, raised blob_exists)
    else (
      record {
        index = v.index ++ entry ∷ [];
        blobs = insert Text-discrete entry.blob (blob_of chunk_size cipher content) v.blobs;
        files = if removable then remove Text-discrete path v.files else v.files;
      },
      returned entry,
    )

unfoldable pub quarantine :
    ℕ → Option Cipher → Bool → Text → Text → Text → Vault → Vault × Result Item
quarantine chunk_size cipher removable id path reason v = elim (lookup Text-discrete path v.files) [
  | none ↦ (v, raised file_not_found)
  | some content ↦ quarantine_open chunk_size cipher removable id path reason content v
]

unfoldable pub get : Text → List Item → Option Item
get id [] = none
get id (item ∷ items) = let rest = get id items in ite (Text-discrete item.id id) (some item) rest

-- The destination after the blob has been read, and how that ended.
unfoldable pub read_blob : Option Cipher → Item → Bytes → Bytes × Result (Unit {0})
read_blob cipher item blob =
    if item.chunked
    then if is_some (lookup Text-discrete (take 4 blob) ((blob_magic, blob_magic) ∷ []))
      then read_tokens (suc (length blob)) cipher item.encrypted (drop 4 blob) []
      else ([], raised corrupt_header)
    else if item.encrypted && is_some cipher
    then elim (decrypt_token cipher blob) [
      | raised why ↦ ([], raised why)
      | returned data' ↦ (data', returned tt)
    ]
    else (blob, returned tt)

abbrev pub has_id : Text → Item → Bool
has_id id item = ite (Text-discrete item.id id) true false

-- `delete`: false where the id is unknown, ValueError where the blob's name is unsafe.
unfoldable pub delete : Text → Vault → Vault × Result Bool
delete id v = elim (get id v.index) [
  | none ↦ (v, returned false)
  | some item ↦
      if safe_blob item.blob
      then (
        record v {
          index = select (λ i. not (has_id id i)) v.index;
          blobs = remove Text-discrete item.blob v.blobs;
        },
        returned true,
      )
      else (v, raised unsafe_name)
]

-- The end of `restore`: the destination is written, and the item is deleted where that was without exception.
unfoldable pub finish_restore :
    Text → Text → Bytes × Result (Unit {0}) → Vault → Vault × Result Text
finish_restore id dest (out, raised why) v =
    (record v { files = insert Text-discrete dest out v.files }, raised why)
finish_restore id dest (out, returned _) v =
    ((delete id (record v { files = insert Text-discrete dest out v.files })).0, returned dest)

-- `restore` to a destination, of an item that is known
unfoldable pub restore_item : Option Cipher → Text → Text → Item → Vault → Vault × Result Text
restore_item cipher id dest item v =
    if safe_blob item.blob
    then elim (lookup Text-discrete item.blob v.blobs) [
      | none ↦ (record v { files = insert Text-discrete dest [] v.files }, raised no_blob)
      | some blob ↦ finish_restore id dest (read_blob cipher item blob) v
    ]
    else (v, raised unsafe_name)

unfoldable pub restore : Option Cipher → Text → Option Text → Vault → Vault × Result Text
restore cipher id destination v = elim (get id v.index) [
  | none ↦ (v, raised unknown_id)
  | some item ↦
      restore_item cipher id (elim destination [ none ↦ item.original_path | some d ↦ d ]) item v
]

-- An item whose blob has a safe name and is there.
abbrev pub is_valid : List (Text × Bytes) → Item → Bool
is_valid blobs item = safe_blob item.blob && is_some (lookup Text-discrete item.blob blobs)

unfoldable pub purge_missing_blobs : Vault → Vault × ℕ
purge_missing_blobs v = (
  record v { index = select (is_valid v.blobs) v.index },
  length (select (λ i. not (is_valid v.blobs i)) v.index),
)
