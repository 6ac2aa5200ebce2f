-- ===== src/Vault/Restored.antt =====
-- A file that is quarantined can be restored (aegorx/quarantine/vault.py).
use aegor_x.Prelude.{
  ℕ, ◌≤◌, ◌<◌, ◌≡◌, refl, ap, ◌∙◌, Bool, true, false, not, Option, none, some, List, [], ◌∷◌, ◌++◌,
  length, arith, lookup, insert, remove, lookup-insert, lookup-remove, is_some, if◌then◌else◌, ltb,
  select, if_pos,
}
use aegor_x.Vault.{
  Text, Text-discrete, Bytes, Cipher, Item, Vault, has_id, returned, legacy_max_plain, safe_blob,
  quar, item_of, blob_of, blob_magic, quarantine, quarantine_open, get, read_blob, delete,
  finish_restore, restore_item, restore,
}
use aegor_x.Vault.Blobs.{IsCipher, read_tokens-blob_of}

-- There is no cipher, or one that can be undone.
abbrev pub Undone : ℕ → Option Cipher → Type 0
Undone chunk_size none = Unit {0}
Undone chunk_size (some c) = IsCipher c chunk_size

lookup_self : (k : Text) → lookup Text-discrete k ((k, k) ∷ []) ≡ some k
unfolding lookup
lookup_self k = if_pos (Text-discrete k k) refl _ _

read_blob-blob_of :
    (cipher : Option Cipher) (chunk_size : ℕ) (id path reason : Text) (content : Bytes)
    → Undone chunk_size cipher
    → 0 < chunk_size
    → read_blob cipher
        (item_of (is_some cipher) id path reason (length content))
        (blob_of chunk_size cipher content)
      ≡ (content, returned tt)
unfolding read_blob blob_of
read_blob-blob_of none chunk_size id path reason content h pos = refl
read_blob-blob_of (some c) chunk_size id path reason content h pos =
    rw (lookup_self (blob_magic)) (read_tokens-blob_of c chunk_size content h pos)

get-append :
    (id : Text) (items : List Item) (item : Item)
    → get id items ≡ none
    → item.id ≡ id
    → get id (items ++ item ∷ []) ≡ some item
unfolding get
get-append id [] item h e = ground arith
get-append id (x ∷ items) item h e = ground (arith, get-append id items item)

select-get :
    (id : Text) (items : List Item) (item : Item)
    → get id items ≡ none
    → item.id ≡ id
    → select (λ i. not (has_id id i)) (items ++ item ∷ []) ≡ items
unfolding get
select-get id [] item h e = ground arith
select-get id (x ∷ items) item h e = ground (arith, select-get id items item)

-- The vault after a file has been quarantined, and what is asked of it before.
module _ (cipher : Option Cipher) (chunk_size : ℕ) (removable : Bool) (id path reason : Text)
    (content : Bytes) (v : Vault) where
  abbrev entry_of : Item
  entry_of = item_of (is_some cipher) id path reason (length content)

  abbrev after : Vault
  after = record {
    index = v.index ++ entry_of ∷ [];
    blobs = insert Text-discrete (id ++ quar) (blob_of chunk_size cipher content) v.blobs;
    files = if removable then remove Text-discrete path v.files else v.files;
  }

  quarantine-after :
      lookup Text-discrete path v.files ≡ some content
      → length content ≤ legacy_max_plain
      → lookup Text-discrete (id ++ quar) v.blobs ≡ none
      → quarantine chunk_size cipher removable id path reason v ≡ (after, returned entry_of)
  unfolding quarantine quarantine_open
  quarantine-after here small fresh =
      let fits : ltb legacy_max_plain (length content) ≡ false = ground arith in
      rw (here, quarantine, fits, quarantine_open, fresh) refl

  -- The vault after the item has been restored.
  abbrev restored : Vault
  restored = record {
    index = v.index;
    blobs = remove Text-discrete (id ++ quar) after.blobs;
    files = insert Text-discrete path content after.files;
  }

  delete-after :
      safe_blob (id ++ quar) ≡ true
      → get id v.index ≡ none
      → delete id (record after { files = insert Text-discrete path content after.files })
        ≡ (restored, returned true)
  unfolding delete
  delete-after safe unknown =
      rw
        (
          get-append id v.index entry_of unknown refl,
          delete,
          safe,
          select-get id v.index entry_of unknown refl,
        )
        refl

  restore-after :
      Undone chunk_size cipher
      → 0 < chunk_size
      → safe_blob (id ++ quar) ≡ true
      → get id v.index ≡ none
      → restore cipher id none after ≡ (restored, returned path)
  unfolding restore restore_item finish_restore
  restore-after h pos safe unknown =
      let blob : lookup Text-discrete (id ++ quar) after.blobs
          ≡ some (blob_of chunk_size cipher content) =
        lookup-insert Text-discrete (id ++ quar) (id ++ quar) (blob_of chunk_size cipher content)
          v.blobs
        ∙ if_pos (Text-discrete (id ++ quar) (id ++ quar)) refl _ _ in
      rw
        (
          get-append id v.index entry_of unknown refl,
          restore,
          safe,
          restore_item,
          blob,
          read_blob-blob_of cipher chunk_size id path reason content h pos,
          finish_restore,
          read_blob-blob_of cipher chunk_size id path reason content h pos,
          delete-after safe unknown,
        )
        refl

-- A file that is quarantined under a fresh id can be restored: the restored file has the content that it had,
-- its blob is gone, and the index is the one before, whether or not there is a cipher and whether or not
-- the original could be removed.
pub restore-quarantine :
    (cipher : Option Cipher) (chunk_size : ℕ) (removable : Bool) (id path reason : Text)
    (content : Bytes) (v : Vault)
    → Undone chunk_size cipher
    → 0 < chunk_size
    → lookup Text-discrete path v.files ≡ some content
    → length content ≤ legacy_max_plain
    → safe_blob (id ++ quar) ≡ true
    → get id v.index ≡ none
    → lookup Text-discrete (id ++ quar) v.blobs ≡ none
    → let back =
        restore cipher id none (quarantine chunk_size cipher removable id path reason v).0 in
      (back.1 ≡ returned path)
      × (lookup Text-discrete path back.0.files ≡ some content)
      × (lookup Text-discrete (id ++ quar) back.0.blobs ≡ none)
      × (back.0.index ≡ v.index)
restore-quarantine cipher chunk_size removable id path reason content v h pos here small safe
      unknown fresh =
    let kept =
      ap (λ x. x.0)
        (quarantine-after cipher chunk_size removable id path reason content v here small fresh) in
    let files = (after cipher chunk_size removable id path reason content v).files in
    let blobs = (after cipher chunk_size removable id path reason content v).blobs in
    rw (kept, restore-after cipher chunk_size removable id path reason content v h pos safe unknown)
      (
        refl,
        lookup-insert Text-discrete path path content files
            ∙ if_pos (Text-discrete path path) refl _ _,
        lookup-remove Text-discrete (id ++ quar) (id ++ quar) blobs
            ∙ if_pos (Text-discrete (id ++ quar) (id ++ quar)) refl _ _,
        refl,
      )
