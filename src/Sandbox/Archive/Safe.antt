-- ===== src/Sandbox/Archive/Safe.antt =====
-- What the sandbox of aegorx/sandbox/archive_sandbox.py writes.
use aegor_x.Prelude.{
  ℕ, ◌+◌, ◌*◌, ◌≤◌, ◌<◌, ◌≡◌, refl, ◌⊎◌, Bool, false, List, [], ◌∷◌, All, arith, leb, length,
  Bool-cases, inl, inr,
}
use aegor_x.Sandbox.Archive.{
  ArchiveType, ExtractionResult, Limits, zip, gzip, bzip2, xz, tar, unknown, seven_zip, rar,
  traverses, is_absolute,
}
use aegor_x.Sandbox.Archive.Analyse.{
  ArchiveFile, ZipInfo, TarMember, Opened, opened, malformed, unreadable, analyze,
}
use aegor_x.Sandbox.Archive.Extract.{
  Unpacker, Written, of_zip, of_tar, nothing, extract_loop, skips_info, skips_member, extract_as,
  extract_zip, extract_tar, extract,
}

-- A name that stays below the directory, of a file that is not too large.
pub record IsSafe (name : List ℕ) (size : ℕ) : Type 0 where
  pub stays : traverses name ≡ false
  pub relative : is_absolute name ≡ false
  pub small : size ≤ 100 * 1024 * 1024

abbrev pub IsSafeWritten : Written → Type 0
IsSafeWritten (of_zip is) = All (λ i. IsSafe i.filename i.file_size) is
IsSafeWritten (of_tar ms) = All (λ m. IsSafe m.name m.size) ms
IsSafeWritten nothing = Unit

module _ {A : Type 0} (P : A → Type 0) (skips unpacks : A → Bool) where
  extract_loop-All :
      ((x : A) → skips x ≡ false → P x)
      → (xs : List A) → All P (extract_loop skips unpacks xs).written
  unfolding extract_loop
  extract_loop-All h [] = tt
  extract_loop-All h (x ∷ xs) =
      let rest = extract_loop-All h xs in
      elim (Bool-cases (skips x)) [
        | inl e ↦ rw (extract_loop, e) rest
        | inr e ↦ elim (Bool-cases (unpacks x)) [
          | inl f ↦ rw (extract_loop, e, f) (h x e, rest)
          | inr f ↦ rw (extract_loop, e, f) tt
        ]
      ]

  -- Every entry is written or skipped, unless one fails.
  pub extract_loop-counts :
      (xs : List A)
      → (extract_loop skips unpacks xs).failed ≡ false
      → (extract_loop skips unpacks xs).extracted + (extract_loop skips unpacks xs).skipped
        ≡ length xs
  unfolding extract_loop
  extract_loop-counts [] h = omega arith
  extract_loop-counts (x ∷ xs) h = ground (arith, extract_loop-counts xs)

skips_info-IsSafe : (i : ZipInfo) → skips_info i ≡ false → IsSafe i.filename i.file_size
skips_info-IsSafe i h = record {
  stays = ground arith;
  relative = ground arith;
  small = ground arith;
}

skips_member-IsSafe : (m : TarMember) → skips_member m ≡ false → IsSafe m.name m.size
skips_member-IsSafe m h = record {
  stays = ground arith;
  relative = ground arith;
  small = ground arith;
}

zip_safe :
    (u : Unpacker) (o : Opened ZipInfo) (r : ExtractionResult) → IsSafeWritten (extract_zip u o r).0
zip_safe u (opened infos) r =
    extract_loop-All (λ i. IsSafe i.filename i.file_size) skips_info u.unpack_zip skips_info-IsSafe
      infos
zip_safe u malformed r = tt
zip_safe u unreadable r = tt

tar_safe :
    (u : Unpacker) (o : Opened TarMember) (r : ExtractionResult)
    → IsSafeWritten (extract_tar u o r).0
tar_safe u (opened members) r =
    extract_loop-All (λ m. IsSafe m.name m.size) skips_member u.unpack_tar skips_member-IsSafe
      members
tar_safe u malformed r = tt
tar_safe u unreadable r = tt

extract_as-IsSafe :
    (u : Unpacker) (f : ArchiveFile) (t : ArchiveType) (r : ExtractionResult)
    → IsSafeWritten (extract_as u f t r).0
extract_as-IsSafe u f zip r = zip_safe u f.as_zip r
extract_as-IsSafe u f gzip r = tar_safe u (f.as_tar gzip) r
extract_as-IsSafe u f bzip2 r = tar_safe u (f.as_tar bzip2) r
extract_as-IsSafe u f xz r = tar_safe u (f.as_tar xz) r
extract_as-IsSafe u f tar r = tt
extract_as-IsSafe u f unknown r = tt
extract_as-IsSafe u f seven_zip r = tt
extract_as-IsSafe u f rar r = tt

-- Whatever is extracted: nothing of an archive whose risk is 0.7 or more; and of each entry that is
-- written, the name has no part "..", is not absolute, and the size is at most 100 MB.
pub extract-IsSafe :
    (l : Limits) (u : Unpacker) (f : ArchiveFile)
    → IsSafeWritten (extract l u f).0
      × (((extract l u f).0 ≡ nothing) ⊎ ((analyze l f).risk_score < 14))
unfolding extract
extract-IsSafe l u f = elim (Bool-cases (leb 14 (analyze l f).risk_score)) [
  | inl e ↦ (rw (extract, e) tt, inl (rw (extract, e) refl))
  | inr e ↦ (
    rw (extract, e) (extract_as-IsSafe u f (analyze l f).archive_type (analyze l f)),
    inr (ground arith),
  )
]
