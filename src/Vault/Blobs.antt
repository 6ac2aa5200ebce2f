-- ===== src/Vault/Blobs.antt =====
-- The format of a blob (aegorx/quarantine/vault.py): what `quarantine` writes, `restore` reads back.
use aegor_x.Prelude.{
  ℕ, zero, suc, ◌≤◌, ◌<◌, ◌≡◌, refl, ap, ◌∙◌, Bool, true, false, Option, some, List, [], ◌∷◌, ◌++◌,
  length, length-drop, length-take, take, drop, arith, length-append, append_assoc, append-nil, All,
  ◌==◌,
}
use aegor_x.Vault.{
  Bytes, Cipher, chunks_of, to_bytes, from_bytes, framed, blob_of, returned, opened, read_tokens,
  no_bytes, decrypt_token,
}

-- Decrypting undoes encrypting, and a token's length fits its four bytes.
pub record IsCipher (c : Cipher) (longest : ℕ) : Type 0 where
  pub opens : (bytes : Bytes) → c.decrypt (c.encrypt bytes) ≡ some bytes
  pub fits : (bytes : Bytes) → length bytes ≤ longest → length (c.encrypt bytes) < 4294967296

from_to_bytes : (n : ℕ) → n < 4294967296 → from_bytes 0 (to_bytes n) ≡ n
unfolding from_bytes to_bytes
from_to_bytes n h = omega arith

take-append : {A : Type 0} (xs ys : List A) → take (length xs) (xs ++ ys) ≡ xs
take-append [] ys = refl
take-append (x ∷ xs) ys = ap (λ zs. x ∷ zs) (take-append xs ys)

drop-append : {A : Type 0} (xs ys : List A) → drop (length xs) (xs ++ ys) ≡ ys
drop-append [] ys = refl
drop-append (x ∷ xs) ys = drop-append xs ys

take-drop : {A : Type 0} (n : ℕ) (xs : List A) → take n xs ++ drop n xs ≡ xs
take-drop zero xs = refl
take-drop (suc n) [] = refl
take-drop (suc n) (x ∷ xs) = ap (λ zs. x ∷ zs) (take-drop n xs)

abbrev pub joined : List Bytes → Bytes
joined [] = []
joined (chunk ∷ chunks) = chunk ++ joined chunks

chunks_of-joined :
    (size fuel : ℕ) (bytes : Bytes)
    → 0 < size
    → length bytes ≤ fuel
    → joined (chunks_of size fuel bytes) ≡ bytes
unfolding chunks_of
chunks_of-joined size zero [] pos h = refl
chunks_of-joined size zero (b ∷ bs) pos h = absurd (omega arith)
chunks_of-joined size (suc fuel) [] pos h = refl
chunks_of-joined size (suc fuel) (b ∷ bs) pos h =
    ap (λ rest. take size (b ∷ bs) ++ rest)
      (chunks_of-joined size fuel (drop size (b ∷ bs)) pos
        (omega (arith, length-drop size (b ∷ bs))))
    ∙ take-drop size (b ∷ bs)

chunks_of-small :
    (size fuel : ℕ) (bytes : Bytes) → All (λ chunk. length chunk ≤ size) (chunks_of size fuel bytes)
unfolding chunks_of
chunks_of-small size zero bytes = tt
chunks_of-small size (suc fuel) [] = tt
chunks_of-small size (suc fuel) (b ∷ bs) =
    (omega (arith, length-take size (b ∷ bs)), chunks_of-small size fuel (drop size (b ∷ bs)))

length-framed-le : (c : Cipher) (chunks : List Bytes) → length chunks ≤ length (framed c chunks)
unfolding framed to_bytes
length-framed-le c [] = omega arith
length-framed-le c (chunk ∷ chunks) =
    omega (arith, length-framed-le c chunks, length-append (c.encrypt chunk) (framed c chunks))

-- One round of the loop, from what the blob begins with.
read_tokens-step :
    (fuel : ℕ) (cipher : Option Cipher) (encrypted : Bool) (blob out : Bytes) (len : ℕ)
    (token more data' : Bytes)
    → no_bytes blob ≡ false
    → from_bytes 0 (take 4 blob) ≡ len
    → take len (drop 4 blob) ≡ token
    → drop len (drop 4 blob) ≡ more
    → (length token == len) ≡ true
    → opened cipher encrypted token ≡ returned data'
    → read_tokens (suc fuel) cipher encrypted blob out
      ≡ read_tokens fuel cipher encrypted more (out ++ data')
unfolding read_tokens
read_tokens-step fuel cipher encrypted blob out len token more data' a b c d e f =
    rw (a, b, c, e, f, b, d) refl

module _ (c : Cipher) (longest : ℕ) (h : IsCipher c longest) where
  read_tokens-framed :
      (chunks : List Bytes) (fuel : ℕ) (out : Bytes)
      → All (λ chunk. length chunk ≤ longest) chunks
      → length chunks < fuel
      → read_tokens fuel (some c) true (framed c chunks) out ≡ (out ++ joined chunks, returned tt)
  unfolding framed to_bytes
  read_tokens-framed chunks zero out small le = absurd (omega arith)
  read_tokens-framed [] (suc fuel) out small le = unfold read_tokens in rw (append-nil out) refl
  read_tokens-framed (chunk ∷ chunks) (suc fuel) out small le =
      let token = c.encrypt chunk in
      let more = framed c chunks in
      let len : from_bytes 0 (to_bytes (length token)) ≡ length token =
        from_to_bytes (length token) (h.fits chunk small.0) in
      let opens : opened (some c) true token ≡ returned chunk =
        unfold decrypt_token in rw (h.opens chunk) refl in
      read_tokens-step fuel (some c) true (framed c (chunk ∷ chunks)) out (length token) token more
        chunk refl len (take-append token more) (drop-append token more) (ground arith) opens
      ∙ read_tokens-framed chunks fuel (out ++ chunk) small.1 (omega arith)
      ∙ ap (λ x. (x, returned tt)) (append_assoc out chunk (joined chunks))

-- What `quarantine` writes to a blob with a cipher, the loop of `restore` reads back as the file's content.
pub read_tokens-blob_of :
    (c : Cipher) (chunk_size : ℕ) (content : Bytes)
    → IsCipher c chunk_size
    → 0 < chunk_size
    → read_tokens
        (suc (length (blob_of chunk_size (some c) content)))
        (some c)
        true
        (drop 4 (blob_of chunk_size (some c) content))
        []
      ≡ (content, returned tt)
unfolding blob_of
read_tokens-blob_of c chunk_size content h pos =
    let chunks = chunks_of chunk_size (length content) content in
    read_tokens-framed c chunk_size h chunks _ []
      (chunks_of-small chunk_size (length content) content)
      (omega (arith, length-framed-le c chunks))
    ∙ ap (λ x. (x, returned tt))
        (chunks_of-joined chunk_size (length content) content pos (omega arith))
