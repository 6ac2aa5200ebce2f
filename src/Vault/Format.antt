-- ===== src/Vault/Format.antt =====
-- The format of a blob (aegorx/quarantine/vault.py): names, chunks, tokens, and the loops that write and
-- read them.
use native.Mathlib.Decide.{ℕ_discrete}
use aegor_x.Prelude.{
  ℕ, zero, suc, ◌+◌, ◌*◌, ◌/◌, ◌%◌, Bool, true, false, ◌&&◌, ◌||◌, not, Option, none, some, List,
  [], ◌∷◌, ◌++◌, length, take, drop, all, leb, ◌==◌, lookup, is_some, if◌then◌else◌,
}

abbrev pub Text : Type 0
Text = List ℕ

unfoldable pub Text-discrete : Discrete Text
Text-discrete = hlevel ℕ_discrete

abbrev pub Bytes : Type 0
Bytes = List ℕ

pub record Cipher : Type 0 where
  pub encrypt : Bytes → Bytes
  pub decrypt : Bytes → Option Bytes

abbrev pub blob_magic : Bytes
blob_magic = b'D' ∷ b'F' ∷ b'Q' ∷ b'1' ∷ []

abbrev pub is_hex : ℕ → Bool
is_hex c = (leb b'0' c && leb c b'9') || (leb b'a' c && leb c b'f')

abbrev pub quar : Text
quar = b'.' ∷ b'q' ∷ b'u' ∷ b'a' ∷ b'r' ∷ []

-- `BLOB_NAME_RE.match`; its `$` also accepts a newline at the end.
unfoldable pub safe_blob : Text → Bool
safe_blob name =
    all is_hex (take 16 name)
    && leb 16 (length name)
    && (is_some (lookup Text-discrete (drop 16 name) ((quar, quar) ∷ (quar ++ 10 ∷ [], quar) ∷ [])))

-- src.read(CHUNK_SIZE) until it yields nothing; `fuel` is at least the number of chunks.
unfoldable pub chunks_of : ℕ → ℕ → Bytes → List Bytes
chunks_of size zero bytes = []
chunks_of size (suc fuel) [] = []
chunks_of size (suc fuel) (b ∷ bs) = take size (b ∷ bs) ∷ chunks_of size fuel (drop size (b ∷ bs))

-- n.to_bytes(4, "big"), of a number below 2 ^ 32
unfoldable pub to_bytes : ℕ → Bytes
to_bytes n = n / 16777216 ∷ n / 65536 % 256 ∷ n / 256 % 256 ∷ n % 256 ∷ []

-- int.from_bytes(bytes, "big"), of the bytes behind those read already
unfoldable pub from_bytes : ℕ → Bytes → ℕ
from_bytes n [] = n
from_bytes n (b ∷ bs) = from_bytes (256 * n + b) bs

-- The tokens of a blob, each behind its length.
unfoldable pub framed : Cipher → List Bytes → Bytes
unfolding to_bytes
framed c [] = []
framed c (chunk ∷ chunks) =
    to_bytes (length (c.encrypt chunk)) ++ c.encrypt chunk ++ framed c chunks

-- What `quarantine` writes to the blob.
unfoldable pub blob_of : ℕ → Option Cipher → Bytes → Bytes
unfolding framed chunks_of
blob_of size none content = content
blob_of size (some c) content = blob_magic ++ framed c (chunks_of size (length content) content)

-- The exceptions of `quarantine` and `restore`.
pub data Failure : Type 0 where
  file_not_found too_large blob_exists unknown_id unsafe_name corrupt_header truncated unauthentic
        no_key no_blob :
      Failure

pub data Result (A : Type 0) : Type 0 where
  returned : A → Result A
  raised : Failure → Result A

-- `_decrypt_token`
unfoldable pub decrypt_token : Option Cipher → Bytes → Result Bytes
decrypt_token none token = raised no_key
decrypt_token (some c) token = elim (c.decrypt token) [
  | none ↦ raised unauthentic
  | some data' ↦ returned data'
]

-- data = self._decrypt_token(token) if item.get("encrypted") else token
abbrev pub opened : Option Cipher → Bool → Bytes → Result Bytes
opened cipher true token = decrypt_token cipher token
opened cipher false token = returned token

abbrev pub no_bytes : Bytes → Bool
no_bytes [] = true
no_bytes (_ ∷ _) = false

-- The loop over the tokens: what has been written to the destination, and whether an exception ended it. The
-- fuel is at least the number of tokens.
unfoldable pub read_tokens : ℕ → Option Cipher → Bool → Bytes → Bytes → Bytes × Result (Unit {0})
unfolding decrypt_token from_bytes
read_tokens zero cipher encrypted blob out = (out, returned tt)
read_tokens (suc fuel) cipher encrypted blob out =
    let token_len = from_bytes 0 (take 4 blob) in
    let token = take token_len (drop 4 blob) in
    let rest : Bytes → Bytes × Result (Unit {0}) =
      λ data'. read_tokens fuel cipher encrypted (drop token_len (drop 4 blob)) (out ++ data') in
    if no_bytes blob
    then (out, returned tt)
    else if not (length token == token_len)
    then (out, raised truncated)
    else elim (opened cipher encrypted token) [
      | raised why ↦ (out, raised why)
      | returned data' ↦ rest data'
    ]
