-- ===== src/Vault/Tests.antt =====
-- A run of the vault (aegorx/quarantine/vault.py) with chunks of two bytes.
use native.Mathlib.Decide.{ℕ_discrete}
use aegor_x.Prelude.{◌≡◌, refl, true, Option, none, some, [], ◌∷◌, ◌++◌, arith, lookup}
use aegor_x.Vault.{
  Text, Text-discrete, Bytes, Cipher, Vault, returned, quar, safe_blob, quarantine, restore, get,
}
use aegor_x.Vault.Blobs.{IsCipher}
use aegor_x.Vault.Restored.{restore-quarantine}

-- A cipher that puts one byte in front.
abbrev marked : Bytes → Bytes
marked bytes = 7 ∷ bytes

abbrev unmarked : Bytes → Option Bytes
unmarked [] = none
unmarked (_ ∷ bytes) = some bytes

abbrev cipher : Cipher
cipher = record { encrypt = marked; decrypt = unmarked }

cipher-IsCipher : IsCipher cipher 2
cipher-IsCipher = record { opens = λ bytes. refl; fits = λ bytes h. omega arith }

abbrev path : Text
path = b'/' ∷ b'x' ∷ []

abbrev id : Text
id =
    b'0' ∷ b'1' ∷ b'2' ∷ b'3' ∷ b'4' ∷ b'5' ∷ b'6' ∷ b'7' ∷ b'8' ∷ b'9' ∷ b'a' ∷ b'b' ∷ b'c' ∷ b'd'
    ∷ b'e' ∷ b'f' ∷ []

abbrev vault : Vault
vault = record { index = []; blobs = []; files = (path, 1 ∷ 2 ∷ 3 ∷ []) ∷ [] }

restore-quarantine_example :
    let back = restore (some cipher) id none (quarantine 2 (some cipher) true id path [] vault).0 in
    (back.1 ≡ returned path)
    × (lookup Text-discrete path back.0.files ≡ some (1 ∷ 2 ∷ 3 ∷ []))
    × (lookup Text-discrete (id ++ quar) back.0.blobs ≡ none)
    × (back.0.index ≡ [])
unfolding lookup Text-discrete safe_blob get ℕ_discrete
restore-quarantine_example =
    restore-quarantine (some cipher) 2 true id path [] (1 ∷ 2 ∷ 3 ∷ []) vault cipher-IsCipher
      (omega arith) refl (omega arith) refl refl refl
