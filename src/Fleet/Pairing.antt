-- ===== src/Fleet/Pairing.antt =====
-- Pairing tokens of aegorx/management/server.py: each is good once, until it expires.
use aegor_x.Prelude.{
  ℕ, ◌+◌, ◌≤◌, String, ◌≡◌, refl, Bool, true, false, none, some, List, [], ◌∷◌, ◌++◌, any, ◌≐◌,
  arith, Bool-cases, Option-cases, inl, inr,
}
use aegor_x.Fleet.{
  Store, PairingRow, first, update_where, used_at, issue_pairing_token, consume_pairing,
}

pub first-append :
    {A : Type 0} (p : A → Bool) (xs : List A) (x : A)
    → any p xs ≡ false
    → p x ≡ true
    → first p (xs ++ x ∷ []) ≡ some x
unfolding first
first-append p [] x h k = rw k refl
first-append p (y ∷ xs) x h k = ground (arith, first-append p xs x)

-- The first row of a table that an update has gone over is the updated first row.
pub first-update_where :
    {A : Type 0} (p : A → Bool) (f : A → A) (xs : List A) (x : A)
    → ((y : A) → p (f y) ≡ p y)
    → first p xs ≡ some x
    → first p (update_where p f xs) ≡ some (f x)
unfolding first update_where
first-update_where p f [] x h e = cc
first-update_where p f (y ∷ xs) x h e = elim (Bool-cases (p y)) [
  | inl k ↦ ground (arith, h y)
  | inr k ↦ ground (arith, first-update_where p f xs x h)
]

-- A token that has been consumed with success gives nothing when it is consumed again, at whatever time.
pub consume_pairing-once :
    (fingerprint : String → String) (now later : ℕ) (token name : String) (s : Store)
    → (consume_pairing fingerprint now token s).1 ≡ some name
    → (consume_pairing fingerprint later token (consume_pairing fingerprint now token s).0).1 ≡ none
unfolding consume_pairing
consume_pairing-once fingerprint now later token name s e =
    elim (Option-cases (first (λ r. r.token_hash ≐ fingerprint token) s.pairing)) [
      | inl k ↦ absurd (ground arith)
      | inr (row, k) ↦ ground (
        arith,
        first-update_where (λ r. r.token_hash ≐ fingerprint token) (used_at now) s.pairing row
            (λ y. refl) k,
      )
    ]

-- The row that `issue_pairing_token` adds.
abbrev issued : (String → String) → ℕ → ℕ → String → String → PairingRow
issued fingerprint now ttl token name = record {
  token_hash = fingerprint token;
  name = name;
  created = now;
  expires = now + ttl;
  used = none;
}

issue_pairing_token-row :
    (fingerprint : String → String) (now ttl : ℕ) (token name : String) (s t : Store)
    → issue_pairing_token fingerprint now ttl token name s ≡ some t
    → first (λ r. r.token_hash ≐ fingerprint token) t.pairing
      ≡ some (issued fingerprint now ttl token name)
unfolding issue_pairing_token
issue_pairing_token-row fingerprint now ttl token name s t e =
    let p : PairingRow → Bool = λ r. r.token_hash ≐ fingerprint token in
    elim (Bool-cases (any p s.pairing)) [
      | inl k ↦ absurd (ground arith)
      | inr k ↦
          ground (
            arith,
            first-append p s.pairing (issued fingerprint now ttl token name) k (ground arith),
          )
    ]

-- A pairing token that is issued with a fresh fingerprint and consumed before it expires gives the name that
-- it was issued for; consumed again, at whatever time, it gives nothing.
pub consume_pairing-issue_pairing_token :
    (fingerprint : String → String) (now ttl at later : ℕ) (token name : String) (s t : Store)
    → issue_pairing_token fingerprint now ttl token name s ≡ some t
    → at ≤ now + ttl
    → ((consume_pairing fingerprint at token t).1 ≡ some name)
      × ((consume_pairing fingerprint later token (consume_pairing fingerprint at token t).0).1
          ≡ none)
unfolding consume_pairing
consume_pairing-issue_pairing_token fingerprint now ttl at later token name s t e early =
    let row = issue_pairing_token-row fingerprint now ttl token name s t e in
    let given : (consume_pairing fingerprint at token t).1 ≡ some name =
      rw (row, consume_pairing) (ground arith) in
    (given, consume_pairing-once fingerprint at later token name t given)
