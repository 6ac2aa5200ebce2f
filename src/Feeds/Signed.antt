-- ===== src/Feeds/Signed.antt =====
-- What the tests of aegorx/signing/feed.py on a signed document mean: its signature, expiry and time.
use aegor_x.Prelude.{
  ℕ, ◌≤◌, ◌<◌, ◌≡◌, ◌≢◌, ap, refl, String, Bool, true, false, Option, none, some, List, [], ◌∷◌,
  ◌++◌, arith, Bool-cases, Option-cases, inl, inr, ◌≐◌,
}
use aegor_x.Json.{
  Json, Fields, null, boolean, whole, negative, float, text, array, object, end, field, get,
  is_true,
}
use aegor_x.Feeds.{
  World, Key, Outcome, ok, bad, unsigned, first_key, verify_signature, check_expiry, check_replay,
  no_keys,
}

-- A key that is trusted verifies the decoded signature of a `dict` for its other entries.
pub record IsSigned (w : World) (fs : Fields) : Type 0 where
  pub signature : String
  pub raw : String
  pub key : Key
  pub before : List Key
  pub after : List Key
  pub payload : Fields
  pub is_signed : get "signature" fs ≡ some (text signature)
  pub decodes : w.decode signature ≡ some raw
  pub trusted : w.trusted ≡ before ++ key ∷ after
  pub verifies : key.verify raw (w.canonical payload) ≡ true
  pub without : get "signature" payload ≡ none
  pub others : (name : String) → name ≢ "signature" → get name payload ≡ get name fs

-- The time of expiry is missing, empty, not before now, or does not count.
pub data IsFresh (w : World) (now : ℕ) (allow_expired : Bool) (fs : Fields) : Type 0 where
  never : get "expires_utc" fs ≡ none → IsFresh w now allow_expired fs
  blank :
      (j : Json)
      → get "expires_utc" fs ≡ some j
      → is_true j ≡ false
      → IsFresh w now allow_expired fs
  in_time :
      (j : Json) (t : ℕ)
      → get "expires_utc" fs ≡ some j
      → w.parse_utc j ≡ some t
      → now ≤ t
      → IsFresh w now allow_expired fs
  tolerated : allow_expired ≡ true → IsFresh w now allow_expired fs

-- There is no last time, or it does not count, or the document was generated after it.
pub data IsAfter (w : World) (force : Bool) (t : ℕ) (last : Option Json) : Type 0 where
  first : last ≡ none → IsAfter w force t last
  blank_last : (j : Json) → last ≡ some j → is_true j ≡ false → IsAfter w force t last
  forced : force ≡ true → IsAfter w force t last
  above :
      (j : Json) (u : ℕ) → last ≡ some j → w.parse_utc j ≡ some u → u < t → IsAfter w force t last

pub record IsNew (w : World) (force : Bool) (fs : Fields) (last : Option Json) : Type 0 where
  pub generated : Json
  pub time : ℕ
  pub is_there : get "generated_utc" fs ≡ some generated
  pub is_time : w.parse_utc generated ≡ some time
  pub is_after : IsAfter w force time last

get-unsigned-signature : (fs : Fields) → get "signature" (unsigned fs) ≡ none
unfolding get
get-unsigned-signature end = refl
get-unsigned-signature (field k v fs) = elim (Bool-cases (k ≐ "signature")) [
  | inl e ↦ rw e (get-unsigned-signature fs)
  | inr e ↦ rw (e, get, e) (get-unsigned-signature fs)
]

get-unsigned-others :
    (name : String) (fs : Fields) → name ≢ "signature" → get name (unsigned fs) ≡ get name fs
unfolding get
get-unsigned-others name end h = refl
get-unsigned-others name (field k v fs) h = ground (arith, get-unsigned-others name fs h)

first_key-split :
    (ks : List Key) (sig payload f : String)
    → first_key ks sig payload ≡ ok f
    → (key : Key) × (before after : List Key) × (ks ≡ before ++ key ∷ after)
      × (key.verify sig payload ≡ true)
first_key-split [] sig payload f h = absurd (ground arith)
first_key-split (k ∷ ks) sig payload f h = elim (Bool-cases (k.verify sig payload)) [
  | inl e ↦ (k, [], ks, refl, e)
  | inr e ↦
      let (key, before, after, same, good) = first_key-split ks sig payload f (rw e at h) in
      (key, k ∷ before, after, ap (λ xs. k ∷ xs) same, good)
]

-- What `verify_signature` does with the keys, and before them with the text of the signature.
with_keys : World → Fields → String → List Key → Outcome String
with_keys w fs raw [] = bad no_keys
with_keys w fs raw (k ∷ ks) = first_key (k ∷ ks) raw (w.canonical (unsigned fs))

with_keys-first_key :
    (w : World) (fs : Fields) (raw f : String) (ks : List Key)
    → with_keys w fs raw ks ≡ ok f
    → first_key ks raw (w.canonical (unsigned fs)) ≡ ok f
unfolding with_keys
with_keys-first_key w fs raw f [] h = absurd (ground arith)
with_keys-first_key w fs raw f (k ∷ ks) h = h

pub verify_signature-IsSigned :
    (w : World) (fs : Fields) (f : String) → verify_signature w fs ≡ ok f → IsSigned w fs
unfolding with_keys
verify_signature-IsSigned w fs f h = this (get "signature" fs) refl
  where
    decoded :
        (s : String)
        → get "signature" fs ≡ some (text s)
        → (raw : String) → w.decode s ≡ some raw
        → first_key w.trusted raw (w.canonical (unsigned fs)) ≡ ok f
        → IsSigned w fs
    decoded s e raw d h =
        let (key, before, after, same, good) =
          first_key-split w.trusted raw (w.canonical (unsigned fs)) f h in
        record {
          signature = s;
          raw = raw;
          key = key;
          before = before;
          after = after;
          payload = unsigned fs;
          is_signed = e;
          decodes = d;
          trusted = same;
          verifies = good;
          without = get-unsigned-signature fs;
          others = λ name ne. get-unsigned-others name fs ne;
        }

    this : (j : Option Json) → get "signature" fs ≡ j → IsSigned w fs
    this (some (text s)) e = elim (Bool-cases (s ≐ "")) [
      | inl b ↦ absurd (ground arith)
      | inr b ↦ elim (Option-cases (w.decode s)) [
        | inl d ↦ absurd (ground arith)
        | inr (raw, d) ↦
            decoded s e raw d
              (with_keys-first_key w fs raw f w.trusted (rw (verify_signature, e, b, d) at h))
      ]
    ]
    this none e = absurd (ground arith)
    this (some null) e = absurd (ground arith)
    this (some (boolean b)) e = absurd (ground arith)
    this (some (whole n)) e = absurd (ground arith)
    this (some (negative n)) e = absurd (ground arith)
    this (some (float b n)) e = absurd (ground arith)
    this (some (array xs)) e = absurd (ground arith)
    this (some (object gs)) e = absurd (ground arith)

pub check_expiry-IsFresh :
    (w : World) (now : ℕ) (allow_expired : Bool) (fs : Fields)
    → check_expiry w now allow_expired fs ≡ ok tt
    → IsFresh w now allow_expired fs
unfolding check_expiry
check_expiry-IsFresh w now allow_expired fs h = elim (Option-cases (get "expires_utc" fs)) [
  | inl e ↦ never e
  | inr (j, e) ↦ elim (Bool-cases (is_true j)) [
    | inr b ↦ blank j e b
    | inl b ↦ elim (Option-cases (w.parse_utc j)) [
      | inl p ↦ absurd (ground arith)
      | inr (t, p) ↦ elim (Bool-cases allow_expired) [
        | inl a ↦ tolerated a
        | inr a ↦ in_time j t e p (ground arith)
      ]
    ]
  ]
]

check_replay-IsAfter :
    (w : World) (force : Bool) (fs : Fields) (last : Option Json) (generated : Json) (t : ℕ)
    → get "generated_utc" fs ≡ some generated
    → w.parse_utc generated ≡ some t
    → check_replay w force fs last ≡ ok true
    → IsAfter w force t last
unfolding check_replay
check_replay-IsAfter w force fs none generated t e p h = first refl
check_replay-IsAfter w force fs (some j) generated t e p h = elim (Bool-cases (is_true j)) [
  | inr b ↦ blank_last j refl b
  | inl b ↦ elim (Bool-cases force) [
    | inl f ↦ forced f
    | inr f ↦ elim (Option-cases (w.parse_utc j)) [
      | inl q ↦ absurd (ground arith)
      | inr (u, q) ↦ above j u refl q (ground arith)
    ]
  ]
]

pub check_replay-IsNew :
    (w : World) (force : Bool) (fs : Fields) (last : Option Json)
    → check_replay w force fs last ≡ ok true
    → IsNew w force fs last
unfolding check_replay
check_replay-IsNew w force fs last h = elim (Option-cases (get "generated_utc" fs)) [
  | inl e ↦ absurd (ground arith)
  | inr (g, e) ↦ elim (Option-cases (w.parse_utc g)) [
    | inl p ↦ absurd (ground arith)
    | inr (t, p) ↦ record {
      generated = g;
      time = t;
      is_there = e;
      is_time = p;
      is_after = check_replay-IsAfter w force fs last g t e p h;
    }
  ]
]
