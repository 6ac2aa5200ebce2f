-- ===== src/Ransomware/Recent.antt =====
-- The sliding window of aegorx/ransomware.py against the history of what was recorded.
use aegor_x.Prelude.{
  ℕ, ◌-◌, ◌≤◌, String, ◌≡◌, refl, ap, ◌∙◌, Option, List, [], ◌∷◌, ◌++◌, leb, length, select, All,
  arith, append_assoc,
}
use aegor_x.Ransomware.Rate.{Stamps, Window, prune, alarm, record_modification}

-- Each time is at least those before it: the clock does not go back.
abbrev pub Ascending : Stamps → Type 0
Ascending [] = Unit {0}
Ascending ((t, p) ∷ rest) = All (λ e. t ≤ e.0) rest × Ascending rest

-- The entries from a time on.
abbrev pub since : ℕ → Stamps → Stamps
since t = select (λ e. leb t e.0)

select-all : (c : ℕ) (xs : Stamps) → All (λ e. c ≤ e.0) xs → since c xs ≡ xs
select-all c [] h = refl
select-all c (x ∷ xs) h = ground (arith, select-all c xs h.1)

le-All : (c t : ℕ) (xs : Stamps) → c ≤ t → All (λ e. t ≤ e.0) xs → All (λ e. c ≤ e.0) xs
le-All c t [] le h = tt
le-All c t (x ∷ xs) le h = (omega arith, le-All c t xs le h.1)

-- On ascending times the loop over the front removes exactly what is too old.
prune-since : (c : ℕ) (xs : Stamps) → Ascending xs → prune c xs ≡ since c xs
unfolding prune
prune-since c [] h = refl
prune-since c ((t, p) ∷ rest) h =
    ground
      (arith, prune-since c rest h.1, λ (le : c ≤ t). select-all c rest (le-All c t rest le h.0))

since-since : (c d : ℕ) (xs : Stamps) → c ≤ d → since d (since c xs) ≡ since d xs
since-since c d [] h = refl
since-since c d (x ∷ xs) h = ground (arith, since-since c d xs h)

since-append : (c : ℕ) (xs ys : Stamps) → since c (xs ++ ys) ≡ since c xs ++ since c ys
since-append c [] ys = refl
since-append c (x ∷ xs) ys = ground (arith, since-append c xs ys)

All-since : (t c : ℕ) (xs : Stamps) → All (λ e. t ≤ e.0) xs → All (λ e. t ≤ e.0) (since c xs)
All-since t c [] h = tt
All-since t c (x ∷ xs) h = ground (arith, All-since t c xs h.1)

Ascending-since : (c : ℕ) (xs : Stamps) → Ascending xs → Ascending (since c xs)
Ascending-since c [] h = tt
Ascending-since c ((t, p) ∷ rest) h =
    ground (arith, Ascending-since c rest h.1, All-since t c rest h.0)

Ascending-tail : (xs ys : Stamps) → Ascending (xs ++ ys) → Ascending xs
Ascending-tail [] ys h = tt
Ascending-tail ((t, p) ∷ xs) ys h = (All-front xs h.0, Ascending-tail xs ys h.1)
  where
    All-front : (zs : Stamps) → All (λ e. t ≤ e.0) (zs ++ ys) → All (λ e. t ≤ e.0) zs
    All-front [] k = tt
    All-front (z ∷ zs) k = (k.0, All-front zs k.1)

Ascending-later :
    (xs : Stamps) (t : ℕ) (p : String) (ys : Stamps)
    → Ascending (xs ++ (t, p) ∷ ys)
    → All (λ e. t ≤ e.0) ys
Ascending-later [] t p ys h = h.0
Ascending-later (x ∷ xs) t p ys h = Ascending-later xs t p ys h.1

since_new : (c t : ℕ) (p : String) → c ≤ t → since c ((t, p) ∷ []) ≡ (t, p) ∷ []
since_new c t p h = ground arith

-- One recording, from the entries that were recent at an earlier time.
prune-push :
    (window earlier t : ℕ) (p : String) (stamps history : Stamps)
    → Ascending (history ++ (t, p) ∷ [])
    → earlier ≤ t
    → stamps ≡ since (earlier - window) history
    → prune (t - window) (stamps ++ (t, p) ∷ []) ≡ since (t - window) (history ++ (t, p) ∷ [])
prune-push window earlier t p stamps history h le e =
    let all = history ++ (t, p) ∷ [] in
    let same : stamps ++ (t, p) ∷ [] ≡ since (earlier - window) all = rw (
      since-append (earlier - window) history ((t, p) ∷ []),
      since_new (earlier - window) t p (omega arith),
      e,
    ) in
    rw same (
      prune-since (t - window) (since (earlier - window) all)
        (Ascending-since (earlier - window) all h)
      ∙ since-since (earlier - window) (t - window) all (omega arith))

-- The results of recording a sequence of modifications.
abbrev pub results : Window → Stamps → List (Option ℕ)
results d [] = []
results d ((t, p) ∷ rest) = let (d', r) = record_modification d t p in r ∷ results d' rest

-- What each recording should return: the number of all modifications so far that lie within the
-- window before it, where that reaches the threshold.
abbrev pub expected : ℕ → ℕ → Stamps → Stamps → List (Option ℕ)
expected window threshold history [] = []
expected window threshold history ((t, p) ∷ rest) =
    let history' = history ++ (t, p) ∷ [] in
    alarm threshold (length (since (t - window) history')) ∷ expected window threshold history' rest

results-from :
    (d : Window) (earlier : ℕ) (history events : Stamps)
    → Ascending (history ++ events)
    → All (λ e. earlier ≤ e.0) events
    → d.stamps ≡ since (earlier - d.window) history
    → results d events ≡ expected d.window d.threshold history events
unfolding record_modification
results-from d earlier history [] h le e = refl
results-from d earlier history ((t, p) ∷ rest) h le e =
    let both : Ascending ((history ++ (t, p) ∷ []) ++ rest) =
      rw (append_assoc history ((t, p) ∷ []) rest) h in
    let kept =
      prune-push d.window earlier t p d.stamps history
        (Ascending-tail (history ++ (t, p) ∷ []) rest both) le.0 e in
    let later =
      results-from (record d { stamps = prune (t - d.window) (d.stamps ++ (t, p) ∷ []) }) t
        (history ++ (t, p) ∷ []) rest both (Ascending-later history t p rest h) kept in
    cc (ap (λ (s : Stamps). alarm d.threshold (length s)) kept, later)

-- On a clock that does not go back, the detector that keeps only a deque raises, at every recording of
-- any sequence, exactly the alarm that the whole history calls for.
pub results-expected :
    (window threshold : ℕ) (events : Stamps)
    → Ascending events
    → results (record { window = window; threshold = threshold; stamps = [] }) events
      ≡ expected window threshold [] events
results-expected window threshold events h =
    results-from (record { window = window; threshold = threshold; stamps = [] }) 0 [] events h
      (from_zero events) refl
  where
    from_zero : (xs : Stamps) → All (λ e. 0 ≤ e.0) xs
    from_zero [] = tt
    from_zero (x ∷ xs) = (omega arith, from_zero xs)
