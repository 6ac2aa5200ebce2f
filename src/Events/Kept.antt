-- ===== src/Events/Kept.antt =====
-- What the event bus of aegorx/behavioral/events.py keeps of the events it was given.
use aegor_x.Prelude.{
  ℕ, zero, suc, ◌+◌, ◌-◌, ◌≤◌, ◌<◌, ◌≡◌, refl, sym, ap, ◌∙◌, String, String_discrete, List, [], ◌∷◌,
  ◌++◌, ◌≐◌, length, drop, last, select, arith, lookup, lookup-insert, length-append, length-drop,
  append_assoc, append-nil,
}
use aegor_x.Events.{BehaviorEvent, EventBus, new_bus, value_of, count, recorded, emit, emit_all}

module _ {A : Type 0} where
  drop-append : (n : ℕ) (xs ys : List A) → n ≤ length xs → drop n (xs ++ ys) ≡ drop n xs ++ ys
  drop-append zero xs ys h = refl
  drop-append (suc n) [] ys h = absurd (omega arith)
  drop-append (suc n) (x ∷ xs) ys h = drop-append n xs ys (omega arith)

  drop_nil : (n : ℕ) → drop {A = A} n [] ≡ []
  drop_nil zero = refl
  drop_nil (suc n) = refl

  drop-drop : (m n : ℕ) (xs : List A) → drop n (drop m xs) ≡ drop (m + n) xs
  drop-drop zero n xs = ap (λ k. drop k xs) (omega arith)
  drop-drop (suc m) n [] = drop_nil n ∙ sym (drop_nil (suc m + n))
  drop-drop (suc m) n (x ∷ xs) =
      let e : suc m + n ≡ suc (m + n) = omega arith in
      drop-drop m n xs ∙ sym (ap (λ k. drop k (x ∷ xs)) e)

  last-append : (n : ℕ) (xs : List A) (x : A) → last n (last n xs ++ x ∷ []) ≡ last n (xs ++ x ∷ [])
  last-append n xs x =
      let k = length xs - n in
      let j = length (drop k xs ++ x ∷ []) - n in
      let e : k + j ≡ length (xs ++ x ∷ []) - n =
        omega (
          arith,
          length-append (drop k xs) (x ∷ []),
          length-append xs (x ∷ []),
          length-drop k xs,
        ) in
      ap (λ ys. drop j ys) (sym (drop-append k xs (x ∷ []) (omega arith)))
      ∙ drop-drop k j (xs ++ x ∷ [])
      ∙ ap (λ i. drop i (xs ++ x ∷ [])) e

  last-all : (n : ℕ) (xs : List A) → length xs ≤ n → last n xs ≡ xs
  last-all n xs h = let e : length xs - n ≡ 0 = omega arith in ap (λ i. drop i xs) e

recorded-last :
    (n : ℕ) (history : List BehaviorEvent) (e : BehaviorEvent)
    → 0 < n
    → recorded n history e ≡ last n (history ++ e ∷ [])
recorded-last n history e pos = ground (arith, last-all n (history ++ e ∷ []))

emit_all-last :
    (n : ℕ) (es past : List BehaviorEvent) (b : EventBus)
    → 0 < n
    → b.max_history ≡ n
    → b.history ≡ last n past
    → (emit_all es b).history ≡ last n (past ++ es)
unfolding emit emit_all
emit_all-last n [] past b pos m h = h ∙ ap (λ xs. last n xs) (sym (append-nil past))
emit_all-last n (e ∷ es) past b pos m h =
    let step : (emit e b).0.history ≡ last n (past ++ e ∷ []) =
      ap (λ k. recorded k b.history e) m
      ∙ recorded-last n b.history e pos
      ∙ ap (λ xs. last n (xs ++ e ∷ [])) h
      ∙ last-append n past e in
    emit_all-last n es (past ++ e ∷ []) (emit e b).0 pos m step
    ∙ ap (λ xs. last n xs) (append_assoc past (e ∷ []) es)

emit_all-count :
    (k : String) (es : List BehaviorEvent) (b : EventBus)
    → count k (emit_all es b).stats
      ≡ count k b.stats + length (select (λ e. value_of e.event_type ≐ k) es)
unfolding emit emit_all
emit_all-count k [] b = omega arith
emit_all-count k (e ∷ es) b = ground (
  arith,
  emit_all-count k es (emit e b).0,
  lookup-insert String_discrete k (value_of e.event_type)
      (count (value_of e.event_type) b.stats + 1) b.stats,
)

new_bus-count :
    (n : ℕ) (k : String) (es : List BehaviorEvent)
    → count k (emit_all es (new_bus n)).stats ≡ length (select (λ e. value_of e.event_type ≐ k) es)
unfolding lookup
new_bus-count n k es = omega (arith, emit_all-count k es (new_bus n))

-- After any events, a new bus that may keep one event at least has kept the last of them in their
-- order, as many as it may, and has counted all events of each type.
pub emit_all-history :
    (n : ℕ) (k : String) (es : List BehaviorEvent)
    → 0 < n
    → ((emit_all es (new_bus n)).history ≡ last n es)
      × (count k (emit_all es (new_bus n)).stats
          ≡ length (select (λ e. value_of e.event_type ≐ k) es))
emit_all-history n k es pos =
    (emit_all-last n es [] (new_bus n) pos refl (sym (drop_nil (0 - n))), new_bus-count n k es)
