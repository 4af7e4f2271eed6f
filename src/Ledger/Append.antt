-- ===== src/Ledger/Append.antt =====
-- `append_to_store` keeps every stream a chain, whatever other writers do between its calls of the store.
use mathlib.Core.Path.{subst₂}
use mathlib.Core.List.{append-nil, append_assoc}
use lore_eden.Prelude.{
  ◌+◌, String, ◌≡◌, refl, sym, ap, ◌∙◌, inl, inr, false, Option, none, some, List, [], ◌∷◌, ◌++◌,
  arith, eq_iff, Bool-cases, length, length-append,
}
use lore_eden.Ledger.{
  Hashing, LedgerEvent, stream, of_stream, last_event, taken, append_event, AppendRequest,
  candidate, Outcome, recognised_or, attempt, Writers, append_to_store, event_by_idempotency_key,
  sequence_after, checksum_after,
}
use lore_eden.Ledger.Audit.{expected}
use lore_eden.Ledger.Chain.{
  Chain, IsChained, last?, largest-last?, Chain-last_or, Chain-snoc, taken-has_number,
  has_number-Chain, stream-snoc,
}

module _ (h : Hashing) where
  open h use {Digest, genesis}

  -- What an append-only writer may do: every stream is a chain afterwards, and begins with the
  -- events that it had.
  pub record Extends (before after : List (LedgerEvent h)) : Type 0 where
    pub chained : IsChained h after
    pub kept :
        (entity_id entity_type : String)
        → (more : List (LedgerEvent h)) × (stream h entity_id entity_type after
            ≡ stream h entity_id entity_type before ++ more)

  pub Extends-refl : (events : List (LedgerEvent h)) → IsChained h events → Extends events events
  Extends-refl events c = record { chained = c; kept = λ i t. ([], sym (append-nil _)) }

  Extends-trans : (a b c : List (LedgerEvent h)) → Extends a b → Extends b c → Extends a c
  Extends-trans a b c p q = record {
    chained = q.chained;
    kept = λ i t.
        let (more, e) = p.kept i t in
        let (more', e') = q.kept i t in
        (more ++ more', e' ∙ ap (λ l. l ++ more') e ∙ append_assoc _ more more');
  }

  after_last :
      (es : List (LedgerEvent h))
      → Chain h 0 genesis es
      → (sequence_after h (last? h es) ≡ length es + 1)
        × (checksum_after h (last? h es)
            ≡ elim (last? h es) [ none ↦ genesis | some l ↦ l.checksum ])
  after_last [] c = (omega arith, refl)
  after_last (e ∷ es) c = (omega (arith, Chain-last_or h 0 genesis e es c), refl)

  module _ (r : AppendRequest h) (events : List (LedgerEvent h)) (c : IsChained h events) where
    abbrev own : List (LedgerEvent h) → List (LedgerEvent h)
    own = stream h r.entity_id r.entity_type

    abbrev event : LedgerEvent h
    event = candidate h r (last_event h events r.entity_id r.entity_type)

    last_event-last? : last_event h events r.entity_id r.entity_type ≡ last? h (own events)
    unfolding last_event
    last_event-last? = largest-last? h (own events) (c r.entity_id r.entity_type)

    pub event-sequence : event.sequence_number ≡ length (own events) + 1
    event-sequence = rw last_event-last? (after_last (own events) (c r.entity_id r.entity_type)).0

    -- If the place is free in a store that extends what was read, the stream is what was read.
    unchanged :
        (met : List (LedgerEvent h))
        → Extends events met
        → taken h event met ≡ false
        → own met ≡ own events
    unchanged met x free = let (more, e) = x.kept r.entity_id r.entity_type in go more e
      where
        go : (more : List (LedgerEvent h)) → own met ≡ own events ++ more → own met ≡ own events
        go [] e = e ∙ append-nil (own events)
        go (f ∷ more) e = absurd (
            ground (
              arith,
              event-sequence,
              taken-has_number h event met,
              has_number-Chain h 0 genesis (own met) event.sequence_number
                  (x.chained r.entity_id r.entity_type),
              ap (length {A = LedgerEvent h}) e,
              length-append (own events) (f ∷ more),
            ))

    own-Chain :
        (met : List (LedgerEvent h))
        → Extends events met
        → taken h event met ≡ false
        → Chain h 0 genesis (own met ++ event ∷ [])
    own-Chain met x free =
        let same = unchanged met x free in
        let last = last_event-last? in
        Chain-snoc h 0 genesis (own met) event (x.chained r.entity_id r.entity_type)
          (omega (arith, event-sequence, ap (length {A = LedgerEvent h}) same))
          (ap (λ d. expected h event d)
            (rw (last, same) ((after_last (own events) (c r.entity_id r.entity_type)).1)))

    pub written :
        (met : List (LedgerEvent h))
        → Extends events met
        → taken h event met ≡ false
        → Extends met (met ++ event ∷ [])
    written met x free = record { chained = chained; kept = kept }
      where
        chained : IsChained h (met ++ event ∷ [])
        chained i t = elim (Bool-cases (of_stream h i t event)) [
          | inr other ↦ rw (stream-snoc h i t met event, other) (x.chained i t)
          | inl mine ↦
              let at_id : r.entity_id ≡ i = (eq_iff _ _).0 (ground arith) in
              let at_type : r.entity_type ≡ t = (eq_iff _ _).0 (ground arith) in
              rw (stream-snoc h i t met event, mine)
                (subst₂ (λ j u. Chain h 0 genesis (stream h j u met ++ event ∷ [])) at_id at_type
                  (own-Chain met x free))
        ]

        kept :
            (i t : String)
            → (more : List (LedgerEvent h)) × (stream h i t (met ++ event ∷ [])
                ≡ stream h i t met ++ more)
        kept i t = elim (Bool-cases (of_stream h i t event)) [
          | inr other ↦ ([], rw (stream-snoc h i t met event, other) (sym (append-nil _)))
          | inl mine ↦ (event ∷ [], rw (stream-snoc h i t met event, mine))
        ]

    attempt-Extends :
        (met : List (LedgerEvent h)) (conflict : LedgerEvent h → Outcome h)
        → Extends events met
        → ((e : LedgerEvent h) → Extends events (conflict e).1)
        → Extends events (attempt h r events met conflict).1
    unfolding attempt append_event
    attempt-Extends met conflict x otherwise = elim (Bool-cases (taken h event met)) [
      | inl busy ↦ rw busy (otherwise event)
      | inr free ↦ rw free (Extends-trans events met (met ++ event ∷ []) x (written met x free))
    ]

  recognised_or-Extends :
      (seen : Option (LedgerEvent h)) (r : AppendRequest h) (start events : List (LedgerEvent h))
      (otherwise : Outcome h)
      → Extends start events
      → Extends start otherwise.1
      → Extends start (recognised_or h seen r events otherwise).1
  recognised_or-Extends none r start events otherwise x y = y
  recognised_or-Extends (some seen) r start events otherwise x y = x

  -- Other writers that append only, at each point of an attempt.
  pub record IsAppendOnly (w : Writers h) : Type 0 where
    pub read : (s : List (LedgerEvent h)) → IsChained h s → Extends s (w.before_read s)
    pub write : (s : List (LedgerEvent h)) → IsChained h s → Extends s (w.before_write s)
    pub lookup : (s : List (LedgerEvent h)) → IsChained h s → Extends s (w.before_lookup s)

  -- One attempt among writers that append only.
  among-Extends :
      (w : Writers h) (r : AppendRequest h) (events : List (LedgerEvent h))
      (conflict : LedgerEvent h → Outcome h)
      → IsAppendOnly w
      → IsChained h events
      → ((e : LedgerEvent h)
          → IsChained h (w.before_lookup (w.before_write (w.before_read events)))
          → Extends (w.before_lookup (w.before_write (w.before_read events))) (conflict e).1)
      → Extends events
          (attempt h r (w.before_read events) (w.before_write (w.before_read events)) conflict).1
  among-Extends w r events conflict only c otherwise =
      let read = w.before_read events in
      let met = w.before_write read in
      let x = only.read events c in
      let y = only.write read x.chained in
      let z = only.lookup met y.chained in
      Extends-trans events read _ x (
        attempt-Extends r read x.chained met conflict y λ e.
          Extends-trans read met _ y
            (Extends-trans met (w.before_lookup met) _ z (otherwise e z.chained)))

  -- From a store whose streams are chains, `append_to_store` leaves a store whose streams are chains that
  -- begin with the events they had, whether it records, recognises or refuses, on its first attempt
  -- or its second, if what other writers do between its reads and its writes does the same.
  pub append_to_store-Extends :
      (first second : Writers h) (r : AppendRequest h) (events : List (LedgerEvent h))
      → IsAppendOnly first
      → IsAppendOnly second
      → IsChained h events
      → Extends events (append_to_store h first second r events).1
  unfolding append_to_store
  append_to_store-Extends first second r events only only' c =
      recognised_or-Extends (event_by_idempotency_key h events r.idempotency_key) r events events _
        (Extends-refl events c)
        (among-Extends first r events _ only c λ _ c'.
          let left = first.before_lookup (first.before_write (first.before_read events)) in
          recognised_or-Extends (event_by_idempotency_key h left r.idempotency_key) r left left _
            (Extends-refl left c')
            (among-Extends second r left _ only' c' λ _ c''.
              let left' = second.before_lookup (second.before_write (second.before_read left)) in
              recognised_or-Extends (event_by_idempotency_key h left' r.idempotency_key) r left'
                left' _ (Extends-refl left' c'') (Extends-refl left' c'')))
