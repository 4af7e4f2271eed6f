-- ===== src/Ledger/Chain.antt =====
-- A chained stream: numbers from 1 without gaps, each checksum over the one before. What the store
-- reads of such a stream.
use lore_eden.Prelude.{
  ℕ, ◌+◌, String, ◌≡◌, refl, ap, Bool, true, false, ◌&&◌, ◌||◌, Option, none, some, List, [], ◌∷◌,
  ◌++◌, arith, ltb, leb, nat_eq, if◌then◌else◌, length,
}
use lore_eden.Ledger.{
  Hashing, LedgerEvent, stream, of_stream, max_from, largest, taken, insert_event, sort_events,
  events_for,
}
use lore_eden.Ledger.Audit.{expected}

module _ (h : Hashing) where
  open h use {Digest, genesis}

  -- The events continue a stream that has `n` events and ends with the checksum `prev`.
  abbrev pub Chain : ℕ → Digest → List (LedgerEvent h) → Type 0
  Chain n prev [] = Unit
  Chain n prev (e ∷ es) =
      (e.sequence_number ≡ n + 1) × (e.checksum ≡ expected h e prev) × Chain (n + 1) e.checksum es

  -- Every stream of the store is a chain from the genesis checksum.
  abbrev pub IsChained : List (LedgerEvent h) → Type 0
  IsChained events =
      (entity_id entity_type : String) → Chain 0 genesis (stream h entity_id entity_type events)

  abbrev pub last_or : LedgerEvent h → List (LedgerEvent h) → LedgerEvent h
  last_or e [] = e
  last_or e (f ∷ es) = last_or f es

  abbrev pub last? : List (LedgerEvent h) → Option (LedgerEvent h)
  last? [] = none
  last? (e ∷ es) = some (last_or e es)

  max_from-last_or :
      (best : LedgerEvent h) (es : List (LedgerEvent h)) (prev : Digest)
      → Chain best.sequence_number prev es
      → max_from h best es ≡ last_or best es
  unfolding max_from
  max_from-last_or best [] prev c = refl
  max_from-last_or best (e ∷ es) prev c =
      let later : ltb best.sequence_number e.sequence_number ≡ true = ground (arith, c.0) in
      rw later (max_from-last_or e es e.checksum (rw c.0 c.2))

  -- The event with the largest number is the last one.
  pub largest-last? : (es : List (LedgerEvent h)) → Chain 0 genesis es → largest h es ≡ last? es
  largest-last? [] c = refl
  largest-last? (e ∷ es) c = ap some (max_from-last_or e es e.checksum (rw c.0 c.2))

  pub Chain-last_or :
      (n : ℕ) (prev : Digest) (e : LedgerEvent h) (es : List (LedgerEvent h))
      → Chain n prev (e ∷ es)
      → (last_or e es).sequence_number ≡ n + length (e ∷ es)
  Chain-last_or n prev e [] c = omega (arith, c.0)
  Chain-last_or n prev e (f ∷ es) c = omega (arith, Chain-last_or (n + 1) e.checksum f es c.2)

  -- An event that continues the stream extends the chain.
  pub Chain-snoc :
      (n : ℕ) (prev : Digest) (es : List (LedgerEvent h)) (e : LedgerEvent h)
      → Chain n prev es
      → e.sequence_number ≡ n + length es + 1
      → e.checksum ≡ expected h e (elim (last? es) [ none ↦ prev | some l ↦ l.checksum ])
      → Chain n prev (es ++ e ∷ [])
  Chain-snoc n prev [] e c s k = (omega (arith, s), k, tt)
  Chain-snoc n prev (f ∷ []) e c s k = (c.0, c.1, (omega (arith, s), k, tt))
  Chain-snoc n prev (f ∷ g ∷ es) e c s k =
      (c.0, c.1, Chain-snoc (n + 1) f.checksum (g ∷ es) e c.2 (omega (arith, s)) k)

  insert_event-first :
      (n : ℕ) (prev : Digest) (e : LedgerEvent h) (es : List (LedgerEvent h))
      → Chain e.sequence_number prev es
      → insert_event h e es ≡ e ∷ es
  unfolding insert_event
  insert_event-first n prev e [] c = refl
  insert_event-first n prev e (f ∷ es) c =
      let later : leb e.sequence_number f.sequence_number ≡ true = ground (arith, c.0) in rw later

  -- A chain is sorted already.
  pub sort_events-Chain :
      (n : ℕ) (prev : Digest) (es : List (LedgerEvent h)) → Chain n prev es → sort_events h es ≡ es
  unfolding sort_events
  sort_events-Chain n prev [] c = refl
  sort_events-Chain n prev (e ∷ es) c =
      rw (sort_events-Chain (n + 1) e.checksum es c.2)
        (insert_event-first n e.checksum e es (rw c.0 c.2))

  pub events_for-Chain :
      (events : List (LedgerEvent h)) (entity_id entity_type : String)
      → IsChained events
      → events_for h events entity_id entity_type ≡ stream h entity_id entity_type events
  unfolding events_for
  events_for-Chain events entity_id entity_type c =
      sort_events-Chain 0 genesis (stream h entity_id entity_type events) (c entity_id entity_type)

  -- A number of the stream.
  abbrev pub has_number : ℕ → List (LedgerEvent h) → Bool
  has_number m [] = false
  has_number m (f ∷ es) = nat_eq f.sequence_number m || has_number m es

  pub taken-has_number :
      (e : LedgerEvent h) (events : List (LedgerEvent h))
      → taken h e events ≡ has_number e.sequence_number (stream h e.entity_id e.entity_type events)
  unfolding taken
  taken-has_number e [] = refl
  taken-has_number e (f ∷ events) = ground (arith, taken-has_number e events)

  -- The numbers of a chain are those up to its length.
  pub has_number-Chain :
      (n : ℕ) (prev : Digest) (es : List (LedgerEvent h)) (m : ℕ)
      → Chain n prev es
      → has_number m es ≡ (ltb n m && leb m (n + length es))
  has_number-Chain n prev [] m c = ground arith
  has_number-Chain n prev (f ∷ es) m c =
      ground (arith, c.0, has_number-Chain (n + 1) f.checksum es m c.2)

  -- The stream of the store after an event is added.
  pub stream-snoc :
      (entity_id entity_type : String) (events : List (LedgerEvent h)) (e : LedgerEvent h)
      → stream h entity_id entity_type (events ++ e ∷ []) ≡ (
          if of_stream h entity_id entity_type e
          then stream h entity_id entity_type events ++ e ∷ []
          else stream h entity_id entity_type events)
  stream-snoc entity_id entity_type [] e = ground arith
  stream-snoc entity_id entity_type (f ∷ events) e =
      ground (arith, stream-snoc entity_id entity_type events e)
