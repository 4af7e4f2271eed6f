-- ===== src/Ledger/Replay.antt =====
-- What `replay` rebuilds as `append_to_store` records event after event.
use mathlib.Core.Path.{subst₂}
use lore_eden.Prelude.{
  ℕ, ◌+◌, String, ◌≡◌, refl, sym, ap, ◌∙◌, inl, inr, true, none, List, [], ◌∷◌, ◌++◌, arith, eq_iff,
  if◌then◌else◌, Bool-cases, length, length-append,
}
use lore_eden.Ledger.{
  Hashing, LedgerEvent, stream, of_stream, AppendRequest, append_to_store, event_by_idempotency_key,
}
use lore_eden.Ledger.Audit.{ReplayResult, fold_events, last_sequence, replay}
use lore_eden.Ledger.Chain.{Chain, IsChained, events_for-Chain, stream-snoc}
use lore_eden.Ledger.Append.{Extends-refl, written, event-sequence}
use lore_eden.Ledger.Idempotency.{idle, next_event, next_event-free, append_to_store-idle}

module _ (h : Hashing) where
  open h use {genesis}

  fold_events-snoc :
      {S : Type 0} (reducer : S → LedgerEvent h → S) (state : S) (es : List (LedgerEvent h))
      (e : LedgerEvent h)
      → fold_events h reducer state (es ++ e ∷ []) ≡ reducer (fold_events h reducer state es) e
  unfolding fold_events
  fold_events-snoc reducer state [] e = refl
  fold_events-snoc reducer state (f ∷ es) e = fold_events-snoc reducer (reducer state f) es e

  last_sequence-snoc :
      (n : ℕ) (es : List (LedgerEvent h)) (e : LedgerEvent h)
      → last_sequence h n (es ++ e ∷ []) ≡ e.sequence_number
  unfolding last_sequence
  last_sequence-snoc n [] e = refl
  last_sequence-snoc n (f ∷ es) e = last_sequence-snoc f.sequence_number es e

  last_sequence-Chain :
      (n : ℕ) (prev : h.Digest) (es : List (LedgerEvent h))
      → Chain h n prev es
      → last_sequence h n es ≡ n + length es
  unfolding last_sequence
  last_sequence-Chain n prev [] c = omega arith
  last_sequence-Chain n prev (e ∷ es) c =
      let rest : last_sequence h (n + 1) es ≡ n + 1 + length es =
        last_sequence-Chain (n + 1) e.checksum es c.2 in
      rw (c.0, rest) (omega arith)

  last_sequence-IsChained :
      (events : List (LedgerEvent h)) (i t : String)
      → IsChained h events
      → last_sequence h 0 (stream h i t events) ≡ length (stream h i t events)
  last_sequence-IsChained events i t c =
      omega (arith, last_sequence-Chain 0 genesis (stream h i t events) (c i t))

  numbered :
      (r : AppendRequest h) (events : List (LedgerEvent h)) (i t : String)
      → IsChained h events
      → of_stream h i t (next_event h r events) ≡ true
      → (next_event h r events).sequence_number ≡ length (stream h i t events) + 1
  numbered r events i t c mine =
      let at_id : r.entity_id ≡ i = (eq_iff _ _).0 (ground (arith, mine)) in
      let at_type : r.entity_type ≡ t = (eq_iff _ _).0 (ground (arith, mine)) in
      subst₂ (λ j u. (next_event h r events).sequence_number ≡ length (stream h j u events) + 1)
        at_id at_type (event-sequence h r events c)

  module _ {S : Type 0} (reducer : S → LedgerEvent h → S) (initial : S) where
    -- The replay of a stream that a chained store holds.
    abbrev replayed : List (LedgerEvent h) → ReplayResult h S
    replayed es = record {
      state = fold_events h reducer initial es;
      events_applied = length es;
      last_sequence_number = last_sequence h 0 es;
    }

    -- On a store whose streams are chains, the last sequence number that `replay` reports is the
    -- number of events that it applied.
    pub replay-counts :
        (events : List (LedgerEvent h)) (entity_id entity_type : String)
        → IsChained h events
        → (replay h reducer initial events entity_id entity_type).last_sequence_number
          ≡ (replay h reducer initial events entity_id entity_type).events_applied
    unfolding replay
    replay-counts events i t c =
        rw (events_for-Chain h events i t c) (last_sequence-IsChained events i t c)

    -- What one more event of a stream does to a replay.
    abbrev pub step : ReplayResult h S → LedgerEvent h → ReplayResult h S
    step before e = record {
      state = reducer before.state e;
      events_applied = before.events_applied + 1;
      last_sequence_number = before.last_sequence_number + 1;
    }

    replay-Chain :
        (events : List (LedgerEvent h)) (i t : String)
        → IsChained h events
        → replay h reducer initial events i t ≡ replayed (stream h i t events)
    unfolding replay
    replay-Chain events i t c = rw (events_for-Chain h events i t c) refl

    cong_replay :
        {a b : S} {m n k l : ℕ}
        → a ≡ b
        → m ≡ n
        → k ≡ l
        → Path
            (ReplayResult h S)
            (record { state = a; events_applied = m; last_sequence_number = k })
            (record { state = b; events_applied = n; last_sequence_number = l })
    cong_replay p q r =
        λ i. record { state = p i; events_applied = q i; last_sequence_number = r i }

    replayed-snoc :
        (es : List (LedgerEvent h)) (e : LedgerEvent h)
        → last_sequence h 0 es ≡ length es
        → e.sequence_number ≡ length es + 1
        → replayed (es ++ e ∷ []) ≡ step (replayed es) e
    replayed-snoc es e c next =
        cong_replay (fold_events-snoc reducer initial es e) (length-append es (e ∷ []))
          (last_sequence-snoc 0 es e ∙ next ∙ ap (λ n. n + 1) (sym c))

    -- On a store whose streams are chains, after a lone `append_to_store` whose key is not known, the replay
    -- of the event's entity is the replay before with the reducer applied once more, to the new
    -- event, and the counts one higher. The replay of every other entity is what it was.
    pub replay-append_to_store :
        (r : AppendRequest h) (events : List (LedgerEvent h)) (entity_id entity_type : String)
        → IsChained h events
        → event_by_idempotency_key h events r.idempotency_key ≡ none
        → replay h reducer initial
            (append_to_store h (idle h) (idle h) r events).1
            entity_id
            entity_type
          ≡ (if of_stream h entity_id entity_type (next_event h r events)
              then step
                  (replay h reducer initial events entity_id entity_type)
                  (next_event h r events)
              else replay h reducer initial events entity_id entity_type)
    replay-append_to_store r events i t c fresh =
        let e = next_event h r events in
        let all =
          written h r events c events (Extends-refl h events c) (next_event-free h r events c) in
        rw
          (
            append_to_store-idle h r events c,
            fresh,
            replay-Chain (events ++ e ∷ []) i t all.chained,
            stream-snoc h i t events e,
            replay-Chain events i t c,
          )
          (elim (Bool-cases (of_stream h i t e)) [
            | inr other ↦ rw other refl
            | inl mine ↦ rw mine (
                replayed-snoc (stream h i t events) e (last_sequence-IsChained events i t c)
                  (numbered r events i t c mine))
          ])
