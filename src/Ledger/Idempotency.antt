-- ===== src/Ledger/Idempotency.antt =====
-- What `append_to_store` does with an idempotency key: a lone writer never meets a conflict of numbers, and a
-- retry finds the event of the first call.
use lore_eden.Prelude.{
  String, ◌≡◌, refl, sym, ap, ◌∙◌, inl, inr, true, false, Option, none, some, List, [], ◌∷◌, ◌++◌,
  arith, ◌==◌, eq_iff, eq_refl, if◌then◌else◌, Bool-cases,
}
use mathlib.Core.Option.{some_inj}
use lore_eden.Prelude.Result.{Result, ok, raised}
use lore_eden.Ledger.{
  Hashing, LedgerError, key_conflict, LedgerEvent, stream, last_event, taken, append_event,
  first_with_key, AppendRequest, AppendResult, candidate, same_fact, matched, Outcome,
  recognised_or, attempt, Writers, append_to_store, event_by_idempotency_key,
}
use lore_eden.Ledger.Chain.{IsChained, taken-has_number, has_number-Chain}
use lore_eden.Ledger.Append.{Extends-refl, IsAppendOnly, event-sequence}

module _ (h : Hashing) where
  open h use {genesis}

  -- Other writers that do nothing.
  abbrev pub idle : Writers h
  idle = record {
    before_read = λ events. events;
    before_write = λ events. events;
    before_lookup = λ events. events;
  }

  pub idle-IsAppendOnly : IsAppendOnly h idle
  idle-IsAppendOnly = record {
    read = Extends-refl h;
    write = Extends-refl h;
    lookup = Extends-refl h;
  }

  abbrev pub next_event : AppendRequest h → List (LedgerEvent h) → LedgerEvent h
  next_event r events = candidate h r (last_event h events r.entity_id r.entity_type)

  -- The number that follows the last event of a chain is free.
  pub next_event-free :
      (r : AppendRequest h) (events : List (LedgerEvent h))
      → IsChained h events
      → taken h (next_event r events) events ≡ false
  next_event-free r events c = ground (
    arith,
    event-sequence h r events c,
    taken-has_number h (next_event r events) events,
    has_number-Chain h 0 genesis (stream h r.entity_id r.entity_type events)
        (next_event r events).sequence_number (c r.entity_id r.entity_type),
  )

  -- A first recording.
  abbrev pub written : AppendRequest h → List (LedgerEvent h) → Outcome h
  written r events = (
    ok (record { event = next_event r events; was_replay = false }),
    events ++ next_event r events ∷ [],
  )

  -- On a store whose streams are chains, a lone `append_to_store` takes one attempt: it answers from the
  -- event with the same key if there is one, and otherwise records the next event of the stream.
  pub append_to_store-idle :
      (r : AppendRequest h) (events : List (LedgerEvent h))
      → IsChained h events
      → append_to_store h idle idle r events
        ≡ recognised_or h
            (event_by_idempotency_key h events r.idempotency_key)
            r
            events
            (written r events)
  unfolding append_to_store attempt append_event
  append_to_store-idle r events c = rw (next_event-free r events c) refl

  first_with_key-snoc :
      (key : String) (events : List (LedgerEvent h)) (e : LedgerEvent h)
      → first_with_key h key events ≡ none
      → (e.idempotency_key == key) ≡ true
      → first_with_key h key (events ++ e ∷ []) ≡ some e
  unfolding first_with_key
  first_with_key-snoc key [] e missing same = rw same refl
  first_with_key-snoc key (f ∷ events) e missing same =
      ground (arith, first_with_key-snoc key events e, missing, same)

  first_with_key-key :
      (key : String) (events : List (LedgerEvent h)) (e : LedgerEvent h)
      → first_with_key h key events ≡ some e
      → (e.idempotency_key == key) ≡ true
  unfolding first_with_key
  first_with_key-key key [] e found = ground arith
  first_with_key-key key (f ∷ events) e found =
      ground (arith, first_with_key-key key events e, found)

  known_key :
      (r : AppendRequest h) (events : List (LedgerEvent h)) (seen : LedgerEvent h)
      → event_by_idempotency_key h events r.idempotency_key ≡ some seen
      → (seen.idempotency_key == r.idempotency_key) ≡ true
  unfolding event_by_idempotency_key
  known_key r events seen looked = elim (Bool-cases (r.idempotency_key == "")) [
    | inl none_given ↦ ground (arith, looked, none_given)
    | inr keyed ↦ first_with_key-key r.idempotency_key events seen (sym (rw keyed refl) ∙ looked)
  ]

  abbrev event_of : Result LedgerError (AppendResult h) → Option (LedgerEvent h)
  event_of (ok result) = some result.event
  event_of (raised e) = none

  matched-event_of :
      (seen : LedgerEvent h) (r : AppendRequest h) (result : AppendResult h)
      → matched h seen r ≡ ok result
      → seen ≡ result.event
  unfolding matched
  matched-event_of seen r result answer = elim (Bool-cases (same_fact h seen r)) [
    | inl same ↦ some_inj.0 (sym (rw same refl) ∙ ap event_of answer)
    | inr other ↦ ground (arith, answer, other)
  ]

  -- The event that answers a successful call is found under its key afterwards.
  kept_under_key :
      (r : AppendRequest h) (events : List (LedgerEvent h)) (seen : Option (LedgerEvent h))
      (result : AppendResult h)
      → (r.idempotency_key == "") ≡ false
      → event_by_idempotency_key h events r.idempotency_key ≡ seen
      → (recognised_or h seen r events (written r events)).0 ≡ ok result
      → event_by_idempotency_key h
          (recognised_or h seen r events (written r events)).1
          r.idempotency_key
        ≡ some result.event
  unfolding event_by_idempotency_key
  kept_under_key r events none result keyed looked answer =
      rw
        (
          keyed,
          first_with_key-snoc r.idempotency_key events (next_event r events)
              (sym (rw keyed refl) ∙ looked) (eq_refl r.idempotency_key),
        )
        (ap event_of answer)
  kept_under_key r events (some seen) result keyed looked answer =
      looked ∙ ap some (matched-event_of seen r result answer)

  -- A call whose key is known changes nothing, whatever other writers do.
  recognises :
      (first second : Writers h) (r : AppendRequest h) (events : List (LedgerEvent h))
      (seen : LedgerEvent h)
      → event_by_idempotency_key h events r.idempotency_key ≡ some seen
      → append_to_store h first second r events ≡ (
        if same_fact h seen r
            then ok (record { event = seen; was_replay = true })
            else raised (key_conflict r.idempotency_key),
        events,
      )
  unfolding append_to_store matched
  recognises first second r events seen looked =
      rw
        (looked, (eq_iff seen.idempotency_key r.idempotency_key).0 (known_key r events seen looked))
        refl

  -- On a store whose streams are chains, after a lone `append_to_store` with a nonempty key has answered
  -- with an event, every `append_to_store` with that key, whatever other writers do, leaves the store
  -- as it is. It answers with that event as a replay if it says the same fact, and raises a
  -- conflict of keys otherwise.
  pub append_to_store-retry :
      (first second : Writers h) (r again : AppendRequest h) (events : List (LedgerEvent h))
      (result : AppendResult h)
      → IsChained h events
      → (r.idempotency_key == "") ≡ false
      → again.idempotency_key ≡ r.idempotency_key
      → (append_to_store h idle idle r events).0 ≡ ok result
      → append_to_store h first second again (append_to_store h idle idle r events).1 ≡ (
        if same_fact h result.event again
            then ok (record { event = result.event; was_replay = true })
            else raised (key_conflict r.idempotency_key),
        (append_to_store h idle idle r events).1,
      )
  append_to_store-retry first second r again events result c keyed same answer =
      let idle_call = append_to_store-idle r events c in
      let kept : event_by_idempotency_key h (append_to_store h idle idle r events).1
            r.idempotency_key
          ≡ some result.event =
        rw idle_call
          (kept_under_key r events _ result keyed refl (sym (ap (λ o. o.0) idle_call) ∙ answer)) in
      recognises first second again (append_to_store h idle idle r events).1 result.event
        (ap (event_by_idempotency_key h (append_to_store h idle idle r events).1) same ∙ kept)
      ∙ ap
          (λ k. (
            if same_fact h result.event again
                then ok (record { event = result.event; was_replay = true })
                else raised (key_conflict k),
            (append_to_store h idle idle r events).1,
          ))
          same
