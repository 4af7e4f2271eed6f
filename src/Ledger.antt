-- ===== src/Ledger.antt =====
-- python/lore_eden/ledger.py: the append-only event ledger, over the in-memory store of
-- python/lore_eden/store/memory.py.
pub mod Audit
pub mod Chain
pub mod Append
pub mod Verify
pub mod Idempotency
pub mod Replay
pub mod Cached
pub mod Projections
pub mod Agreement
mod Examples
use lore_eden.Prelude.{
  ℕ, zero, suc, ◌+◌, String, ◌≡◌, ◌↔◌, Bool, true, false, ◌&&◌, ◌||◌, Option, none, some, List, [],
  ◌∷◌, ◌++◌, ◌==◌, ltb, leb, nat_eq, if◌then◌else◌, select, length,
}
use lore_eden.Prelude.Result.{Result, ok, raised}
use lore_eden.Cache.{CacheError}

-- The dict that `compute_checksum` makes canonical JSON of.
pub record Canonical (Payload Digest : Type 0) : Type 0 where
  pub event_type : String
  pub entity_id : String
  pub entity_type : String
  pub sequence_number : ℕ
  pub payload : Payload
  pub prev_checksum : Digest

-- What the ledger takes from json and hashlib: the payloads and how they compare as dicts, the JSON
-- text of a dict with sorted keys, and the SHA-256 digest of a text. Nothing is assumed of the text
-- and the digest here.
pub record Hashing : Type 1 where
  pub Payload : Type 0
  pub payload_eq : Payload → Payload → Bool
  pub payload_eq_iff : (p q : Payload) → (payload_eq p q ≡ true) ↔ (p ≡ q)
  pub Digest : Type 0
  pub digest_eq : Digest → Digest → Bool
  pub digest_eq_iff : (p q : Digest) → (digest_eq p q ≡ true) ↔ (p ≡ q)
  -- GENESIS_CHECKSUM
  pub genesis : Digest
  pub JsonText : Type 0
  pub dumps : Canonical Payload Digest → JsonText
  pub sha256 : JsonText → Digest

pub data LedgerError : Type 0 where
  -- LedgerSequenceConflict: a sequence number that is taken
  sequence_conflict : String → String → ℕ → LedgerError
  -- IdempotencyKeyConflict: a key that already means something else
  key_conflict : String → LedgerError
  -- what the cache raised
  cache_failed : CacheError → LedgerError

module _ (h : Hashing) where
  open h use {Payload, payload_eq, Digest, genesis, dumps, sha256}

  abbrev pub compute_checksum : String → String → String → ℕ → Payload → Digest → Digest
  compute_checksum event_type entity_id entity_type sequence_number payload prev_checksum = sha256 (
      dumps (record {
        event_type = event_type;
        entity_id = entity_id;
        entity_type = entity_type;
        sequence_number = sequence_number;
        payload = payload;
        prev_checksum = prev_checksum;
      }))

  pub record LedgerEvent : Type 0 where
    pub event_type : String
    pub entity_id : String
    pub entity_type : String
    pub payload : Payload
    pub sequence_number : ℕ
    pub checksum : Digest
    pub actor : String
    pub idempotency_key : String
    pub occurred_at : ℕ

  abbrev pub of_stream : String → String → LedgerEvent → Bool
  of_stream entity_id entity_type e = e.entity_id == entity_id && e.entity_type == entity_type

  -- The events of one entity, as the store holds them.
  abbrev pub stream : String → String → List LedgerEvent → List LedgerEvent
  stream entity_id entity_type events = select (of_stream entity_id entity_type) events

  -- max(stream, key=sequence_number): the first of the largest
  unfoldable pub max_from : LedgerEvent → List LedgerEvent → LedgerEvent
  max_from best [] = best
  max_from best (e ∷ es) =
      max_from (if ltb best.sequence_number e.sequence_number then e else best) es

  abbrev pub largest : List LedgerEvent → Option LedgerEvent
  largest [] = none
  largest (e ∷ es) = some (max_from e es)

  unfoldable pub last_event : List LedgerEvent → String → String → Option LedgerEvent
  last_event events entity_id entity_type = largest (stream entity_id entity_type events)

  abbrev pub same_place : LedgerEvent → LedgerEvent → Bool
  same_place event stored =
      (stored.entity_id == event.entity_id && stored.entity_type == event.entity_type)
      && nat_eq stored.sequence_number event.sequence_number

  unfoldable pub taken : LedgerEvent → List LedgerEvent → Bool
  taken event [] = false
  taken event (stored ∷ events) = same_place event stored || taken event events

  unfoldable pub append_event :
      List LedgerEvent → LedgerEvent → Result LedgerError (List LedgerEvent)
  append_event events event =
      if taken event events
      then raised (sequence_conflict event.entity_type event.entity_id event.sequence_number)
      else ok (events ++ event ∷ [])

  -- sorted(stream, key=sequence_number)
  unfoldable pub insert_event : LedgerEvent → List LedgerEvent → List LedgerEvent
  insert_event e [] = e ∷ []
  insert_event e (f ∷ fs) =
      if leb e.sequence_number f.sequence_number then e ∷ f ∷ fs else f ∷ insert_event e fs

  unfoldable pub sort_events : List LedgerEvent → List LedgerEvent
  sort_events [] = []
  sort_events (e ∷ es) = insert_event e (sort_events es)

  unfoldable pub events_for : List LedgerEvent → String → String → List LedgerEvent
  events_for events entity_id entity_type = sort_events (stream entity_id entity_type events)

  -- The loop of `event_by_idempotency_key`.
  unfoldable pub first_with_key : String → List LedgerEvent → Option LedgerEvent
  first_with_key key [] = none
  first_with_key key (e ∷ es) = if e.idempotency_key == key then some e else first_with_key key es

  unfoldable pub event_by_idempotency_key : List LedgerEvent → String → Option LedgerEvent
  event_by_idempotency_key events key = if key == "" then none else first_with_key key events

  -- The arguments of `append`, with the clock's reading.
  pub record AppendRequest : Type 0 where
    pub event_type : String
    pub entity_id : String
    pub entity_type : String
    pub payload : Payload
    pub actor : String
    pub idempotency_key : String
    pub now : ℕ

  pub record AppendResult : Type 0 where
    pub event : LedgerEvent
    pub was_replay : Bool

  abbrev pub sequence_after : Option LedgerEvent → ℕ
  sequence_after none = 1
  sequence_after (some last) = last.sequence_number + 1

  abbrev pub checksum_after : Option LedgerEvent → Digest
  checksum_after none = genesis
  checksum_after (some last) = last.checksum

  abbrev pub candidate : AppendRequest → Option LedgerEvent → LedgerEvent
  candidate r last = record {
    event_type = r.event_type;
    entity_id = r.entity_id;
    entity_type = r.entity_type;
    payload = r.payload;
    sequence_number = sequence_after last;
    checksum =
        compute_checksum r.event_type r.entity_id r.entity_type (sequence_after last) r.payload
          (checksum_after last);
    actor = r.actor;
    idempotency_key = r.idempotency_key;
    occurred_at = r.now;
  }

  abbrev pub same_fact : LedgerEvent → AppendRequest → Bool
  same_fact seen r =
      (seen.event_type == r.event_type && seen.entity_id == r.entity_id)
      && (seen.entity_type == r.entity_type && payload_eq seen.payload r.payload)

  -- `_matched`: the stored event, if the key was reused for the same fact
  unfoldable pub matched : LedgerEvent → AppendRequest → Result LedgerError AppendResult
  matched seen r =
      if same_fact seen r
      then ok (record { event = seen; was_replay = true })
      else raised (key_conflict seen.idempotency_key)

  -- A call's result beside the events that it leaves in the store.
  abbrev pub Outcome : Type 0
  Outcome = Result LedgerError AppendResult × List LedgerEvent

  abbrev pub recognised_or :
      Option LedgerEvent → AppendRequest → List LedgerEvent → Outcome → Outcome
  recognised_or none r events otherwise = otherwise
  recognised_or (some seen) r events otherwise = (matched seen r, events)

  abbrev pub placed :
      LedgerEvent → List LedgerEvent → Result LedgerError (List LedgerEvent) → Outcome → Outcome
  placed event events (ok events') conflict =
      (ok (record { event = event; was_replay = false }), events')
  placed event events (raised e) conflict = conflict

  abbrev pub conflict_of : LedgerEvent → List LedgerEvent → Outcome
  conflict_of event events =
      (raised (sequence_conflict event.entity_type event.entity_id event.sequence_number), events)

  -- One attempt: what was read is `events`, what the write meets is `met`, after other writers.
  unfoldable pub attempt :
      AppendRequest → List LedgerEvent → List LedgerEvent → (LedgerEvent → Outcome) → Outcome
  attempt r events met conflict =
      let event = candidate r (last_event events r.entity_id r.entity_type) in
      placed event met (append_event met event) (conflict event)

  -- What other writers do to the store during an attempt: before it reads the last event, before it
  -- writes, and, where the write met a conflict, before it looks the key up.
  pub record Writers : Type 0 where
    pub before_read : List LedgerEvent → List LedgerEvent
    pub before_write : List LedgerEvent → List LedgerEvent
    pub before_lookup : List LedgerEvent → List LedgerEvent

  -- What `Ledger.append` does to the store, with MAX_APPEND_ATTEMPTS = 2; the module Cached adds
  -- the cache. Between any two of its calls of the store other writers may change it: `first` and
  -- `second` say how, during the first attempt and the second.
  unfoldable pub append_to_store :
      (first second : Writers) → AppendRequest → List LedgerEvent → Outcome
  append_to_store first second r events =
      let read = first.before_read events in
      let met = first.before_write read in
      let left = first.before_lookup met in
      let read' = second.before_read left in
      let met' = second.before_write read' in
      let left' = second.before_lookup met' in
      recognised_or (event_by_idempotency_key events r.idempotency_key) r events (
        attempt r read met λ _.
          recognised_or (event_by_idempotency_key left r.idempotency_key) r left (
            attempt r read' met' λ event.
              recognised_or (event_by_idempotency_key left' r.idempotency_key) r left'
                (conflict_of event left')))
