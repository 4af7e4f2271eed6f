-- ===== src/Ledger/Audit.antt =====
-- python/lore_eden/ledger.py: what is read back from a stream, `replay` and `verify_chain`.
use lore_eden.Prelude.{
  ℕ, String, Bool, true, false, Option, none, some, List, [], ◌∷◌, if◌then◌else◌, length,
}
use lore_eden.Ledger.{Hashing, LedgerEvent, compute_checksum, events_for}

module _ (h : Hashing) where
  open h use {Digest, digest_eq, genesis}

  pub record ReplayResult (S : Type 0) : Type 0 where
    pub state : S
    pub events_applied : ℕ
    pub last_sequence_number : ℕ

  unfoldable pub fold_events : {S : Type 0} → (S → LedgerEvent h → S) → S → List (LedgerEvent h) → S
  fold_events reducer state [] = state
  fold_events reducer state (e ∷ es) = fold_events reducer (reducer state e) es

  unfoldable pub last_sequence : ℕ → List (LedgerEvent h) → ℕ
  last_sequence n [] = n
  last_sequence n (e ∷ es) = last_sequence e.sequence_number es

  -- `Ledger.replay` of an unnamed projection
  unfoldable pub replay :
      {S : Type 0}
      → (S → LedgerEvent h → S)
      → S
      → List (LedgerEvent h)
      → String
      → String
      → ReplayResult S
  replay reducer initial stored entity_id entity_type =
      let events = events_for h stored entity_id entity_type in
      record {
        state = fold_events reducer initial events;
        events_applied = length events;
        last_sequence_number = last_sequence 0 events;
      }

  pub record ChainReport : Type 0 where
    pub entity_id : String
    pub entity_type : String
    pub events_checked : ℕ
    pub intact : Bool
    pub broken_at_sequence : ℕ

  -- The checksum that `verify_chain` expects of an event.
  abbrev pub expected : LedgerEvent h → Digest → Digest
  expected e prev =
      compute_checksum h e.event_type e.entity_id e.entity_type e.sequence_number e.payload prev

  -- The loop of `verify_chain`: the first event whose checksum disagrees.
  unfoldable pub first_broken : Digest → List (LedgerEvent h) → Option ℕ
  first_broken prev [] = none
  first_broken prev (e ∷ es) =
      if digest_eq (expected e prev) e.checksum
      then first_broken e.checksum es
      else some e.sequence_number

  abbrev pub report : String → String → ℕ → Option ℕ → ChainReport
  report entity_id entity_type checked none = record {
    entity_id = entity_id;
    entity_type = entity_type;
    events_checked = checked;
    intact = true;
    broken_at_sequence = 0;
  }
  report entity_id entity_type checked (some n) = record {
    entity_id = entity_id;
    entity_type = entity_type;
    events_checked = checked;
    intact = false;
    broken_at_sequence = n;
  }

  unfoldable pub verify_chain : List (LedgerEvent h) → String → String → ChainReport
  verify_chain stored entity_id entity_type =
      let events = events_for h stored entity_id entity_type in
      report entity_id entity_type (length events) (first_broken genesis events)
