-- ===== src/Ledger/Examples.antt =====
-- The ledger on a small store, with a digest that keeps what it was made of.
use lore_eden.Prelude.{
  ℕ, ◌+◌, String, ◌≡◌, ◌↔◌, ◌≢◌, refl, subst, inr, Bool, true, false, ◌&&◌, none, List, [], ◌∷◌,
  arith, nat_eq, length,
}
use lore_eden.Prelude.Result.{ok}
use lore_eden.Ledger.{
  Hashing, LedgerEvent, key_conflict, AppendRequest, Writers, append_to_store, attempt,
  append_event, candidate, last_event, max_from, taken, event_by_idempotency_key, first_with_key,
  stream, same_fact, matched,
}
use lore_eden.Ledger.Audit.{report, verify_chain, replay}
use lore_eden.Ledger.Chain.{IsChained}
use lore_eden.Ledger.Append.{Extends, Extends-refl, IsAppendOnly, append_to_store-Extends}
use lore_eden.Ledger.Verify.{tampered, Names, verify_chain-intact, verify_chain-Names}
use lore_eden.Ledger.Idempotency.{idle, idle-IsAppendOnly, append_to_store-retry}
use lore_eden.Ledger.Replay.{replay-counts, replay-append_to_store}

abbrev pub digests_equal : List ℕ → List ℕ → Bool
digests_equal [] [] = true
digests_equal [] (n ∷ e) = false
digests_equal (m ∷ d) [] = false
digests_equal (m ∷ d) (n ∷ e) = nat_eq m n && digests_equal d e

digests_equal_lem : (d e : List ℕ) → digests_equal d e ≡ true → d ≡ e
digests_equal_lem [] [] same = refl
digests_equal_lem [] (n ∷ e) same = ground (arith, same)
digests_equal_lem (m ∷ d) [] same = ground (arith, same)
digests_equal_lem (m ∷ d) (n ∷ e) same = ground (arith, digests_equal_lem d e, same)

digests_equal_refl : (d : List ℕ) → digests_equal d d ≡ true
digests_equal_refl [] = refl
digests_equal_refl (n ∷ d) = ground (arith, digests_equal_refl d)

pub digests_equal_iff : (d e : List ℕ) → (digests_equal d e ≡ true) ↔ (d ≡ e)
digests_equal_iff d e = (
  digests_equal_lem d e,
  λ same. subst (λ x. digests_equal d x ≡ true) same (digests_equal_refl d),
)

pub nat_eq_iff : (p q : ℕ) → (nat_eq p q ≡ true) ↔ (p ≡ q)
nat_eq_iff p q = (λ same. ground (arith, same), λ same. ground (arith, same))

-- A payload is a number, and a digest lists the numbers and the payloads behind it.
abbrev pub plain : Hashing
plain = record {
  Payload = ℕ;
  payload_eq = nat_eq;
  payload_eq_iff = nat_eq_iff;
  Digest = List ℕ;
  digest_eq = digests_equal;
  digest_eq_iff = digests_equal_iff;
  genesis = [];
  JsonText = List ℕ;
  dumps = λ c. c.sequence_number ∷ c.payload ∷ c.prev_checksum;
  sha256 = λ t. t;
}

abbrev pub request : String → String → ℕ → AppendRequest plain
request key entity_id p = record {
  event_type = "stage_changed";
  entity_id = entity_id;
  entity_type = "work_item";
  payload = p;
  actor = "agent";
  idempotency_key = key;
  now = 7;
}

abbrev none_yet : List (LedgerEvent plain)
none_yet = []

-- A store after one more call that no other writer meets.
abbrev after_call : AppendRequest plain → List (LedgerEvent plain) → List (LedgerEvent plain)
after_call r s = (append_to_store plain (idle plain) (idle plain) r s).1

after_call-Extends :
    (r : AppendRequest plain) (s : List (LedgerEvent plain))
    → IsChained plain s
    → Extends plain s (after_call r s)
after_call-Extends r s =
    append_to_store-Extends plain (idle plain) (idle plain) r s (idle-IsAppendOnly plain)
      (idle-IsAppendOnly plain)

-- Other writers that take the place in between, and come again before the key is looked up.
abbrev rival : Writers plain
rival = record {
  before_read = λ s. s;
  before_write = after_call (request "k9" "a" 9);
  before_lookup = after_call (request "k8" "b" 8);
}

rival-IsAppendOnly : IsAppendOnly plain rival
rival-IsAppendOnly = record {
  read = Extends-refl plain;
  write = after_call-Extends (request "k9" "a" 9);
  lookup = after_call-Extends (request "k8" "b" 8);
}

append_to_store-Extends_example :
    Extends plain none_yet
      (append_to_store plain rival (idle plain) (request "k1" "a" 5) none_yet).1
append_to_store-Extends_example =
    append_to_store-Extends plain rival (idle plain) (request "k1" "a" 5) none_yet
      rival-IsAppendOnly (idle-IsAppendOnly plain) (λ i t. tt)

-- The second attempt comes behind the rivals' events.
second_attempt :
    length (append_to_store plain rival (idle plain) (request "k1" "a" 5) none_yet).1 ≡ 3
unfolding append_to_store attempt append_event last_event max_from taken event_by_idempotency_key
    first_with_key
second_attempt = refl

abbrev one : List (LedgerEvent plain)
one = after_call (request "k1" "a" 5) none_yet

abbrev two : List (LedgerEvent plain)
two = after_call (request "k2" "a" 6) one

one-IsChained : IsChained plain one
one-IsChained = (after_call-Extends (request "k1" "a" 5) none_yet (λ i t. tt)).chained

two-IsChained : IsChained plain two
two-IsChained = (after_call-Extends (request "k2" "a" 6) one one-IsChained).chained

verify_chain-intact_example :
    verify_chain plain two "a" "work_item" ≡ report plain "a" "work_item" 2 none
unfolding append_to_store attempt append_event last_event max_from taken event_by_idempotency_key
    first_with_key
verify_chain-intact_example = verify_chain-intact plain two "a" "work_item" two-IsChained

-- What `append_to_store` recorded for a call.
abbrev event_at : ℕ → ℕ → List ℕ → String → LedgerEvent plain
event_at n p d key = record {
  event_type = "stage_changed";
  entity_id = "a";
  entity_type = "work_item";
  payload = p;
  sequence_number = n;
  checksum = d;
  actor = "agent";
  idempotency_key = key;
  occurred_at = 7;
}

abbrev first_event : LedgerEvent plain
first_event = event_at 1 5 (1 ∷ 5 ∷ []) "k1"

abbrev second_event : LedgerEvent plain
second_event = event_at 2 6 (2 ∷ 6 ∷ 1 ∷ 5 ∷ []) "k2"

two_lem : two ≡ first_event ∷ second_event ∷ []
unfolding append_to_store attempt append_event last_event max_from taken event_by_idempotency_key
    first_with_key
two_lem = refl

nonempty : (e : LedgerEvent plain) (es : List (LedgerEvent plain)) → e ∷ es ≢ []
nonempty e es same = ground (arith, same)

verify_chain-Names_example : Names plain first_event (
    verify_chain plain
      (tampered plain first_event 8 (1 ∷ 8 ∷ []) ∷ second_event ∷ [])
      "a"
      "work_item")
verify_chain-Names_example =
    verify_chain-Names plain [] (second_event ∷ []) first_event 8 (1 ∷ 8 ∷ [])
      (subst (IsChained plain) two_lem two-IsChained) (λ e. omega (arith, e))
      ((λ e. ground (arith, e)), (λ e. e), ((λ e. ground (arith, e)), (λ e. e), tt))
      (inr (nonempty second_event []))

append_to_store-retry_example :
    append_to_store plain rival rival (request "k1" "a" 5) one
    ≡ (ok (record { event = first_event; was_replay = true }), one)
unfolding append_to_store attempt append_event last_event max_from taken event_by_idempotency_key
    first_with_key
append_to_store-retry_example =
    append_to_store-retry plain rival rival (request "k1" "a" 5) (request "k1" "a" 5) none_yet
      (record { event = first_event; was_replay = false }) (λ i t. tt) refl refl refl

replay-counts_example :
    (replay plain (λ s e. s + e.payload) 0 two "a" "work_item").last_sequence_number
    ≡ (replay plain (λ s e. s + e.payload) 0 two "a" "work_item").events_applied
replay-counts_example =
    replay-counts plain (λ s e. s + e.payload) 0 two "a" "work_item" two-IsChained

replay-append_to_store_example :
    replay plain (λ s e. s + e.payload) 0 two "a" "work_item"
    ≡ record { state = 11; events_applied = 2; last_sequence_number = 2 }
unfolding append_to_store attempt append_event last_event max_from taken event_by_idempotency_key
    first_with_key replay lore_eden.Ledger.Audit.fold_events lore_eden.Ledger.events_for
    lore_eden.Ledger.Audit.last_sequence lore_eden.Ledger.sort_events lore_eden.Ledger.insert_event
replay-append_to_store_example =
    replay-append_to_store plain (λ s e. s + e.payload) 0 (request "k2" "a" 6) one "a" "work_item"
      one-IsChained refl
