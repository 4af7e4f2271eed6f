-- ===== src/Ledger/Cached.antt =====
-- python/lore_eden/ledger.py: what `append` and a named `replay` do with the cache.
use lore_eden.Prelude.{ℕ, String, ◌==◌, List, [], ◌∷◌, if◌then◌else◌}
use lore_eden.Prelude.Result.{Result, ok, raised, ◌>>=◌}
use lore_eden.Prelude.Text.{concat}
use lore_eden.Cache.{Cache, CacheError, Lookup, hit, miss}
use lore_eden.Ledger.{
  Hashing, LedgerError, cache_failed, LedgerEvent, AppendRequest, AppendResult, Writers,
  append_to_store,
}
use lore_eden.Ledger.Audit.{ReplayResult, replay}

abbrev pub stream_tag : String → String → String
stream_tag entity_id entity_type = concat ("ledger:" ∷ entity_type ∷ ":" ∷ entity_id ∷ [])

abbrev pub replay_key : String → String → String → String
replay_key cache_as entity_id entity_type =
    concat ("ledger-replay:" ∷ cache_as ∷ ":" ∷ entity_type ∷ ":" ∷ entity_id ∷ [])

module _ (h : Hashing) where
  module _ {V : Type 0} (c : Cache V) where
    -- A call's result beside the events and the cache that it leaves.
    abbrev pub Left : Type 0
    Left = Result LedgerError (AppendResult h) × (List (LedgerEvent h) × c.State)

    abbrev pub dropped_by :
        AppendResult h → List (LedgerEvent h) → c.State → Result CacheError (c.State × ℕ) → Left
    dropped_by result events s (ok (s', dropped)) = (ok result, (events, s'))
    dropped_by result events s (raised e) = (raised (cache_failed e), (events, s))

    -- A recorded event drops the cached replays of its stream; a replayed one changes nothing.
    abbrev pub drop_for :
        AppendRequest h
        → c.State
        → Result LedgerError (AppendResult h) × List (LedgerEvent h)
        → Left
    drop_for r s (raised e, events) = (raised e, (events, s))
    drop_for r s (ok result, events) =
        if result.was_replay
        then (ok result, (events, s))
        else dropped_by result events s
            (c.invalidate_tags s (stream_tag r.entity_id r.entity_type ∷ []))

    -- `Ledger.append`
    unfoldable pub append :
        (first second : Writers h) → AppendRequest h → List (LedgerEvent h) → c.State → Left
    append first second r events s = drop_for r s (append_to_store h first second r events)

  module _ {S : Type 0} (c : Cache (ReplayResult h S)) where
    abbrev pub replayed_by :
        c.State
        → Lookup (ReplayResult h S)
        → Result CacheError (ReplayResult h S × c.State)
        → Result CacheError (ReplayResult h S × c.State)
    replayed_by s (hit result) fresh = ok (result, s)
    replayed_by s miss fresh = fresh

    -- `Ledger.replay`; an unnamed projection is not cached.
    unfoldable pub replay_as :
        String
        → (S → LedgerEvent h → S)
        → S
        → List (LedgerEvent h)
        → c.State
        → String
        → String
        → Result CacheError (ReplayResult h S × c.State)
    replay_as cache_as reducer initial stored s entity_id entity_type =
        let result = replay h reducer initial stored entity_id entity_type in
        let key = replay_key cache_as entity_id entity_type in
        if cache_as == ""
        then ok (result, s)
        else replayed_by s (c.get s key)
            (c.set s key result (stream_tag entity_id entity_type ∷ []) >>= λ s'. ok (result, s'))
