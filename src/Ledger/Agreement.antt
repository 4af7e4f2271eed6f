-- ===== src/Ledger/Agreement.antt =====
-- A host that records events and replays a projection gets what the store says, with `DictCache`.
mod Examples
use mathlib.Core.Option.{some_inj}
use lore_eden.Prelude.{
  ℕ, String, ◌≡◌, refl, sym, ap, ◌∙◌, subst, inl, inr, Bool, true, false, Option, none, some, List,
  [], ◌∷◌, ◌++◌, ◌==◌, if◌then◌else◌, arith, Bool-cases, Option-cases,
}
use lore_eden.Prelude.Dict.{get}
use lore_eden.Prelude.Result.{Result, ok, raised, ◌>>=◌}
use lore_eden.Cache.{
  Cache, CacheError, hit, DictCache, empty, dict_get, dict_invalidate_tags, dict_cache,
}
use lore_eden.Cache.Invalidation.{Invalidated, dict_invalidate_tags-Invalidated}
use lore_eden.Ledger.{
  Hashing, LedgerError, LedgerEvent, of_stream, AppendRequest, AppendResult, same_fact, matched,
  append_to_store, event_by_idempotency_key,
}
use lore_eden.Ledger.Audit.{ReplayResult}
use lore_eden.Ledger.Chain.{IsChained}
use lore_eden.Ledger.Append.{append_to_store-Extends}
use lore_eden.Ledger.Idempotency.{idle, idle-IsAppendOnly, next_event, append_to_store-idle}
use lore_eden.Ledger.Replay.{replay-append_to_store}
use lore_eden.Ledger.Cached.{stream_tag, replay_key, dropped_by, drop_for, append, replay_as}
use lore_eden.Ledger.Projections.{HasOwnKeys, IsCurrent, recorded-IsCurrent, ask-IsCurrent, now}

-- What a host does: record an event, or replay the projection of a stream.
pub data LedgerStep (h : Hashing) : Type 0 where
  note : AppendRequest h → LedgerStep h
  ask : String → String → LedgerStep h

module _ (h : Hashing) where
  module _ {V : Type 0} (c : Cache V) where
    drop_for-events :
        (r : AppendRequest h) (s : c.State)
        (o : Result LedgerError (AppendResult h) × List (LedgerEvent h))
        → (drop_for h c r s o).1.0 ≡ o.1
    drop_for-events r s (raised e, events) = refl
    drop_for-events r s (ok result, events) = chosen result.was_replay
      where
        left : Result CacheError (c.State × ℕ)
        left = c.invalidate_tags s (stream_tag r.entity_id r.entity_type ∷ [])

        dropped_by-events :
            (result : AppendResult h) (events : List (LedgerEvent h)) (s : c.State)
            (left : Result CacheError (c.State × ℕ))
            → (dropped_by h c result events s left).1.0 ≡ events
        dropped_by-events result events s (ok left) = refl
        dropped_by-events result events s (raised e) = refl

        chosen :
            (b : Bool)
            → (if b then (ok result, (events, s)) else dropped_by h c result events s left).1.0
              ≡ events
        chosen true = refl
        chosen false = dropped_by-events result events s left

  append-IsChained :
      {V : Type 0} (c : Cache V) (r : AppendRequest h) (events : List (LedgerEvent h)) (s : c.State)
      → IsChained h events
      → IsChained h (append h c (idle h) (idle h) r events s).1.0
  unfolding append
  append-IsChained c r events s chained =
      subst (IsChained h)
        (sym (drop_for-events c r s (append_to_store h (idle h) (idle h) r events)))
        (append_to_store-Extends h (idle h) (idle h) r events (idle-IsAppendOnly h)
          (idle-IsAppendOnly h) chained).chained

  module _ {S : Type 0} (cache_as : String) (reducer : S → LedgerEvent h → S) (initial : S)
      (asked : String → String → Bool) where
    abbrev Current : List (LedgerEvent h) → DictCache (ReplayResult h S) → Type 0
    Current = IsCurrent h cache_as reducer initial asked

    matched-IsCurrent :
        (events : List (LedgerEvent h)) (c : DictCache (ReplayResult h S)) (r : AppendRequest h)
        (seen : LedgerEvent h)
        → Current events c
        → Current
            (drop_for h dict_cache r c (matched h seen r, events)).1.0
            (drop_for h dict_cache r c (matched h seen r, events)).1.1
    unfolding matched
    matched-IsCurrent events c r seen cur = elim (Bool-cases (same_fact h seen r)) [
      | inl same ↦ rw same cur
      | inr other ↦ rw other cur
    ]

    append-IsCurrent :
        (events : List (LedgerEvent h)) (c : DictCache (ReplayResult h S)) (r : AppendRequest h)
        → IsChained h events
        → Current events c
        → Current
            (append h dict_cache (idle h) (idle h) r events c).1.0
            (append h dict_cache (idle h) (idle h) r events c).1.1
    unfolding append
    append-IsCurrent events c r chained cur =
        elim (Option-cases (event_by_idempotency_key h events r.idempotency_key)) [
          | inr (seen, looked) ↦
              rw (append_to_store-idle h r events chained, looked)
                (matched-IsCurrent events c r seen cur)
          | inl fresh ↦
              let (left, ran, inv) =
                dict_invalidate_tags-Invalidated c (stream_tag r.entity_id r.entity_type ∷ [])
                  cur.well in
              let recorded : append_to_store h (idle h) (idle h) r events ≡ (
                ok (record { event = next_event h r events; was_replay = false }),
                events ++ next_event h r events ∷ [],
              ) =
                rw (append_to_store-idle h r events chained, fresh) refl in
              rw (recorded, ran)
                (recorded-IsCurrent h cache_as reducer initial asked events
                  (events ++ next_event h r events ∷ []) c r left cur
                  (λ i t other.
                    ap (λ o. now h cache_as reducer initial asked o.1 i t) (sym recorded)
                    ∙ replay-append_to_store h reducer initial r events i t chained fresh
                    ∙ rw other refl)
                  inv)
        ]

    appended :
        (r : AppendRequest h) (events : List (LedgerEvent h)) (c : DictCache (ReplayResult h S))
        → (append h dict_cache (idle h) (idle h) r events c).1.0
          ≡ (append_to_store h (idle h) (idle h) r events).1
    unfolding append
    appended r events c =
        drop_for-events dict_cache r c (append_to_store h (idle h) (idle h) r events)

    -- The answers of a host that has a `DictCache`.
    unfoldable pub answers :
        List (LedgerEvent h)
        → DictCache (ReplayResult h S)
        → List (LedgerStep h)
        → Result CacheError (List (ReplayResult h S))
    answers events c [] = ok []
    answers events c (note r ∷ steps) =
        let (events', c') = (append h dict_cache (idle h) (idle h) r events c).1 in
        answers events' c' steps
    answers events c (ask i t ∷ steps) =
        replay_as h dict_cache cache_as reducer initial events c i t >>= λ (result, c').
        answers events c' steps >>= λ results. ok (result ∷ results)

    -- The answers folded from the events of the moment.
    unfoldable pub direct_answers :
        List (LedgerEvent h) → List (LedgerStep h) → List (ReplayResult h S)
    direct_answers events [] = []
    direct_answers events (note r ∷ steps) =
        direct_answers (append_to_store h (idle h) (idle h) r events).1 steps
    direct_answers events (ask i t ∷ steps) =
        now h cache_as reducer initial asked events i t ∷ direct_answers events steps

    abbrev pub AsksOnly : List (LedgerStep h) → Type 0
    AsksOnly [] = Unit
    AsksOnly (note r ∷ steps) = AsksOnly steps
    AsksOnly (ask i t ∷ steps) = (asked i t ≡ true) × AsksOnly steps

    module _ (own : HasOwnKeys h cache_as reducer initial asked) where
      answers-direct :
          (events : List (LedgerEvent h)) (c : DictCache (ReplayResult h S))
          (steps : List (LedgerStep h))
          → IsChained h events
          → Current events c
          → AsksOnly steps
          → answers events c steps ≡ ok (direct_answers events steps)
      unfolding answers direct_answers
      answers-direct events c [] chained cur asks = refl
      answers-direct events c (note r ∷ steps) chained cur asks =
          let o = append h dict_cache (idle h) (idle h) r events c in
          answers-direct o.1.0 o.1.1 steps (append-IsChained dict_cache r events c chained)
            (append-IsCurrent events c r chained cur) asks
          ∙ ap (λ es. ok (direct_answers es steps)) (appended r events c)
      answers-direct events c (ask i t ∷ steps) chained cur asks =
          let (c', ran, cur') =
            ask-IsCurrent h cache_as reducer initial asked own events c i t cur asks.0 in
          rw (ran, answers-direct events c' steps chained cur' asks.1) refl

      nothing-IsCurrent : Current [] empty
      unfolding dict_get get
      nothing-IsCurrent = record {
        well = record { distinct = tt; same_keys = λ k. refl; tagged = λ k e. ground (arith, e) };
        current = λ i t v named e. cc;
      }

      -- If no two of the streams that a host asks about share a cache key, then for every sequence
      -- of recorded events and replays of one projection, from an empty ledger and an empty
      -- `DictCache`, with no other writers, each replay is the one folded from the events of the
      -- moment, and none raises.
      pub replays_agree :
          (steps : List (LedgerStep h))
          → AsksOnly steps
          → answers [] empty steps ≡ ok (direct_answers [] steps)
      replays_agree steps asks = answers-direct [] empty steps (λ i t. tt) nothing-IsCurrent asks
