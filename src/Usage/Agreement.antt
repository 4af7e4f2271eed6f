-- ===== src/Usage/Agreement.antt =====
-- A host's totals are the same with `DictCache` and without a cache.
use lore_eden.Prelude.{ℕ, String, ◌≡◌, refl, Bool, true, List, [], ◌∷◌, All}
use lore_eden.Prelude.Dict.{Dict}
use lore_eden.Prelude.Result.{Result, ok, ◌>>=◌}
use lore_eden.Cache.{Cache, CacheError, empty, dict_cache, null_cache}
use lore_eden.Usage.{UsageRecord, UsageTotals, Window, add_usage, totals, record_usage}
use lore_eden.Usage.Cached.{HasOwnKeys, null_serves, dict_serves, nothing-IsCurrent}
use lore_eden.Usage.Totals.{totals-now}
use lore_eden.Usage.Serving.{Serves, all_totals}

-- What a host does: record an entry, or ask for the totals of groups in a window.
pub data UsageEvent : Type 0 where
  spend : UsageRecord → UsageEvent
  ask : Window → List String → UsageEvent

module _ (isoformat : ℕ → String) where
  -- The answers of a host that has the given cache.
  unfoldable pub answers :
      (c : Cache UsageTotals)
      → List UsageRecord
      → c.State
      → List UsageEvent
      → Result CacheError (List (Dict UsageTotals))
  answers c stored s [] = ok []
  answers c stored s (spend entry ∷ events) =
      record_usage isoformat c stored s entry >>= λ (stored', s'). answers c stored' s' events
  answers c stored s (ask window keys ∷ events) =
      totals isoformat c stored s keys window >>= λ (chosen, s').
      answers c stored s' events >>= λ more. ok (chosen ∷ more)

  -- The answers computed from the entries of the moment.
  unfoldable pub direct_answers : List UsageRecord → List UsageEvent → List (Dict UsageTotals)
  direct_answers stored [] = []
  direct_answers stored (spend entry ∷ events) = direct_answers (add_usage stored entry) events
  direct_answers stored (ask window keys ∷ events) =
      all_totals stored window [] keys ∷ direct_answers stored events

  module _ (asked : Window → String → Bool) where
    -- Every group and window that the host asks about is among those that were named.
    abbrev pub AsksOnly : List UsageEvent → Type 0
    AsksOnly [] = Unit
    AsksOnly (spend entry ∷ events) = AsksOnly events
    AsksOnly (ask window keys ∷ events) = All (λ k. asked window k ≡ true) keys × AsksOnly events

    module _ (c : Cache UsageTotals) (serves : Serves isoformat asked c) where
      open serves use {Holds, drops_group}

      answers-direct :
          (stored : List UsageRecord) (s : c.State) (events : List UsageEvent)
          → Holds stored s
          → AsksOnly events
          → answers c stored s events ≡ ok (direct_answers stored events)
      unfolding answers direct_answers record_usage
      answers-direct stored s [] holds asks = refl
      answers-direct stored s (spend entry ∷ events) holds asks =
          let (r, ran, holds') = drops_group stored s entry holds in
          rw ran (answers-direct (add_usage stored entry) r.0 events holds' asks)
      answers-direct stored s (ask window keys ∷ events) holds asks =
          let (s', ran, holds') =
            totals-now isoformat asked c serves stored window s keys holds asks.0 in
          rw (ran, answers-direct stored s' events holds' asks.1) refl

    module _ (own : HasOwnKeys isoformat asked) where
      -- If no two of the groups and windows that a host asks about share a cache key, then for
      -- every sequence of recorded entries and questions, from an empty store, the answers with an
      -- empty `DictCache` and with `NullCache` are the totals of the entries of the moment, and no
      -- call raises.
      pub totals_agree :
          (events : List UsageEvent)
          → AsksOnly events
          → (answers dict_cache [] empty events ≡ ok (direct_answers [] events))
            × (answers null_cache [] tt events ≡ ok (direct_answers [] events))
      totals_agree events asks = (
        answers-direct dict_cache (dict_serves isoformat asked own) [] empty events
            (nothing-IsCurrent isoformat asked own) asks,
        answers-direct null_cache (null_serves isoformat asked) [] tt events tt asks,
      )
