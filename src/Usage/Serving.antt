-- ===== src/Usage/Serving.antt =====
-- `Usage.totals` over any cache that keeps what it was given: the answers are those computed from
-- the store.
use lore_eden.Prelude.{ℕ, String, ◌≡◌, Bool, true, List, [], ◌∷◌, select}
use lore_eden.Prelude.Dict.{Dict, put}
use lore_eden.Prelude.Result.{ok}
use lore_eden.Cache.{Cache, hit}
use lore_eden.Usage.{UsageRecord, UsageTotals, Window, fold, add_usage, usage_tag, window_key}
use lore_eden.Usage.Windows.{belongs}

-- A group's totals in a window, from the store as it is.
abbrev pub totals_now : List UsageRecord → Window → String → UsageTotals
totals_now stored window key = fold (select (belongs window key) stored) key

-- The totals of the groups, under their keys.
unfoldable pub all_totals :
    List UsageRecord → Window → Dict UsageTotals → List String → Dict UsageTotals
all_totals stored window d [] = d
all_totals stored window d (key ∷ keys) =
    all_totals stored window (put d key (totals_now stored window key)) keys

module _ (isoformat : ℕ → String) (asked : Window → String → Bool) where
  -- What `totals` and `record` need of a cache: it answers with what is current, stores what is
  -- current, and stays so when an entry is recorded and the group's tag dropped.
  pub record Serves (c : Cache UsageTotals) : Type 1 where
    pub Holds : List UsageRecord → c.State → Type 0
    pub answers_current :
        (stored : List UsageRecord) (s : c.State) (window : Window) (key : String) (v : UsageTotals)
        → Holds stored s
        → asked window key ≡ true
        → c.get s (window_key isoformat window key) ≡ hit v
        → v ≡ totals_now stored window key
    pub stores_current :
        (stored : List UsageRecord) (s : c.State) (window : Window) (key : String)
        → Holds stored s
        → asked window key ≡ true
        → (s' : c.State) × (c.set s
              (window_key isoformat window key)
              (totals_now stored window key)
              (usage_tag key ∷ [])
            ≡ ok s')
          × Holds stored s'
    pub drops_group :
        (stored : List UsageRecord) (s : c.State) (entry : UsageRecord)
        → Holds stored s
        → (r : c.State × ℕ) × (c.invalidate_tags s (usage_tag entry.group_key ∷ []) ≡ ok r)
          × Holds (add_usage stored entry) r.0
