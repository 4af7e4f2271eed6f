-- ===== src/Usage.antt =====
-- python/lore_eden/usage.py: what was spent, added up, and cached; over the in-memory store of
-- python/lore_eden/store/memory.py.
pub mod Fold
pub mod Reorder
pub mod Windows
pub mod Serving
pub mod Totals
pub mod Cached
pub mod Agreement
mod Examples
use lore_eden.Prelude.{
  ℕ, ◌+◌, ◌-◌, String, Bool, true, false, ◌&&◌, ◌||◌, Option, none, some, List, [], ◌∷◌, ◌++◌, ◌==◌,
  ltb, leb, nat_eq, not, map, if◌then◌else◌, length, select,
}
use lore_eden.Prelude.Int.{ℤ, pos, ◌+ℤ◌}
use lore_eden.Prelude.Index.{contains}
use lore_eden.Prelude.Dict.{Dict, get, get_with, put, keys}
use lore_eden.Prelude.Result.{Result, ok, raised, ◌>>=◌}
use lore_eden.Prelude.Text.{concat}
use lore_eden.Cache.{Cache, CacheError, missing_key, Lookup, hit, miss}

-- An amount of `none` was not measured. `occurred_at` is a moment of the host's clock.
pub record UsageRecord : Type 0 where
  pub subject_id : String
  pub group_key : String
  pub amounts : Dict (Option ℤ)
  pub occurred_at : ℕ

pub record UsageTotals : Type 0 where
  pub key : String
  pub entries : ℕ
  pub measured_entries : ℕ
  pub unmeasured_entries : ℕ
  pub amounts : Dict (Option ℤ)

unfoldable pub known : Dict (Option ℤ) → List String → List ℤ
known amounts [] = []
known amounts (measure ∷ measures) =
    let rest = known amounts measures in
    elim (get_with amounts measure none) [ none ↦ rest | some value ↦ value ∷ rest ]

unfoldable pub sum : List ℤ → ℤ
sum [] = pos 0
sum (n ∷ ns) = n +ℤ sum ns

abbrev pub sum_known : List ℤ → Option ℤ
sum_known [] = none
sum_known (n ∷ ns) = some (sum (n ∷ ns))

unfoldable pub total_of : UsageTotals → List String → Option ℤ
total_of totals measures = sum_known (known totals.amounts measures)

abbrev pub complete : UsageTotals → Bool
complete totals = ltb 0 totals.entries && nat_eq totals.unmeasured_entries 0

unfoldable pub add_amount : Option ℤ → Option ℤ → Option ℤ
add_amount total none = total
add_amount none (some value) = some value
add_amount (some total) (some value) = some (total +ℤ value)

unfoldable pub any_measured : Dict (Option ℤ) → Bool
any_measured [] = false
any_measured ((measure, none) ∷ amounts) = any_measured amounts
any_measured ((measure, some value) ∷ amounts) = true

abbrev pub is_measured : UsageRecord → Bool
is_measured entry = any_measured entry.amounts

-- The inner loop of `fold`.
unfoldable pub add_amounts : Dict (Option ℤ) → Dict (Option ℤ) → Dict (Option ℤ)
add_amounts amounts [] = amounts
add_amounts amounts ((measure, value) ∷ items) =
    add_amounts (put amounts measure (add_amount (get_with amounts measure none) value)) items

-- The outer loop of `fold`: its amounts and its count of measured entries.
unfoldable pub fold_loop : Dict (Option ℤ) → ℕ → List UsageRecord → Dict (Option ℤ) × ℕ
fold_loop amounts measured [] = (amounts, measured)
fold_loop amounts measured (entry ∷ entries) =
    fold_loop (add_amounts amounts entry.amounts)
      (if is_measured entry then measured + 1 else measured) entries

unfoldable pub fold : List UsageRecord → String → UsageTotals
fold entries key =
    let (amounts, measured) = fold_loop [] 0 entries in
    record {
      key = key;
      entries = length entries;
      measured_entries = measured;
      unmeasured_entries = length entries - measured;
      amounts = amounts;
    }

-- A window's ends, which may be open.
pub record Window : Type 0 where
  pub since : Option ℕ
  pub until : Option ℕ

abbrev pub is_since : Option ℕ → ℕ → Bool
is_since none t = true
is_since (some since) t = leb since t

abbrev pub is_until : Option ℕ → ℕ → Bool
is_until none t = true
is_until (some until) t = ltb t until

-- `found = {group_key: [] for group_key in wanted}`
unfoldable pub no_entries : List String → Dict (List UsageRecord)
no_entries [] = []
no_entries (key ∷ wanted) = put (no_entries wanted) key []

-- The loop of `usage_for`.
unfoldable pub collect :
    List String → Window → Dict (List UsageRecord) → List UsageRecord → Dict (List UsageRecord)
collect wanted window found [] = found
collect wanted window found (entry ∷ entries) =
    collect wanted window
      (if contains wanted entry.group_key
          && (is_since window.since entry.occurred_at && is_until window.until entry.occurred_at)
        then put found entry.group_key (get_with found entry.group_key [] ++ entry ∷ [])
        else found)
      entries

unfoldable pub usage_for : List UsageRecord → List String → Window → Dict (List UsageRecord)
usage_for stored group_keys window = collect group_keys window (no_entries group_keys) stored

abbrev pub add_usage : List UsageRecord → UsageRecord → List UsageRecord
add_usage stored entry = stored ++ entry ∷ []

abbrev pub usage_tag : String → String
usage_tag group_key = concat ("usage:" ∷ group_key ∷ [])

module _ (isoformat : ℕ → String) where
  abbrev pub bound_text : Option ℕ → String
  bound_text none = ""
  bound_text (some t) = isoformat t

  -- `_key`
  unfoldable pub window_key : Window → String → String
  window_key window group_key = concat (
      "usage-totals:"
      ∷ group_key
      ∷ ":"
      ∷ bound_text window.since
      ∷ ":"
      ∷ bound_text window.until
      ∷ [])

  module _ (c : Cache UsageTotals) where
    abbrev pub looked_up :
        Lookup UsageTotals
        → String
        → Dict UsageTotals × List String
        → Dict UsageTotals × List String
    looked_up (hit totals) key (cached, wanted) = (put cached key totals, wanted)
    looked_up miss key (cached, wanted) = (cached, wanted ++ key ∷ [])

    -- The first loop of `totals`: what is cached, and what is wanted.
    unfoldable pub look_up :
        c.State
        → Window
        → Dict UsageTotals × List String
        → List String
        → Dict UsageTotals × List String
    look_up s window found [] = found
    look_up s window found (key ∷ group_keys) =
        look_up s window (looked_up (c.get s (window_key window key)) key found) group_keys

    -- The second loop of `totals`.
    unfoldable pub compute_totals :
        c.State
        → Window
        → Dict (List UsageRecord)
        → Dict UsageTotals
        → List String
        → Result CacheError (Dict UsageTotals × c.State)
    compute_totals s window records cached [] = ok (cached, s)
    compute_totals s window records cached (key ∷ wanted) =
        let totals = fold (get_with records key []) key in
        c.set s (window_key window key) totals (usage_tag key ∷ []) >>= λ s'.
        compute_totals s' window records (put cached key totals) wanted

    -- `{group_key: cached[group_key] for group_key in group_keys}`
    unfoldable pub choose :
        Dict UsageTotals → Dict UsageTotals → List String → Result CacheError (Dict UsageTotals)
    choose cached chosen [] = ok chosen
    choose cached chosen (key ∷ group_keys) = elim (get cached key) [
      | none ↦ raised (missing_key key)
      | some totals ↦ choose cached (put chosen key totals) group_keys
    ]

    -- `Usage.totals`
    unfoldable pub totals :
        List UsageRecord
        → c.State
        → List String
        → Window
        → Result CacheError (Dict UsageTotals × c.State)
    totals stored s group_keys window =
        let (cached, wanted) = look_up s window ([], []) group_keys in
        compute_totals s window (usage_for stored wanted window) cached wanted >>= λ (cached', s').
        choose cached' [] group_keys >>= λ chosen. ok (chosen, s')

    -- `Usage.record`
    unfoldable pub record_usage :
        List UsageRecord → c.State → UsageRecord → Result CacheError (List UsageRecord × c.State)
    record_usage stored s entry =
        c.invalidate_tags s (usage_tag entry.group_key ∷ []) >>= λ (s', dropped).
        ok (add_usage stored entry, s')
