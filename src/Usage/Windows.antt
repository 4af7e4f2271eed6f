-- ===== src/Usage/Windows.antt =====
-- Which entries the store finds for a group and a window.
use mathlib.Core.List.{append-nil, append_assoc}
use lore_eden.Prelude.{
  String, ◌≡◌, refl, ap, ◌∙◌, Bool, ◌&&◌, List, [], ◌∷◌, ◌++◌, ◌==◌, eq_iff, arith, if◌then◌else◌,
  select,
}
use lore_eden.Prelude.Index.{contains}
use lore_eden.Prelude.Dict.{Dict, get, get_with, put, get-put}
use lore_eden.Usage.{UsageRecord, Window, is_since, is_until, no_entries, collect, usage_for}

-- The entry falls into the window, which holds its start and not its end.
abbrev pub is_inside : Window → UsageRecord → Bool
is_inside window e = is_since window.since e.occurred_at && is_until window.until e.occurred_at

abbrev pub belongs : Window → String → UsageRecord → Bool
belongs window key e = e.group_key == key && is_inside window e

no_entries-get : (wanted : List String) (k : String) → get_with (no_entries wanted) k [] ≡ []
unfolding no_entries get
no_entries-get [] k = refl
no_entries-get (key ∷ wanted) k =
    ground (arith, get-put (no_entries wanted) key k [], no_entries-get wanted k)

collect-get :
    (wanted : List String) (window : Window) (found : Dict (List UsageRecord))
    (entries : List UsageRecord) (k : String)
    → get_with (collect wanted window found entries) k []
      ≡ get_with found k [] ++ (if contains wanted k then select (belongs window k) entries else [])
unfolding collect
collect-get wanted window found [] k = ground (arith, append-nil (get_with found k []))
collect-get wanted window found (e ∷ entries) k =
    let taken = put found e.group_key (get_with found e.group_key [] ++ e ∷ []) in
    ground (
      arith,
      eq_iff e.group_key k,
      get-put found e.group_key k (get_with found e.group_key [] ++ e ∷ []),
      collect-get wanted window taken entries k,
      collect-get wanted window found entries k,
      append_assoc (get_with found k []) (e ∷ []) (select (belongs window k) entries),
    )

-- For a group that is asked about, the store finds the group's entries inside the window, in the
-- order in which they were added, and for every other group none.
pub usage_for-get :
    (stored : List UsageRecord) (group_keys : List String) (window : Window) (k : String)
    → get_with (usage_for stored group_keys window) k []
      ≡ (if contains group_keys k then select (belongs window k) stored else [])
unfolding usage_for
usage_for-get stored group_keys window k =
    collect-get group_keys window (no_entries group_keys) stored k
    ∙ ap (λ l. l ++ (if contains group_keys k then select (belongs window k) stored else []))
        (no_entries-get group_keys k)
