-- ===== src/Usage/Cached.antt =====
-- `DictCache` and `NullCache` serve the totals of `Usage`.
use lore_eden.Prelude.{
  ℕ, String, ◌≡◌, refl, sym, ap, ◌∙◌, Bool, true, false, inl, inr, some, List, [], ◌∷◌, ◌==◌,
  eq_iff, arith, select, Bool-cases,
}
use lore_eden.Prelude.Index.{contains}
use lore_eden.Prelude.Dict.{get}
use lore_eden.Prelude.Result.{ok}
use lore_eden.Cache.{
  Lookup, hit, miss, DictCache, empty, intersects, dict_get, dict_set, dict_invalidate_tags,
  dict_cache, null_cache,
}
use lore_eden.Cache.Invalidation.{
  IsWell, is_doomed, dict_invalidate_tags-Invalidated, dict_set-IsWell,
}
use lore_eden.Usage.{UsageRecord, UsageTotals, Window, fold, add_usage, usage_tag, window_key}
use lore_eden.Usage.Windows.{belongs}
use lore_eden.Usage.Serving.{Serves, totals_now}

module _ (isoformat : ℕ → String) (asked : Window → String → Bool) where
  -- No two of them share a cache key.
  abbrev pub HasOwnKeys : Type 0
  HasOwnKeys =
      (v w : Window) (j k : String)
      → asked v j ≡ true
      → asked w k ≡ true
      → window_key isoformat v j ≡ window_key isoformat w k
      → (v ≡ w) × (j ≡ k)

  pub nothing_found : {v w : UsageTotals} → Path (Lookup UsageTotals) miss (hit v) → v ≡ w
  nothing_found e = ground (arith, e)

  -- A cache that remembers nothing serves.
  abbrev pub null_serves : Serves isoformat asked null_cache
  null_serves = record {
    Holds = λ stored s. Unit;
    answers_current = λ stored s window key v holds named found. nothing_found found;
    stores_current = λ stored s window key holds named. (tt, refl, tt);
    drops_group = λ stored s entry holds. ((tt, 0), refl, tt);
  }

  module _ (own : HasOwnKeys) where
    -- Every cached total is what the store says now, under its group's tag.
    pub record IsCurrent (stored : List UsageRecord) (c : DictCache UsageTotals) : Type 0 where
      pub well : IsWell c
      pub current :
          (window : Window) (key : String) (v : UsageTotals)
          → asked window key ≡ true
          → dict_get c (window_key isoformat window key) ≡ hit v
          → (v ≡ totals_now stored window key)
            × (get c.tags (window_key isoformat window key) ≡ some (usage_tag key ∷ []))

    select-snoc :
        (stored : List UsageRecord) (entry : UsageRecord) (window : Window) (key : String)
        → (entry.group_key == key) ≡ false
        → select (belongs window key) (add_usage stored entry) ≡ select (belongs window key) stored
    select-snoc [] entry window key other = rw other refl
    select-snoc (e ∷ stored) entry window key other =
        ground (arith, select-snoc stored entry window key other)

    other_group :
        (entry : UsageRecord) (key : String)
        → intersects (usage_tag key ∷ []) (usage_tag entry.group_key ∷ []) ≡ false
        → (entry.group_key == key) ≡ false
    unfolding intersects contains
    other_group entry key apart = elim (Bool-cases (entry.group_key == key)) [
      | inr other ↦ other
      | inl same ↦
          let tags : (usage_tag entry.group_key == usage_tag key) ≡ true =
            (eq_iff _ _).1 (ap usage_tag ((eq_iff entry.group_key key).0 same)) in
          absurd (ground (arith, apart, tags))
    ]

    pub spend-IsCurrent :
        (stored : List UsageRecord) (c : DictCache UsageTotals) (entry : UsageRecord)
        → IsCurrent stored c
        → (r : DictCache UsageTotals × ℕ) × (dict_invalidate_tags c (usage_tag entry.group_key ∷ [])
            ≡ ok r)
          × IsCurrent (add_usage stored entry) r.0
    unfolding intersects contains
    spend-IsCurrent stored c entry h =
        let (r, ran, inv) =
          dict_invalidate_tags-Invalidated c (usage_tag entry.group_key ∷ []) h.well in
        (
          r,
          ran,
          record {
            well = inv.well;
            current = λ window key v named e.
                let k = window_key isoformat window key in
                elim (Bool-cases (is_doomed (get c.tags k) (usage_tag entry.group_key ∷ []))) [
                  | inl dropped ↦ absurd (ground (arith, inv.answers k, dropped, e))
                  | inr kept ↦
                      let (same, tags) =
                        h.current window key v named (ground (arith, inv.answers k, kept, e)) in
                      let other : (entry.group_key == key) ≡ false =
                        other_group entry key (rw tags at kept) in
                      (
                        same
                            ∙ ap (λ es. fold es key)
                                (sym (select-snoc stored entry window key other)),
                        ground (arith, inv.survivors k, kept, tags),
                      )
                ];
          },
        )

    pub store-IsCurrent :
        (stored : List UsageRecord) (c : DictCache UsageTotals) (window : Window) (key : String)
        → IsCurrent stored c
        → asked window key ≡ true
        → (c' : DictCache UsageTotals) × (dict_set c
              (window_key isoformat window key)
              (totals_now stored window key)
              (usage_tag key ∷ [])
            ≡ ok c')
          × IsCurrent stored c'
    store-IsCurrent stored c window key h named =
        let k = window_key isoformat window key in
        let now = totals_now stored window key in
        elim (dict_set-IsWell c k now (usage_tag key ∷ []) h.well) [
          | inl (untagged, _) ↦ absurd (ground (arith, untagged))
          | inr (c', ran, well, gets, tags) ↦ (
            c',
            ran,
            record {
              well = well;
              current = λ other j v named' e.
                  elim (Bool-cases (k == window_key isoformat other j)) [
                    | inl same ↦
                        let (w, i) = own window other key j named named' ((eq_iff _ _).0 same) in
                        let place = window_key isoformat other j in
                        let is_now : v ≡ now = ground (arith, gets place, e, same) in
                        let tagged : get c'.tags place ≡ some (usage_tag key ∷ []) =
                          ground (arith, tags place, same) in
                        (
                          is_now ∙ (λ t. totals_now stored (w t) (i t)),
                          tagged ∙ ap (λ g. some (usage_tag g ∷ [])) i,
                        )
                    | inr apart ↦
                        let (is_now, tagged) =
                          h.current other j v named'
                            (ground (arith, gets (window_key isoformat other j), e, apart)) in
                        (is_now, ground (arith, tags (window_key isoformat other j), tagged, apart))
                  ];
            },
          )
        ]

    abbrev pub dict_serves : Serves isoformat asked dict_cache
    dict_serves = record {
      Holds = IsCurrent;
      answers_current =
          λ stored s window key v h named found. (h.current window key v named found).0;
      stores_current = store-IsCurrent;
      drops_group = spend-IsCurrent;
    }

    pub nothing-IsCurrent : IsCurrent [] empty
    unfolding dict_get get
    nothing-IsCurrent = record {
      well = record { distinct = tt; same_keys = λ k. refl; tagged = λ k e. ground (arith, e) };
      current = λ window key v named e. cc;
    }
