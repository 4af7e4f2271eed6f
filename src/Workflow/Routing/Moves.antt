-- ===== src/Workflow/Routing/Moves.antt =====
-- Which statuses `reset_upstream_stages` and `skip_intermediate_stages` change.
use lore_eden.Prelude.{
  ℕ, ◌+◌, ◌-◌, String, ◌≡◌, refl, inl, inr, Bool, false, ◌&&◌, Option, none, some, List, [], ◌∷◌,
  arith, eq_iff, ltb, leb, if◌then◌else◌, slice, Bool-cases,
}
use lore_eden.Prelude.Index.{contains, Distinct, index_of, contains-slice}
use lore_eden.Prelude.Dict.{Dict, get, get_with, put, get-put, get-put_all}
use lore_eden.Workflow.Models.{StageStatus, pending, wont_do, is_pending, WorkflowStageDef}
use lore_eden.Workflow.Order.{stage_keys, sorted-Distinct}
use lore_eden.Workflow.Routing.{
  ordered_keys, stage_index, reset_range, reset_upstream_stages, skip_pending, skip_range,
  skip_intermediate_stages,
}

-- lo <= i <= hi, for three positions that are all there
abbrev pub is_between : Option ℕ → Option ℕ → Option ℕ → Bool
is_between (some lo) (some i) (some hi) = leb lo i && leb i hi
is_between _ _ _ = false

-- lo < i < hi
abbrev pub is_inside : Option ℕ → Option ℕ → Option ℕ → Bool
is_inside (some lo) (some i) (some hi) = ltb lo i && ltb i hi
is_inside _ _ _ = false

module _ (m : Dict StageStatus) (keys : List String) (k : String) (d : Distinct keys) where
  get-reset_range :
      (from_idx to_idx : Option ℕ)
      → get (reset_range m keys from_idx to_idx) k
        ≡ (if is_between to_idx (index_of k keys) from_idx then some pending else get m k)
  get-reset_range none none = refl
  get-reset_range none (some j) = ground arith
  get-reset_range (some i) none = refl
  get-reset_range (some i) (some j) = ground (
    arith,
    get-put_all m (slice j (i + 1 - j) keys) pending k,
    contains-slice j (i + 1 - j) k keys d,
  )

get-skip_pending :
    (m : Dict StageStatus) (ks : List String) (k : String)
    → get (skip_pending m ks) k
      ≡ (if contains ks k && is_pending (get_with m k pending) then some wont_do else get m k)
unfolding skip_pending contains
get-skip_pending m [] k = refl
get-skip_pending m (j ∷ ks) k = elim (Bool-cases (is_pending (get_with m j pending))) [
  | inl e ↦
      rw e
        (ground (arith, eq_iff j k, get-put m j k wont_do, get-skip_pending (put m j wont_do) ks k))
  | inr e ↦ rw e (ground (arith, eq_iff j k, get-skip_pending m ks k))
]

module _ (m : Dict StageStatus) (keys : List String) (k : String) (d : Distinct keys) where
  get-skip_range :
      (from_idx to_idx : Option ℕ)
      → get (skip_range m keys from_idx to_idx) k ≡ (
          if is_inside from_idx (index_of k keys) to_idx && is_pending (get_with m k pending)
          then some wont_do
          else get m k)
  get-skip_range none to_idx = refl
  get-skip_range (some i) none = ground arith
  get-skip_range (some i) (some j) = ground (
    arith,
    get-skip_pending m (slice (i + 1) (j - (i + 1)) keys) k,
    contains-slice (i + 1) (j - (i + 1)) k keys d,
  )

module _ (m : Dict StageStatus) (stages : List WorkflowStageDef) (from_key to_key k : String)
    (d : Distinct (stage_keys stages)) where
  -- When keys are distinct, `reset_upstream_stages` makes exactly the stages from the target up to
  -- the current stage pending, both included, and leaves every other status alone.
  pub get-reset_upstream_stages : get (reset_upstream_stages m stages from_key to_key) k ≡ (
      if is_between (stage_index stages to_key) (stage_index stages k) (stage_index stages from_key)
      then some pending
      else get m k)
  unfolding reset_upstream_stages
  get-reset_upstream_stages =
      get-reset_range m (ordered_keys stages) k (sorted-Distinct stages d)
        (stage_index stages from_key) (stage_index stages to_key)

  -- When keys are distinct, `skip_intermediate_stages` marks exactly the pending stages strictly
  -- between the current stage and the target as WONT_DO, and leaves every other status alone.
  pub get-skip_intermediate_stages : get (skip_intermediate_stages m stages from_key to_key) k ≡ (
      if is_inside (stage_index stages from_key) (stage_index stages k) (stage_index stages to_key)
        && is_pending (get_with m k pending)
      then some wont_do
      else get m k)
  unfolding skip_intermediate_stages
  get-skip_intermediate_stages =
      get-skip_range m (ordered_keys stages) k (sorted-Distinct stages d)
        (stage_index stages from_key) (stage_index stages to_key)
