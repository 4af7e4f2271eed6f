-- ===== src/Usage/Totals.antt =====
-- `Usage.totals` over any cache that serves: the answers are those computed from the store.
use lore_eden.Prelude.{
  ℕ, String, ◌≡◌, refl, ap, Bool, true, ◌||◌, inl, inr, some, List, [], ◌∷◌, ◌++◌, ◌==◌, eq_iff,
  eq_refl, arith, Option-cases, if◌then◌else◌, select, Bool-cases, All,
}
use lore_eden.Prelude.Index.{contains, contains-snoc}
use lore_eden.Prelude.Dict.{Dict, get, get_with, put, get-put}
use lore_eden.Prelude.Result.{ok}
use lore_eden.Cache.{Cache, Lookup, hit, miss}
use lore_eden.Cache.Invalidation.{is_there}
use lore_eden.Usage.{
  UsageRecord, UsageTotals, Window, usage_for, window_key, looked_up, look_up, compute_totals,
  choose, totals,
}
use lore_eden.Usage.Windows.{belongs, usage_for-get}
use lore_eden.Usage.Serving.{Serves, totals_now, all_totals}

All-snoc :
    (P : String → Type 0) (ks : List String) (k : String) → All P ks → P k → All P (ks ++ k ∷ [])
All-snoc P [] k h p = (p, tt)
All-snoc P (j ∷ ks) k h p = (h.0, All-snoc P ks k h.1 p)

contains-cons :
    (j : String) (ks more : List String)
    → All (λ k. contains ks k ≡ true) more
    → All (λ k. contains (j ∷ ks) k ≡ true) more
unfolding contains
contains-cons j ks [] h = tt
contains-cons j ks (k ∷ more) h = (ground (arith, h.0), contains-cons j ks more h.1)

contains_self : (ks : List String) → All (λ k. contains ks k ≡ true) ks
unfolding contains
contains_self [] = tt
contains_self (k ∷ ks) = (rw eq_refl refl, contains-cons k ks ks (contains_self ks))

module _ (isoformat : ℕ → String) (asked : Window → String → Bool) where
  module _ (c : Cache UsageTotals) (serves : Serves isoformat asked c) (stored : List UsageRecord)
      (window : Window) where
    open serves use {Holds, answers_current, stores_current, drops_group}

    -- Between the two loops: what is cached is current, what is wanted was asked for.
    record IsSorted (found : Dict UsageTotals × List String) : Type 0 where
      current :
          (k : String) (v : UsageTotals) → get found.0 k ≡ some v → v ≡ totals_now stored window k
      wanted : All (λ k. asked window k ≡ true) found.1

    abbrev covers : Dict UsageTotals × List String → String → Bool
    covers found k = is_there (get found.0 k) || contains found.1 k

    nothing_found : IsSorted ([], [])
    unfolding get
    nothing_found = record { current = λ k v e. ground (arith, e); wanted = tt }

    looked_up-IsSorted :
        (s : c.State) (key : String) (found : Dict UsageTotals × List String)
        (l : Lookup UsageTotals)
        → Holds stored s
        → asked window key ≡ true
        → c.get s (window_key isoformat window key) ≡ l
        → IsSorted found
        → IsSorted (looked_up isoformat c l key found)
    looked_up-IsSorted s key (cached, wanted) (hit v) holds ask looked h = record {
      current = λ k w e. elim (Bool-cases (key == k)) [
        | inl same ↦ ground (
          arith,
          eq_iff key k,
          get-put cached key k v,
          answers_current stored s window key v holds ask looked,
          e,
        )
        | inr other ↦ h.current k w (ground (arith, get-put cached key k v, e, other))
      ];
      wanted = h.wanted;
    }
    looked_up-IsSorted s key (cached, wanted) miss holds ask looked h = record {
      current = h.current;
      wanted = All-snoc (λ k. asked window k ≡ true) wanted key h.wanted ask;
    }

    looked_up-covers :
        (key k : String) (found : Dict UsageTotals × List String) (l : Lookup UsageTotals)
        → covers (looked_up isoformat c l key found) k ≡ ((key == k) || covers found k)
    looked_up-covers key k (cached, wanted) (hit v) = ground (arith, get-put cached key k v)
    looked_up-covers key k (cached, wanted) miss = ground (arith, contains-snoc wanted key k)

    look_up-IsSorted :
        (s : c.State) (keys : List String) (found : Dict UsageTotals × List String)
        → Holds stored s
        → All (λ k. asked window k ≡ true) keys
        → IsSorted found
        → IsSorted (look_up isoformat c s window found keys)
    unfolding look_up
    look_up-IsSorted s [] found holds ask h = h
    look_up-IsSorted s (key ∷ keys) found holds ask h =
        look_up-IsSorted s keys _ holds ask.1 (looked_up-IsSorted s key found _ holds ask.0 refl h)

    look_up-covers :
        (s : c.State) (keys : List String) (found : Dict UsageTotals × List String) (k : String)
        → covers (look_up isoformat c s window found keys) k ≡ (contains keys k || covers found k)
    unfolding look_up contains
    look_up-covers s [] found k = refl
    look_up-covers s (key ∷ keys) found k =
        let l = c.get s (window_key isoformat window key) in
        ground (
          arith,
          look_up-covers s keys (looked_up isoformat c l key found) k,
          looked_up-covers key k found l,
        )

    -- The second loop stores the group's totals of what the store found.
    compute_totals-now :
        (s : c.State) (records : Dict (List UsageRecord)) (cached : Dict UsageTotals)
        (wanted : List String)
        → Holds stored s
        → All (λ k. asked window k ≡ true) wanted
        → All (λ k. get_with records k [] ≡ select (belongs window k) stored) wanted
        → (s' : c.State) × (compute_totals isoformat c s window records cached wanted
            ≡ ok (all_totals stored window cached wanted, s'))
          × Holds stored s'
    unfolding compute_totals all_totals
    compute_totals-now s records cached [] holds ask read = (s, refl, holds)
    compute_totals-now s records cached (key ∷ wanted) holds ask read =
        let (s', ran, holds') = stores_current stored s window key holds ask.0 in
        let now = totals_now stored window key in
        let (s'', rest, holds'') =
          compute_totals-now s' records (put cached key now) wanted holds' ask.1 read.1 in
        (s'', rw (read.0, ran) rest, holds'')

    all_totals-get :
        (d : Dict UsageTotals) (keys : List String) (k : String)
        → get (all_totals stored window d keys) k
          ≡ (if contains keys k then some (totals_now stored window k) else get d k)
    unfolding all_totals contains
    all_totals-get d [] k = refl
    all_totals-get d (key ∷ keys) k =
        let now = totals_now stored window key in
        ground (
          arith,
          eq_iff key k,
          get-put d key k now,
          all_totals-get (put d key now) keys k,
          ap (totals_now stored window) {x = key} {y = k},
        )

    choose-now :
        (cached chosen : Dict UsageTotals) (keys : List String)
        → All (λ k. get cached k ≡ some (totals_now stored window k)) keys
        → choose isoformat c cached chosen keys ≡ ok (all_totals stored window chosen keys)
    unfolding choose all_totals
    choose-now cached chosen [] known = refl
    choose-now cached chosen (key ∷ keys) known =
        rw (choose, known.0)
          (choose-now cached (put chosen key (totals_now stored window key)) keys known.1)

    reads_match :
        (wanted keys : List String)
        → All (λ k. contains wanted k ≡ true) keys
        → All
            (λ k. get_with (usage_for stored wanted window) k [] ≡ select (belongs window k) stored)
            keys
    reads_match wanted [] h = tt
    reads_match wanted (k ∷ keys) h =
        (ground (arith, usage_for-get stored wanted window k, h.0), reads_match wanted keys h.1)

    answers_known :
        (found : Dict UsageTotals × List String) (keys : List String)
        → IsSorted found
        → All (λ k. covers found k ≡ true) keys
        → All
            (λ k.
              get (all_totals stored window found.0 found.1) k ≡ some (totals_now stored window k))
            keys
    answers_known found [] h covered = tt
    answers_known found (k ∷ keys) h covered = (
      elim (Bool-cases (contains found.1 k)) [
        | inl wanted ↦ ground (arith, all_totals-get found.0 found.1 k, wanted)
        | inr cached ↦ elim (Option-cases (get found.0 k)) [
          | inl missing ↦ absurd (ground (arith, covered.0, missing, cached))
          | inr (v, there) ↦
              ground (arith, all_totals-get found.0 found.1 k, cached, there, h.current k v there)
        ]
      ],
      answers_known found keys h covered.1,
    )

    keys_covered :
        (s : c.State) (keys more : List String)
        → All (λ k. contains keys k ≡ true) more
        → All (λ k. covers (look_up isoformat c s window ([], []) keys) k ≡ true) more
    keys_covered s keys [] h = tt
    keys_covered s keys (k ∷ more) h =
        (ground (arith, look_up-covers s keys ([], []) k, h.0), keys_covered s keys more h.1)

    -- `totals` answers with the totals of what the store holds, whatever was cached.
    pub totals-now :
        (s : c.State) (keys : List String)
        → Holds stored s
        → All (λ k. asked window k ≡ true) keys
        → (s' : c.State) × (totals isoformat c stored s keys window
            ≡ ok (all_totals stored window [] keys, s'))
          × Holds stored s'
    unfolding totals
    totals-now s keys holds ask =
        let found = look_up isoformat c s window ([], []) keys in
        let sorted = look_up-IsSorted s keys ([], []) holds ask nothing_found in
        let (s', ran, holds') =
          compute_totals-now s (usage_for stored found.1 window) found.0 found.1 holds sorted.wanted
            (reads_match found.1 found.1 (contains_self found.1)) in
        let chosen =
          choose-now (all_totals stored window found.0 found.1) [] keys
            (answers_known found keys sorted (keys_covered s keys keys (contains_self keys))) in
        (s', rw (ran, chosen) refl, holds')
