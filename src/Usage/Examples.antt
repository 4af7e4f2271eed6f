-- ===== src/Usage/Examples.antt =====
-- Two entries of a group, added up and asked about.
use mathlib.Core.List.{Permᴰ}
use mathlib.Core.Bool.{false≢true}
use lore_eden.Prelude.{
  ℕ, String, ◌≡◌, ◌≢◌, refl, sym, ap, ◌∙◌, ◌⊎◌, Bool, true, false, ◌&&◌, inl, inr, Option, none,
  some, List, [], ◌∷◌, ◌==◌, eq_iff, arith, nat_eq,
}
use lore_eden.Prelude.Int.{ℤ, pos, negsuc, ◌+ℤ◌}
use lore_eden.Prelude.Dict.{get, get_with}
use lore_eden.Prelude.Index.{contains}
use lore_eden.Prelude.Result.{ok}
use lore_eden.Prelude.Text.{concat}
use lore_eden.Cache.{empty, dict_cache, null_cache}
use lore_eden.Usage.{UsageRecord, Window, fold, total_of, sum, usage_for, window_key}
use lore_eden.Usage.Fold.{fold-reported, reported, reports}
use lore_eden.Usage.Reorder.{fold-reordered}
use lore_eden.Usage.Windows.{usage_for-get}
use lore_eden.Usage.Cached.{HasOwnKeys}
use lore_eden.Usage.Agreement.{UsageEvent, spend, ask, answers, direct_answers, totals_agree}

abbrev entry : ℕ → ℤ → UsageRecord
entry t tokens = record {
  subject_id = "run";
  group_key = "a";
  amounts = ("tokens", some tokens) ∷ ("cents", none) ∷ [];
  occurred_at = t;
}

abbrev unmeasured : UsageRecord
unmeasured = record { subject_id = "run"; group_key = "a"; amounts = []; occurred_at = 2 }

abbrev entries : List UsageRecord
entries = entry 1 (pos 5) ∷ unmeasured ∷ entry 3 (negsuc 1) ∷ []

abbrev reordered : List UsageRecord
reordered = unmeasured ∷ entry 1 (pos 5) ∷ entry 3 (negsuc 1) ∷ []

fold-reported_example : get_with (fold entries "a").amounts "tokens" none ≡ some (pos 3)
unfolding reports reported contains get sum ◌+ℤ◌
fold-reported_example =
    fold-reported entries "a" "tokens" ((refl, (refl, tt)), (tt, ((refl, (refl, tt)), tt)))

fold-reordered_example :
    (total_of (fold entries "a") ("tokens" ∷ []) ≡ total_of (fold reordered "a") ("tokens" ∷ []))
    × ((fold entries "a").measured_entries ≡ (fold reordered "a").measured_entries)
    × ((fold entries "a").unmeasured_entries ≡ (fold reordered "a").unmeasured_entries)
unfolding contains
fold-reordered_example =
    fold-reordered entries reordered "a" ("tokens" ∷ []) (Permᴰ.swap refl refl)
      ((refl, (refl, tt)), (tt, ((refl, (refl, tt)), tt)))

abbrev always : Window
always = record { since = none; until = none }

abbrev from_three : Window
from_three = record { since = some 3; until = none }

usage_for-get_example :
    get_with (usage_for entries ("a" ∷ []) from_three) "a" [] ≡ entry 3 (negsuc 1) ∷ []
unfolding contains
usage_for-get_example = usage_for-get entries ("a" ∷ []) from_three "a"

-- The clock's text, at the one moment that is asked about.
abbrev clock_text : ℕ → String
clock_text t = "3"

abbrev ends_open : Option ℕ → Bool
ends_open none = true
ends_open (some t) = false

abbrev starts_known : Option ℕ → Bool
starts_known none = true
starts_known (some t) = nat_eq t 3

abbrev asked : Window → String → Bool
asked window key = (key == "a") && (ends_open window.until && starts_known window.since)

asked-cases :
    (w : Window) (key : String)
    → asked w key ≡ true
    → (key ≡ "a") × ((w ≡ always) ⊎ (w ≡ from_three))
asked-cases w key named =
    ((eq_iff key "a").0 (ground (arith, named)), windows w.since w.until refl refl)
  where
    windows :
        (since until : Option ℕ)
        → w.since ≡ since
        → w.until ≡ until
        → (w ≡ always) ⊎ (w ≡ from_three)
    windows since (some t) s u = absurd (ground (arith, named, u))
    windows none none s u = inl (λ i. record { since = s i; until = u i })
    windows (some t) none s u =
        let three : t ≡ 3 = ground (arith, named, s, u) in
        inr (λ i. record { since = (s ∙ ap some three) i; until = u i })

keys_apart : window_key clock_text always "a" ≢ window_key clock_text from_three "a"
unfolding window_key concat
keys_apart e = false≢true ((eq_iff _ _).1 e)

own_keys : HasOwnKeys clock_text asked
own_keys v w j k named named' same =
    let (at_a, v_is) = asked-cases v j named in
    let (at_a', w_is) = asked-cases w k named' in (windows v_is w_is at_a at_a', at_a ∙ sym at_a')
  where
    windows :
        (v ≡ always) ⊎ (v ≡ from_three)
        → (w ≡ always) ⊎ (w ≡ from_three)
        → j ≡ "a"
        → k ≡ "a"
        → v ≡ w
    windows (inl p) (inl q) r t = p ∙ sym q
    windows (inr p) (inr q) r t = p ∙ sym q
    windows (inl p) (inr q) r t = absurd (
        keys_apart (
          sym (λ i. window_key clock_text (p i) (r i)) ∙ same ∙ λ i.
          window_key clock_text (q i) (t i)))
    windows (inr p) (inl q) r t = absurd (
        keys_apart (
          sym (λ i. window_key clock_text (q i) (t i)) ∙ sym same ∙ λ i.
          window_key clock_text (p i) (r i)))

abbrev events : List UsageEvent
events =
    spend (entry 1 (pos 5))
    ∷ ask always ("a" ∷ [])
    ∷ spend (entry 3 (negsuc 1))
    ∷ ask always ("a" ∷ [])
    ∷ ask from_three ("a" ∷ [])
    ∷ []

totals_agree_example :
    (answers clock_text dict_cache [] empty events ≡ ok (direct_answers clock_text [] events))
    × (answers clock_text null_cache [] tt events ≡ ok (direct_answers clock_text [] events))
totals_agree_example =
    totals_agree clock_text asked own_keys events ((refl, tt), ((refl, tt), ((refl, tt), tt)))
