-- ===== src/Usage/Fold.antt =====
-- What `fold` adds up.
use lore_eden.Prelude.{
  ℕ, ◌+◌, String, ◌≡◌, refl, sym, ap, ◌∙◌, Option, none, some, List, [], ◌∷◌, eq_iff, not, arith,
  if◌then◌else◌, length, select, All,
}
use lore_eden.Prelude.Int.{ℤ, pos, negsuc, ◌+ℤ◌, +ℤ_assoc}
use lore_eden.Prelude.Index.{Distinct}
use lore_eden.Prelude.Dict.{Dict, get, get_with, put, keys, get-put, contains-keys}
use lore_eden.Usage.{
  UsageRecord, sum, sum_known, add_amount, is_measured, add_amounts, fold_loop, fold,
}

-- The figures among what was reported.
unfoldable pub reported : List (Option ℤ) → List ℤ
reported [] = []
reported (none ∷ values) = reported values
reported (some value ∷ values) = value ∷ reported values

-- What each entry says of a measure.
unfoldable pub reports : String → List UsageRecord → List (Option ℤ)
reports measure [] = []
reports measure (entry ∷ entries) = get_with entry.amounts measure none ∷ reports measure entries

-- Every entry's amounts are a dict.
abbrev pub HasDicts : List UsageRecord → Type 0
HasDicts entries = All (λ e. Distinct (keys e.amounts)) entries

add_amounts-get :
    (amounts items : Dict (Option ℤ)) (measure : String)
    → Distinct (keys items)
    → get_with (add_amounts amounts items) measure none
      ≡ add_amount (get_with amounts measure none) (get_with items measure none)
unfolding add_amounts add_amount get
add_amounts-get amounts [] measure d = refl
add_amounts-get amounts ((j, value) ∷ items) measure d =
    let step = add_amount (get_with amounts j none) value in
    ground (
      arith,
      eq_iff j measure,
      get-put amounts j measure step,
      contains-keys items j,
      add_amounts-get (put amounts j step) items measure d.1,
      d.0,
    )

-- The running total over the entries.
unfoldable running : Option ℤ → List (Option ℤ) → Option ℤ
running total [] = total
running total (value ∷ values) = running (add_amount total value) values

fold_loop-running :
    (amounts : Dict (Option ℤ)) (n : ℕ) (entries : List UsageRecord) (measure : String)
    → HasDicts entries
    → get_with (fold_loop amounts n entries).0 measure none
      ≡ running (get_with amounts measure none) (reports measure entries)
unfolding fold_loop running reports
fold_loop-running amounts n [] measure d = refl
fold_loop-running amounts n (entry ∷ entries) measure d =
    fold_loop-running (add_amounts amounts entry.amounts) (if is_measured entry then n + 1 else n)
      entries measure d.1
    ∙ ap (λ t. running t (reports measure entries))
        (add_amounts-get amounts entry.amounts measure d.0)

pub +ℤ_zero : (n : ℤ) → n +ℤ pos 0 ≡ n
unfolding ◌+ℤ◌
+ℤ_zero (pos n) = ground arith
+ℤ_zero (negsuc n) = ground arith

running-some :
    (total : ℤ) (values : List (Option ℤ))
    → running (some total) values ≡ some (total +ℤ sum (reported values))
unfolding running reported sum add_amount
running-some total [] = ap some (sym (+ℤ_zero total))
running-some total (none ∷ values) = running-some total values
running-some total (some value ∷ values) =
    running-some (total +ℤ value) values ∙ ap some (+ℤ_assoc total value _)

running-none : (values : List (Option ℤ)) → running none values ≡ sum_known (reported values)
unfolding running reported sum add_amount
running-none [] = refl
running-none (none ∷ values) = running-none values
running-none (some value ∷ values) = running-some value values

-- A measure's total is the sum of the figures reported for it, and is none if none was reported,
-- if the amounts of each entry are a dict.
pub fold-reported :
    (entries : List UsageRecord) (key measure : String)
    → HasDicts entries
    → get_with (fold entries key).amounts measure none
      ≡ sum_known (reported (reports measure entries))
unfolding fold running get
fold-reported entries key measure d =
    fold_loop-running [] 0 entries measure d ∙ running-none (reports measure entries)

fold_loop-measured :
    (amounts : Dict (Option ℤ)) (n : ℕ) (entries : List UsageRecord)
    → (fold_loop amounts n entries).1 ≡ n + length (select is_measured entries)
unfolding fold_loop
fold_loop-measured amounts n [] = omega arith
fold_loop-measured amounts n (entry ∷ entries) = ground (
  arith,
  fold_loop-measured (add_amounts amounts entry.amounts) n entries,
  fold_loop-measured (add_amounts amounts entry.amounts) (n + 1) entries,
)

select-both :
    (entries : List UsageRecord)
    → length (select is_measured entries) + length (select (λ e. not (is_measured e)) entries)
      ≡ length entries
select-both [] = omega arith
select-both (entry ∷ entries) = ground (arith, select-both entries)

-- The counts of a group: its entries, those that reported a figure and those that reported none.
pub fold-counts :
    (entries : List UsageRecord) (key : String)
    → ((fold entries key).entries ≡ length entries)
      × ((fold entries key).measured_entries ≡ length (select is_measured entries))
      × ((fold entries key).unmeasured_entries ≡ length (select (λ e. not (is_measured e)) entries))
unfolding fold
fold-counts entries key = (
  refl,
  omega (arith, fold_loop-measured [] 0 entries),
  omega (arith, fold_loop-measured [] 0 entries, select-both entries),
)
