-- ===== src/Usage/Reorder.antt =====
-- A group's totals do not depend on the order in which its entries were stored.
use mathlib.Core.List.{Permᴰ}
use lore_eden.Prelude.{
  String, ◌≡◌, refl, sym, ap, ◌∙◌, subst, Bool, Option, none, some, List, [], ◌∷◌, not, arith,
  length, select,
}
use lore_eden.Prelude.Int.{ℤ, ◌+ℤ◌, +ℤ_comm, +ℤ_assoc}
use lore_eden.Prelude.Index.{Distinct}
use lore_eden.Prelude.Dict.{Dict, get_with, keys}
use lore_eden.Usage.{UsageRecord, known, sum, sum_known, total_of, add_amount, is_measured, fold}
use lore_eden.Usage.Fold.{reported, reports, HasDicts, fold-reported, fold-counts, +ℤ_zero}

abbrev total : String → List UsageRecord → Option ℤ
total measure entries = sum_known (reported (reports measure entries))

sum-after : (a : ℤ) (ns : List ℤ) → sum_known (a ∷ ns) ≡ add_amount (sum_known ns) (some a)
unfolding sum add_amount
sum-after a [] = ap some (+ℤ_zero a)
sum-after a (n ∷ ns) = ap some (+ℤ_comm a (n +ℤ sum ns))

total-cons :
    (measure : String) (entry : UsageRecord) (entries : List UsageRecord)
    → total measure (entry ∷ entries)
      ≡ add_amount (total measure entries) (get_with entry.amounts measure none)
unfolding reports reported add_amount
total-cons measure entry entries = go (get_with entry.amounts measure none)
  where
    go :
        (value : Option ℤ)
        → sum_known (reported (value ∷ reports measure entries))
          ≡ add_amount (total measure entries) value
    go none = refl
    go (some value) = sum-after value (reported (reports measure entries))

add_amount-swap : (t a b : Option ℤ) → add_amount (add_amount t a) b ≡ add_amount (add_amount t b) a
unfolding add_amount
add_amount-swap t none b = refl
add_amount-swap t (some a) none = refl
add_amount-swap none (some a) (some b) = ap some (+ℤ_comm a b)
add_amount-swap (some t) (some a) (some b) =
    ap some (+ℤ_assoc t a b ∙ ap (λ n. t +ℤ n) (+ℤ_comm a b) ∙ sym (+ℤ_assoc t b a))

total-Perm :
    (measure : String) {entries others : List UsageRecord}
    → Permᴰ entries others
    → total measure entries ≡ total measure others
total-Perm measure Permᴰ.nil = refl
total-Perm measure (Permᴰ.cons {a} {b} {l₁ = l} {l₂ = m} e d) =
    total-cons measure a l
    ∙ (λ i. add_amount (total-Perm measure d i) (get_with (e i).amounts measure none))
    ∙ sym (total-cons measure b m)
total-Perm measure (Permᴰ.swap {a} {b} {a' = c} {b' = d} {l} e f) =
    total-cons measure a (b ∷ l)
    ∙ ap (λ t. add_amount t (get_with a.amounts measure none)) (total-cons measure b l)
    ∙ add_amount-swap (total measure l) (get_with b.amounts measure none)
        (get_with a.amounts measure none)
    ∙ (λ i.
        add_amount (add_amount (total measure l) (get_with (e i).amounts measure none))
          (get_with (f i).amounts measure none))
    ∙ ap (λ t. add_amount t (get_with c.amounts measure none)) (sym (total-cons measure d l))
    ∙ sym (total-cons measure c (d ∷ l))
total-Perm measure (Permᴰ.trans d e) = total-Perm measure d ∙ total-Perm measure e

HasDicts-Perm :
    {entries others : List UsageRecord} → Permᴰ entries others → HasDicts entries → HasDicts others
HasDicts-Perm Permᴰ.nil h = tt
HasDicts-Perm (Permᴰ.cons e d) h =
    (subst (λ r. Distinct (keys r.amounts)) e h.0, HasDicts-Perm d h.1)
HasDicts-Perm (Permᴰ.swap e f) h = (
  subst (λ r. Distinct (keys r.amounts)) f h.1.0,
  (subst (λ r. Distinct (keys r.amounts)) e h.0, h.1.1),
)
HasDicts-Perm (Permᴰ.trans d e) h = HasDicts-Perm e (HasDicts-Perm d h)

length-select-Perm :
    (p : UsageRecord → Bool) {entries others : List UsageRecord}
    → Permᴰ entries others
    → length (select p entries) ≡ length (select p others)
length-select-Perm p Permᴰ.nil = refl
length-select-Perm p (Permᴰ.cons e d) = ground (arith, ap p e, length-select-Perm p d)
length-select-Perm p (Permᴰ.swap e f) = ground (arith, ap p e, ap p f)
length-select-Perm p (Permᴰ.trans d e) = length-select-Perm p d ∙ length-select-Perm p e

known-same :
    (a b : Dict (Option ℤ)) (measures : List String)
    → ((m : String) → get_with a m none ≡ get_with b m none)
    → known a measures ≡ known b measures
unfolding known
known-same a b [] same = refl
known-same a b (m ∷ measures) same = ground (arith, same m, known-same a b measures same)

-- If the entries' amounts are dicts, the totals of a group and of a reordering of it agree: every
-- sum over measures, and how many entries were measured and unmeasured.
pub fold-reordered :
    (entries others : List UsageRecord) (key : String) (measures : List String)
    → Permᴰ entries others
    → HasDicts entries
    → (total_of (fold entries key) measures ≡ total_of (fold others key) measures)
      × ((fold entries key).measured_entries ≡ (fold others key).measured_entries)
      × ((fold entries key).unmeasured_entries ≡ (fold others key).unmeasured_entries)
unfolding total_of
fold-reordered entries others key measures p d = (
  ap sum_known (
      known-same (fold entries key).amounts (fold others key).amounts measures λ m.
        fold-reported entries key m d
        ∙ total-Perm m p
        ∙ sym (fold-reported others key m (HasDicts-Perm p d))),
  (fold-counts entries key).1 ∙ length-select-Perm is_measured p ∙ sym (fold-counts others key).1,
  (fold-counts entries key).2
      ∙ length-select-Perm (λ e. not (is_measured e)) p
      ∙ sym (fold-counts others key).2,
)
