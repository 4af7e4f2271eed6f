-- ===== src/Cache/Examples.antt =====
-- A read of a counter table through the cache.
use lore_eden.Prelude.{
  ℕ, String, ◌≡◌, refl, ap, ◌⊎◌, some, List, [], ◌∷◌, map, arith, ◌==◌, eq_iff, if◌then◌else◌,
}
use lore_eden.Prelude.Dict.{get}
use lore_eden.Prelude.Index.{contains}
use lore_eden.Prelude.Result.{ok, raised}
use lore_eden.Prelude.Text.{join, concat}
use lore_eden.Cache.{
  DictCache, DerivedRead, untagged, hit, intersects, empty, dict_get, dict_set,
  dict_invalidate_tags, dict_cache, null_cache, read_key, value_of,
}
use lore_eden.Cache.Invalidation.{
  IsWell, Invalidated, dict_invalidate_tags-Invalidated, dict_set-IsWell,
}
use lore_eden.Cache.Coherence.{
  Event, ask, write, answers, direct_answers, answers_agree, IsHonest, HasFaithfulKeys,
}
use lore_eden.Cache.Keys.{value_of_confuses}

-- The world is a table; the read looks its key up, and derives from that key.
abbrev count_of : DerivedRead (String → ℕ) String ℕ
count_of = record {
  name = "count";
  compute = λ w arguments. w (join ":" ("count" ∷ map (λ (s : String). s) arguments));
  tags = λ w arguments. join ":" ("count" ∷ map (λ (s : String). s) arguments) ∷ [];
  str = λ s. s;
}

faithful : HasFaithfulKeys count_of
unfolding read_key
faithful w a b e = (ap w e, ap (λ k. k ∷ []) e)

abbrev before : String → ℕ
before k = 1

abbrev after : String → ℕ
after k = if k == "count:a" then 2 else 1

abbrev events : List (Event (String → ℕ) String)
events = ask ("a" ∷ []) ∷ ask ("a" ∷ []) ∷ write after ("count:a" ∷ []) ∷ ask ("a" ∷ []) ∷ []

honest : IsHonest count_of before events
unfolding intersects contains
honest = (
  λ e. cc,
  (
    λ e. cc,
    (
      λ arguments kept. (
        ground (
          arith,
          eq_iff "count:a" (join ":" ("count" ∷ map (λ (s : String). s) arguments)),
          eq_iff (join ":" ("count" ∷ map (λ (s : String). s) arguments)) "count:a",
        ),
        refl,
      ),
      (λ e. cc, tt),
    ),
  ),
)

answers_agree_example :
    (answers count_of dict_cache before empty events ≡ answers count_of null_cache before tt events)
    × (answers count_of null_cache before tt events ≡ ok (1 ∷ 1 ∷ 2 ∷ []))
unfolding direct_answers join
answers_agree_example = answers_agree count_of faithful before events honest

value_of_confuses_example :
    (c : DictCache ℕ) × (value_of dict_cache before count_of empty ("a:b" ∷ []) ≡ ok (1, c))
    × (value_of dict_cache before count_of c ("a" ∷ "b" ∷ []) ≡ ok (1, c))
unfolding concat
value_of_confuses_example =
    value_of_confuses count_of (λ s. refl) "a" "b" before "count:a:b" []
      (unfold join concat in refl)

abbrev one_entry : DictCache ℕ
one_entry = record { values = ("k", 7) ∷ []; tags = ("k", "t" ∷ []) ∷ [] }

one_entry-IsWell : IsWell one_entry
unfolding get contains
one_entry-IsWell = record {
  distinct = (refl, tt);
  same_keys = λ k. ground arith;
  tagged = λ k e. ground arith;
}

dict_invalidate_tags-Invalidated_example :
    (r : DictCache ℕ × ℕ) × (dict_invalidate_tags one_entry ("t" ∷ []) ≡ ok r)
    × Invalidated one_entry ("t" ∷ []) r
dict_invalidate_tags-Invalidated_example =
    dict_invalidate_tags-Invalidated one_entry ("t" ∷ []) one_entry-IsWell

dict_set-IsWell_example :
    ((◌≡◌ {A = List String} ("u" ∷ []) [])
      × (dict_set one_entry "j" 8 ("u" ∷ []) ≡ raised (untagged "j")))
    ⊎ ((c' : DictCache ℕ) × (dict_set one_entry "j" 8 ("u" ∷ []) ≡ ok c')
        × IsWell c'
        × ((k : String) → dict_get c' k ≡ (if "j" == k then hit 8 else dict_get one_entry k))
        × ((k : String)
            → get c'.tags k ≡ (if "j" == k then some ("u" ∷ []) else get one_entry.tags k)))
dict_set-IsWell_example = dict_set-IsWell one_entry "j" 8 ("u" ∷ []) one_entry-IsWell
