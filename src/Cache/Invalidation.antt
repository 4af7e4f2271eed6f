-- ===== src/Cache/Invalidation.antt =====
-- Every stored value has tags, and invalidation drops exactly what they select.
use lore_eden.Prelude.{
  ℕ, String, ◌≡◌, ◌≢◌, refl, ◌∙◌, inl, inr, Bool, true, false, Option, none, some, List, [], ◌∷◌,
  arith, ◌⊎◌, ◌==◌, eq_iff, eq_refl, if◌then◌else◌, length,
}
use lore_eden.Prelude.Index.{contains, Distinct}
use lore_eden.Prelude.Dict.{
  Dict, get, put, remove, keys, get-put, get-remove, contains-keys, put-Distinct, remove-Distinct,
}
use lore_eden.Prelude.Result.{ok, raised}
use lore_eden.Cache.{
  miss, hit, untagged, DictCache, intersects, doomed_keys, dict_get, dict_set, drop_keys,
  dict_invalidate_tags,
}

abbrev pub is_there {ℓ} : {A : Type ℓ} → Option A → Bool
is_there none = false
is_there (some a) = true

-- The two dicts of a `DictCache` have the same keys, one entry for each, and no entry is untagged.
pub record IsWell {V : Type 0} (c : DictCache V) : Type 0 where
  pub distinct : Distinct (keys c.tags)
  pub same_keys : (k : String) → is_there (get c.values k) ≡ is_there (get c.tags k)
  pub tagged : (k : String) → get c.tags k ≢ some []

-- The entry of a key is dropped by a write with these tags.
abbrev pub is_doomed : Option (List String) → List String → Bool
is_doomed none tags = false
is_doomed (some stored) tags = intersects stored tags

contains-doomed_keys :
    (entries : Dict (List String)) (tags : List String) (k : String)
    → Distinct (keys entries)
    → contains (doomed_keys entries tags) k ≡ is_doomed (get entries k) tags
unfolding doomed_keys get contains
contains-doomed_keys [] tags k d = refl
contains-doomed_keys ((key, stored) ∷ entries) tags k d =
    ground (arith, eq_iff key k, contains-doomed_keys entries tags k d.1, contains-keys entries k)

doomed_keys-Distinct :
    (entries : Dict (List String)) (tags : List String)
    → Distinct (keys entries)
    → Distinct (doomed_keys entries tags)
unfolding doomed_keys
doomed_keys-Distinct [] tags d = tt
doomed_keys-Distinct ((key, stored) ∷ entries) tags d = ground (
  arith,
  doomed_keys-Distinct entries tags d.1,
  contains-doomed_keys entries tags key d.1,
  contains-keys entries key,
)

-- The cache after a loop that dropped the keys of a list, all of them there.
record Dropped {V : Type 0} (c : DictCache V) (doomed : List String) (c' : DictCache V)
    : Type 0 where
  values : (k : String) → get c'.values k ≡ (if contains doomed k then none else get c.values k)
  tags : (k : String) → get c'.tags k ≡ (if contains doomed k then none else get c.tags k)
  distinct : Distinct (keys c'.tags)

module _ {V : Type 0} where
  abbrev without : DictCache V → String → DictCache V
  without c key = record { values = remove c.values key; tags = remove c.tags key }

  without-IsWell : (c : DictCache V) (key : String) → IsWell c → IsWell (without c key)
  without-IsWell c key w = record {
    distinct = remove-Distinct c.tags key w.distinct;
    same_keys =
        λ k. ground (arith, get-remove c.values key k, get-remove c.tags key k, w.same_keys k);
    tagged = λ k e. ground (arith, get-remove c.tags key k, w.tagged k);
  }

  drop_one :
      (c : DictCache V) (key : String) (doomed : List String)
      → IsWell c
      → is_there (get c.tags key) ≡ true
      → drop_keys c (key ∷ doomed) ≡ drop_keys (without c key) doomed
  unfolding drop_keys
  drop_one c key doomed w there = ground (arith, w.same_keys key)

  drop_keys-Dropped :
      (doomed : List String) (c : DictCache V)
      → IsWell c
      → Distinct doomed
      → ((k : String) → contains doomed k ≡ true → is_there (get c.tags k) ≡ true)
      → (c' : DictCache V) × (drop_keys c doomed ≡ ok c') × Dropped c doomed c'
  unfolding contains
  drop_keys-Dropped [] c w d there = (
    c,
    unfold drop_keys in refl,
    record { values = λ k. refl; tags = λ k. refl; distinct = w.distinct },
  )
  drop_keys-Dropped (key ∷ doomed) c w d there =
      let (c', ran, r) =
        drop_keys-Dropped doomed (without c key) (without-IsWell c key w) d.1
          (λ k m. ground (arith, eq_iff key k, get-remove c.tags key k, there k)) in
      (
        c',
        drop_one c key doomed w (there key (rw eq_refl)) ∙ ran,
        record {
          values = λ k. ground (arith, eq_iff key k, r.values k, get-remove c.values key k);
          tags = λ k. ground (arith, eq_iff key k, r.tags k, get-remove c.tags key k);
          distinct = r.distinct;
        },
      )

  doomed_is_there :
      (c : DictCache V) (tags : List String) (k : String)
      → IsWell c
      → contains (doomed_keys c.tags tags) k ≡ true
      → is_there (get c.tags k) ≡ true
  doomed_is_there c tags k w m = ground (arith, contains-doomed_keys c.tags tags k w.distinct)

  -- What an invalidation does to a cache.
  pub record Invalidated (c : DictCache V) (tags : List String) (r : DictCache V × ℕ) : Type 0 where
    pub well : IsWell r.0
    pub answers :
        (k : String)
        → dict_get r.0 k ≡ (if is_doomed (get c.tags k) tags then miss else dict_get c k)
    pub survivors :
        (k : String)
        → get r.0.tags k ≡ (if is_doomed (get c.tags k) tags then none else get c.tags k)

  -- On a cache whose dicts agree, `invalidate_tags` never raises; every entry that shares a tag with
  -- the write is a miss afterwards, every other lookup is as before, and the dicts still agree.
  pub dict_invalidate_tags-Invalidated :
      (c : DictCache V) (tags : List String)
      → IsWell c
      → (r : DictCache V × ℕ) × (dict_invalidate_tags c tags ≡ ok r) × Invalidated c tags r
  dict_invalidate_tags-Invalidated c tags w =
      let doomed = doomed_keys c.tags tags in
      let (c', ran, r) =
        drop_keys-Dropped doomed c w (doomed_keys-Distinct c.tags tags w.distinct)
          (λ k m. doomed_is_there c tags k w m) in
      (
        (c', length doomed),
        unfold dict_invalidate_tags in rw ran,
        record {
          well = record {
            distinct = r.distinct;
            same_keys = λ k. ground (arith, r.values k, r.tags k, w.same_keys k);
            tagged = λ k e. ground (arith, r.tags k, w.tagged k);
          };
          answers = λ k.
              unfold dict_get in
              ground (arith, r.values k, contains-doomed_keys c.tags tags k w.distinct);
          survivors = λ k. ground (arith, r.tags k, contains-doomed_keys c.tags tags k w.distinct);
        },
      )

  -- On a cache whose dicts agree, storing with tags keeps them in agreement, answers the new key
  -- with the new value and every other key as before; storing with no tags is refused.
  pub dict_set-IsWell :
      (c : DictCache V) (key : String) (value : V) (tags : List String)
      → IsWell c
      → (tags ≡ []) × (dict_set c key value tags ≡ raised (untagged key))
        ⊎ ((c' : DictCache V) × (dict_set c key value tags ≡ ok c')
            × IsWell c'
            × ((k : String) → dict_get c' k ≡ (if key == k then hit value else dict_get c k))
            × ((k : String) → get c'.tags k ≡ (if key == k then some tags else get c.tags k)))
  unfolding dict_set dict_get
  dict_set-IsWell c key value [] w = inl (refl, refl)
  dict_set-IsWell c key value (t ∷ tags) w = inr (
    record { values = put c.values key value; tags = put c.tags key (t ∷ tags) },
    refl,
    record {
      distinct = put-Distinct c.tags key (t ∷ tags) w.distinct;
      same_keys = λ k.
          ground
            (arith, get-put c.values key k value, get-put c.tags key k (t ∷ tags), w.same_keys k);
      tagged = λ k e. ground (arith, get-put c.tags key k (t ∷ tags), w.tagged k);
    },
    λ k. ground (arith, get-put c.values key k value),
    λ k. get-put c.tags key k (t ∷ tags),
  )
