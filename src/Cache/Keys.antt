-- ===== src/Cache/Keys.antt =====
-- The cache keys of a read: arguments are joined by ":", so different arguments can share a key.
use text.Mathlib.TextLemmas.{append-nil}
use lore_eden.Prelude.{String, ◌≡◌, List, [], ◌∷◌, eq_refl, some}
use lore_eden.Prelude.Dict.{get, put, get-put}
use lore_eden.Prelude.Result.{ok}
use lore_eden.Prelude.Text.{concat, join}
use lore_eden.Cache.{
  DictCache, DerivedRead, dict_cache, dict_get, dict_set, empty, read_key, value_of,
}

module _ {W V : Type 0} (read : DerivedRead W String V) (texts : (s : String) → read.str s ≡ s)
    (a b : String) where
  abbrev pub joined : List String
  joined = concat (a ∷ ":" ∷ b ∷ []) ∷ []

  same_key : read_key read joined ≡ read_key read (a ∷ b ∷ [])
  unfolding read_key join concat
  same_key = rw (texts (concat (a ∷ ":" ∷ b ∷ [])), texts a, texts b, append-nil)

  hit_after :
      (w : W) (c : DictCache V) (v : V)
      → get c.values (read_key read (a ∷ b ∷ [])) ≡ some v
      → value_of dict_cache w read c (a ∷ b ∷ []) ≡ ok (v, c)
  unfolding value_of dict_get
  hit_after w c v e = rw e

  -- Let a read be asked with texts, which `str` leaves as they are. If the read with the one
  -- argument "a:b" has a tag, asking it first through an empty `DictCache` stores its value, and
  -- asking next with the two arguments "a" and "b" returns that value, for all texts a and b and
  -- whatever the read computes for the two arguments.
  pub value_of_confuses :
      (w : W) (tag : String) (more : List String)
      → read.tags w joined ≡ tag ∷ more
      → (c : DictCache V) × (value_of dict_cache w read empty joined
          ≡ ok (read.compute w joined, c))
        × (value_of dict_cache w read c (a ∷ b ∷ []) ≡ ok (read.compute w joined, c))
  unfolding value_of dict_get dict_set get
  value_of_confuses w tag more tagged =
      let v = read.compute w joined in
      let key = read_key read joined in
      let c : DictCache V = record { values = put [] key v; tags = put [] key (tag ∷ more) } in
      (c, rw tagged, hit_after w c v (rw (← same_key) (rw (get-put [] key key v, eq_refl))))
