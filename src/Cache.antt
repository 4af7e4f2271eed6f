-- ===== src/Cache.antt =====
-- python/lore_eden/cache.py: cached derived reads, dropped by tag.
pub mod Invalidation
pub mod Coherence
pub mod Keys
mod Examples
use lore_eden.Prelude.{
  ℕ, zero, suc, ◌+◌, String, Bool, true, false, ◌||◌, Option, none, some, List, [], ◌∷◌, map,
  if◌then◌else◌, length,
}
use lore_eden.Prelude.Index.{contains}
use lore_eden.Prelude.Dict.{Dict, get, put, remove, keys}
use lore_eden.Prelude.Result.{Result, ok, raised, ◌>>=◌}
use lore_eden.Prelude.Text.{join}

-- `Lookup`: a miss, or the value that was found.
pub data Lookup (V : Type 0) : Type 0 where
  miss : Lookup V
  hit : V → Lookup V

pub data CacheError : Type 0 where
  -- ValueError of `DictCache.set`: a value with no tags could never be dropped
  untagged : String → CacheError
  -- KeyError of `del`
  missing_key : String → CacheError
  -- ValueError of `DerivedReadRegistry.register`
  already_registered : String → CacheError

-- What a host supplies: the `Cache` protocol, over the host's own state.
pub record Cache (V : Type 0) : Type 1 where
  pub State : Type 0
  pub get : State → String → Lookup V
  pub set : State → String → V → List String → Result CacheError State
  pub invalidate_tags : State → List String → Result CacheError (State × ℕ)
  pub clear : State → State

-- The tags that an entry derives from, and the tags of a write, have one in common.
unfoldable pub intersects : List String → List String → Bool
intersects [] tags = false
intersects (t ∷ stored) tags = contains tags t || intersects stored tags

pub record DictCache (V : Type 0) : Type 0 where
  pub values : Dict V
  pub tags : Dict (List String)

-- del d[key]
unfoldable pub delete {ℓ} : {A : Type ℓ} → Dict A → String → Option (Dict A)
delete d key = elim (get d key) [ none ↦ none | some _ ↦ some (remove d key) ]

-- `[key for key, stored in self._tags.items() if stored & tags]`
unfoldable pub doomed_keys : Dict (List String) → List String → List String
unfolding intersects
doomed_keys [] tags = []
doomed_keys ((key, stored) ∷ entries) tags =
    let rest = doomed_keys entries tags in if intersects stored tags then key ∷ rest else rest

module _ {V : Type 0} where
  abbrev pub found : Option V → Lookup V
  found none = miss
  found (some v) = hit v

  abbrev pub empty : DictCache V
  empty = record { values = []; tags = [] }

  unfoldable pub dict_get : DictCache V → String → Lookup V
  dict_get c key = found (get c.values key)

  unfoldable pub dict_set : DictCache V → String → V → List String → Result CacheError (DictCache V)
  dict_set c key value [] = raised (untagged key)
  dict_set c key value (t ∷ tags) =
      ok (record { values = put c.values key value; tags = put c.tags key (t ∷ tags) })

  -- The body of the loop over the doomed keys.
  abbrev pub drop_with :
      String → Option (Dict V) → Option (Dict (List String)) → Result CacheError (DictCache V)
  drop_with key none tags = raised (missing_key key)
  drop_with key (some values) none = raised (missing_key key)
  drop_with key (some values) (some tags) = ok (record { values = values; tags = tags })

  unfoldable pub drop_keys : DictCache V → List String → Result CacheError (DictCache V)
  unfolding delete
  drop_keys c [] = ok c
  drop_keys c (key ∷ doomed) = do
    c' ← drop_with key (delete c.values key) (delete c.tags key)
    drop_keys c' doomed

  unfoldable pub dict_invalidate_tags :
      DictCache V → List String → Result CacheError (DictCache V × ℕ)
  dict_invalidate_tags c tags =
      let doomed = doomed_keys c.tags tags in drop_keys c doomed >>= λ c'. ok (c', length doomed)

  abbrev pub dict_clear : DictCache V → DictCache V
  dict_clear c = empty

  -- `DictCache`, as an implementation of the protocol.
  abbrev pub dict_cache : Cache V
  dict_cache = record {
    State = DictCache V;
    get = dict_get;
    set = dict_set;
    invalidate_tags = dict_invalidate_tags;
    clear = dict_clear;
  }

  -- `NullCache`: remembers nothing.
  abbrev pub null_cache : Cache V
  null_cache = record {
    State = Unit;
    get = λ s key. miss;
    set = λ s key value tags. ok s;
    invalidate_tags = λ s tags. ok (s, 0);
    clear = λ s. s;
  }

-- A read, with what it derives from. `World` is what `compute` and `tags` consult: the host's data.
-- `str` is Python's, on the arguments that the read is asked with.
pub record DerivedRead (World Argument V : Type 0) : Type 0 where
  pub name : String
  pub compute : World → List Argument → V
  pub tags : World → List Argument → List String
  pub str : Argument → String

unfoldable pub read_key : {W A V : Type 0} → DerivedRead W A V → List A → String
read_key read arguments = join ":" (read.name ∷ map read.str arguments)

module _ {V : Type 0} where
  -- The miss of `value_of`: compute, store under the declared tags, return.
  abbrev pub compute_and_store :
      (c : Cache V) → c.State → String → V → List String → Result CacheError (V × c.State)
  compute_and_store c s key value tags = c.set s key value tags >>= λ s'. ok (value, s')

  abbrev pub answer :
      (c : Cache V)
      → c.State
      → Lookup V
      → Result CacheError (V × c.State)
      → Result CacheError (V × c.State)
  answer c s miss fresh = fresh
  answer c s (hit v) fresh = ok (v, s)

module _ {W A V : Type 0} where
  -- `DerivedReadRegistry.register`: two reads cannot share a name.
  unfoldable pub register :
      Dict (DerivedRead W A V) → DerivedRead W A V → Result CacheError (Dict (DerivedRead W A V))
  register reads read = elim (get reads read.name) [
    | none ↦ ok (put reads read.name read)
    | some _ ↦ raised (already_registered read.name)
  ]

  unfoldable pub value_of :
      (c : Cache V) → W → DerivedRead W A V → c.State → List A → Result CacheError (V × c.State)
  value_of c w read s arguments =
      let key = read_key read arguments in
      answer c s (c.get s key)
        (compute_and_store c s key (read.compute w arguments) (read.tags w arguments))
