-- ===== src/Prelude/Dict.antt =====
-- Python's `dict` with text keys: the entries in insertion order. A program's dict has one entry
-- for a key (`Distinct (keys d)`); the laws below hold with and without.
use mathlib.Core.Option.{get_or}
use lore_eden.Prelude.{
  String, ◌≡◌, refl, true, false, ◌||◌, Option, none, some, List, [], ◌∷◌, arith, ◌==◌, eq_iff,
  eq_refl, if◌then◌else◌,
}
use lore_eden.Prelude.Index.{contains, Distinct}

abbrev pub Dict {ℓ} : Type ℓ → Type ℓ
Dict V = List (String × V)

module _ {ℓ} {V : Type ℓ} where
  abbrev pub keys : Dict V → List String
  keys [] = []
  keys ((k, v) ∷ d) = k ∷ keys d

  -- d.get(k)
  unfoldable pub get : Dict V → String → Option V
  get [] k = none
  get ((j, v) ∷ d) k = if j == k then some v else get d k

  -- d.get(k, default)
  abbrev pub get_with : Dict V → String → V → V
  get_with d k default = get_or (get d k) default

  -- d[k] = v: a key that is there keeps its place, a new one goes to the end.
  unfoldable pub put : Dict V → String → V → Dict V
  put [] k v = (k, v) ∷ []
  put ((j, w) ∷ d) k v = if j == k then (j, v) ∷ d else (j, w) ∷ put d k v

  -- d.pop(k, None), and `del d[k]` where the key is there.
  unfoldable pub remove : Dict V → String → Dict V
  remove [] k = []
  remove ((j, w) ∷ d) k = let rest = remove d k in if j == k then rest else (j, w) ∷ rest

  pub get-put :
      (m : Dict V) (key asked : String) (new : V)
      → get (put m key new) asked ≡ (if key == asked then some new else get m asked)
  unfolding get put
  get-put [] key asked new = refl
  get-put ((i, old) ∷ m) key asked new =
      ground (arith, eq_iff key asked, eq_iff i key, eq_iff i asked, get-put m key asked new)

  pub get-put_same : (m : Dict V) (key : String) (new : V) → get (put m key new) key ≡ some new
  get-put_same m key new = rw (get-put m key key new, eq_refl) refl

  pub get-remove :
      (m : Dict V) (key asked : String)
      → get (remove m key) asked ≡ (if key == asked then none else get m asked)
  unfolding get remove
  get-remove [] key asked = ground arith
  get-remove ((i, old) ∷ m) key asked =
      ground (arith, eq_iff key asked, eq_iff i key, eq_iff i asked, get-remove m key asked)

  pub contains-keys :
      (d : Dict V) (k : String)
      → contains (keys d) k ≡ elim (get d k) [ none ↦ false | some _ ↦ true ]
  unfolding get contains
  contains-keys [] k = refl
  contains-keys ((i, w) ∷ d) k = ground (arith, contains-keys d k)

  pub contains-keys-put :
      (d : Dict V) (k j : String) (v : V)
      → contains (keys (put d k v)) j ≡ ((k == j) || contains (keys d) j)
  unfolding contains put
  contains-keys-put [] k j v = refl
  contains-keys-put ((i, w) ∷ d) k j v =
      ground (arith, eq_iff k j, eq_iff i k, eq_iff i j, contains-keys-put d k j v)

  contains-keys-remove_absent :
      (d : Dict V) (k j : String)
      → contains (keys d) j ≡ false
      → contains (keys (remove d k)) j ≡ false
  unfolding contains remove
  contains-keys-remove_absent [] k j h = refl
  contains-keys-remove_absent ((i, w) ∷ d) k j h = ground (arith, contains-keys-remove_absent d k j)

  pub put-Distinct :
      (d : Dict V) (k : String) (v : V) → Distinct (keys d) → Distinct (keys (put d k v))
  unfolding put contains
  put-Distinct [] k v h = (refl, tt)
  put-Distinct ((i, w) ∷ d) k v h =
      ground (arith, eq_iff i k, eq_iff k i, contains-keys-put d k i v, put-Distinct d k v h.1)

  pub remove-Distinct : (d : Dict V) (k : String) → Distinct (keys d) → Distinct (keys (remove d k))
  unfolding remove contains
  remove-Distinct [] k h = tt
  remove-Distinct ((i, w) ∷ d) k h =
      ground (arith, contains-keys-remove_absent d k i h.0, remove-Distinct d k h.1)

  -- Writes the same value under each key of a list.
  unfoldable pub put_all : Dict V → List String → V → Dict V
  put_all d [] v = d
  put_all d (k ∷ ks) v = put_all (put d k v) ks v

  pub get-put_all :
      (d : Dict V) (ks : List String) (v : V) (j : String)
      → get (put_all d ks v) j ≡ (if contains ks j then some v else get d j)
  unfolding put_all contains
  get-put_all d [] v j = refl
  get-put_all d (k ∷ ks) v j = ground (arith, get-put d k j v, get-put_all (put d k v) ks v j)

pub ruleset dict_laws = (get-put, get-remove)
