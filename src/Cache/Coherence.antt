-- ===== src/Cache/Coherence.antt =====
-- A host that writes with the tags of what it touched gets the same answers with and without a
-- cache.
use lore_eden.Prelude.{
  ℕ, String, ◌≡◌, ◌≢◌, refl, sym, ◌∙◌, inl, inr, false, some, List, [], ◌∷◌, arith, ◌==◌, eq_iff,
  if◌then◌else◌, Bool-cases,
}
use lore_eden.Prelude.Dict.{get}
use lore_eden.Prelude.Result.{Result, ok, ◌>>=◌}
use lore_eden.Cache.{
  Lookup, miss, hit, CacheError, Cache, DictCache, DerivedRead, intersects, empty, dict_get,
  dict_invalidate_tags, dict_cache, null_cache, read_key, value_of,
}
use lore_eden.Cache.Invalidation.{
  IsWell, is_doomed, dict_invalidate_tags-Invalidated, dict_set-IsWell,
}

-- What a host does to one read: ask for a value, or write, which brings the next world and drops
-- the tags of what the write touched.
pub data Event (W A : Type 0) : Type 0 where
  ask : List A → Event W A
  write : W → List String → Event W A

module _ {W A V : Type 0} (read : DerivedRead W A V) where
  -- The answers of a host that has the given cache.
  unfoldable pub answers :
      (c : Cache V) → W → c.State → List (Event W A) → Result CacheError (List V)
  answers c w s [] = ok []
  answers c w s (ask arguments ∷ events) = value_of c w read s arguments >>= λ (value, s').
      answers c w s' events >>= λ values. ok (value ∷ values)
  answers c w s (write w' touched ∷ events) =
      c.invalidate_tags s touched >>= λ (s', dropped). answers c w' s' events

  -- The answers of a host that computes every time.
  unfoldable pub direct_answers : W → List (Event W A) → List V
  direct_answers w [] = []
  direct_answers w (ask arguments ∷ events) = read.compute w arguments ∷ direct_answers w events
  direct_answers w (write w' touched ∷ events) = direct_answers w' events

  -- A write is honest if it names a tag of every answer that it changes: what shares no tag with it
  -- is computed from the same tags to the same value afterwards.
  abbrev pub IsHonest : W → List (Event W A) → Type 0
  IsHonest w [] = Unit
  IsHonest w (ask arguments ∷ events) = (read.tags w arguments ≢ []) × IsHonest w events
  IsHonest w (write w' touched ∷ events) =
      ((arguments : List A)
        → intersects (read.tags w arguments) touched ≡ false
        → (read.compute w' arguments ≡ read.compute w arguments)
          × (read.tags w' arguments ≡ read.tags w arguments))
      × IsHonest w' events

  -- Arguments that share a cache key ask the same question.
  abbrev pub HasFaithfulKeys : Type 0
  HasFaithfulKeys =
      (w : W) (a b : List A)
      → read_key read a ≡ read_key read b
      → (read.compute w a ≡ read.compute w b) × (read.tags w a ≡ read.tags w b)

  -- Without a cache the answers are the direct ones.
  answers-null :
      (w : W) (events : List (Event W A))
      → answers null_cache w tt events ≡ ok (direct_answers w events)
  unfolding answers direct_answers value_of
  answers-null w [] = refl
  answers-null w (ask arguments ∷ events) = rw (answers-null w events)
  answers-null w (write w' touched ∷ events) = answers-null w' events

  module _ (faithful : HasFaithfulKeys) where
    -- Every entry under a key of the read is what the read computes now, under its tags.
    record IsCoherent (w : W) (c : DictCache V) : Type 0 where
      well : IsWell c
      current :
          (arguments : List A) (v : V)
          → dict_get c (read_key read arguments) ≡ hit v
          → (v ≡ read.compute w arguments)
            × (get c.tags (read_key read arguments) ≡ some (read.tags w arguments))

    ask-IsCoherent :
        (w : W) (c : DictCache V) (arguments : List A)
        → IsCoherent w c
        → read.tags w arguments ≢ []
        → (c' : DictCache V) × (value_of dict_cache w read c arguments
            ≡ ok (read.compute w arguments, c'))
          × IsCoherent w c'
    unfolding value_of
    ask-IsCoherent w c arguments h nonempty = go (dict_get c (read_key read arguments)) refl
      where
        value : V
        value = read.compute w arguments

        stored :
            (c' : DictCache V)
            → IsWell c'
            → ((k : String)
                → dict_get c' k
                  ≡ (if read_key read arguments == k then hit value else dict_get c k))
            → ((k : String)
                → get c'.tags k ≡ (
                    if read_key read arguments == k
                    then some (read.tags w arguments)
                    else get c.tags k))
            → IsCoherent w c'
        stored c' well gets tags = record {
          well = well;
          current = λ other v e.
              elim (Bool-cases (read_key read arguments == read_key read other)) [
                | inl same ↦
                    let (values, tag_lists) = faithful w arguments other ((eq_iff _ _).0 same) in
                    (
                      ground (arith, gets (read_key read other)),
                      ground (arith, tags (read_key read other)),
                    )
                | inr other_key ↦
                    let (now, tagged) =
                      h.current other v (ground (arith, gets (read_key read other))) in
                    (now, ground (arith, tags (read_key read other)))
              ];
        }

        go :
            (l : Lookup V)
            → dict_get c (read_key read arguments) ≡ l
            → (c' : DictCache V) × (value_of dict_cache w read c arguments ≡ ok (value, c'))
              × IsCoherent w c'
        go (hit v) e = (c, rw (e, (h.current arguments v e).0), h)
        go miss e =
            elim (dict_set-IsWell c (read_key read arguments) value (read.tags w arguments)
              h.well) [
                | inl (none_given, _) ↦ absurd (nonempty none_given)
                | inr (c', ran, well, gets, tags) ↦ (c', rw (e, ran), stored c' well gets tags)
              ]

    write-IsCoherent :
        (w w' : W) (c : DictCache V) (touched : List String)
        → IsCoherent w c
        → ((arguments : List A)
            → intersects (read.tags w arguments) touched ≡ false
            → (read.compute w' arguments ≡ read.compute w arguments)
              × (read.tags w' arguments ≡ read.tags w arguments))
        → (r : DictCache V × ℕ) × (dict_invalidate_tags c touched ≡ ok r) × IsCoherent w' r.0
    write-IsCoherent w w' c touched h honest =
        let (r, ran, inv) = dict_invalidate_tags-Invalidated c touched h.well in
        (
          r,
          ran,
          record {
            well = inv.well;
            current = λ arguments v e.
                elim (Bool-cases (is_doomed (get c.tags (read_key read arguments)) touched)) [
                  | inl dropped ↦ absurd (ground (arith, inv.answers (read_key read arguments)))
                  | inr kept ↦
                      let (same, tags) =
                        h.current arguments v
                          (ground (arith, inv.answers (read_key read arguments))) in
                      let (value_kept, tags_kept) = honest arguments (rw tags at kept) in
                      (
                        same ∙ sym value_kept,
                        ground (arith, inv.survivors (read_key read arguments)),
                      )
                ];
          },
        )

    answers-dict :
        (w : W) (c : DictCache V) (events : List (Event W A))
        → IsCoherent w c
        → IsHonest w events
        → answers dict_cache w c events ≡ ok (direct_answers w events)
    unfolding answers direct_answers
    answers-dict w c [] h honest = refl
    answers-dict w c (ask arguments ∷ events) h (nonempty, honest) =
        let (c', ran, h') = ask-IsCoherent w c arguments h nonempty in
        rw (ran, answers-dict w c' events h' honest)
    answers-dict w c (write w' touched ∷ events) h (kept, honest) =
        let (r, ran, h') = write-IsCoherent w w' c touched h kept in
        rw ran (answers-dict w' r.0 events h' honest)

    empty-IsCoherent : (w : W) → IsCoherent w empty
    unfolding dict_get get
    empty-IsCoherent w = record {
      well = record { distinct = tt; same_keys = λ k. refl; tagged = λ k e. cc };
      current = λ arguments v e. cc;
    }

    -- When the arguments that share a cache key ask the same question, every answer has a tag, and
    -- every write names a tag of each answer that it changes, a host that starts with an empty
    -- `DictCache` gets, for any sequence of questions and writes, the answers that it gets with
    -- `NullCache`, which are the ones computed each time, and no call raises.
    pub answers_agree :
        (w : W) (events : List (Event W A))
        → IsHonest w events
        → (answers dict_cache w empty events ≡ answers null_cache w tt events)
          × (answers null_cache w tt events ≡ ok (direct_answers w events))
    answers_agree w events honest = (
      answers-dict w empty events (empty-IsCoherent w) honest ∙ sym (answers-null w events),
      answers-null w events,
    )
