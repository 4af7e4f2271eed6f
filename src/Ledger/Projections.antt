-- ===== src/Ledger/Projections.antt =====
-- A named projection that is replayed through `DictCache` is never older than the last event.
use lore_eden.Prelude.{
  ℕ, String, ◌≡◌, refl, sym, ap, ◌∙◌, inl, inr, Bool, true, false, some, List, [], ◌∷◌, ◌==◌,
  if◌then◌else◌, arith, eq_iff, Bool-cases,
}
use lore_eden.Prelude.Index.{contains}
use lore_eden.Prelude.Dict.{get}
use lore_eden.Prelude.Result.{ok, ◌>>=◌}
use lore_eden.Cache.{Lookup, hit, miss, DictCache, intersects, dict_get, dict_set, dict_cache}
use lore_eden.Cache.Invalidation.{IsWell, is_doomed, Invalidated, dict_set-IsWell}
use lore_eden.Ledger.{Hashing, LedgerEvent, of_stream, AppendRequest}
use lore_eden.Ledger.Audit.{ReplayResult, replay}
use lore_eden.Ledger.Idempotency.{next_event}
use lore_eden.Ledger.Cached.{stream_tag, replay_key, replayed_by, replay_as}

module _ (h : Hashing) {S : Type 0} (cache_as : String) (reducer : S → LedgerEvent h → S)
    (initial : S) (asked : String → String → Bool) where
  -- What `replay` answers from the store as it is.
  abbrev pub now : List (LedgerEvent h) → String → String → ReplayResult h S
  now events i t = replay h reducer initial events i t

  -- No two of the streams that are asked for share a cache key.
  abbrev pub HasOwnKeys : Type 0
  HasOwnKeys =
      (i j t u : String)
      → asked i t ≡ true
      → asked j u ≡ true
      → replay_key cache_as i t ≡ replay_key cache_as j u
      → (i ≡ j) × (t ≡ u)

  -- Every cached replay is the replay of the moment, under the tag of its stream.
  pub record IsCurrent (events : List (LedgerEvent h)) (c : DictCache (ReplayResult h S))
      : Type 0 where
    pub well : IsWell c
    pub current :
        (i t : String) (v : ReplayResult h S)
        → asked i t ≡ true
        → dict_get c (replay_key cache_as i t) ≡ hit v
        → (v ≡ now events i t) × (get c.tags (replay_key cache_as i t) ≡ some (stream_tag i t ∷ []))

  other_stream :
      (r : AppendRequest h) (events : List (LedgerEvent h)) (i t : String)
      → intersects (stream_tag i t ∷ []) (stream_tag r.entity_id r.entity_type ∷ []) ≡ false
      → of_stream h i t (next_event h r events) ≡ false
  unfolding intersects contains
  other_stream r events i t apart = elim (Bool-cases (of_stream h i t (next_event h r events))) [
    | inr other ↦ other
    | inl mine ↦
        let at_id : r.entity_id ≡ i = (eq_iff _ _).0 (ground (arith, mine)) in
        let at_type : r.entity_type ≡ t = (eq_iff _ _).0 (ground (arith, mine)) in
        let tags : (stream_tag r.entity_id r.entity_type == stream_tag i t) ≡ true =
          (eq_iff _ _).1 (λ k. stream_tag (at_id k) (at_type k)) in
        absurd (ground (arith, apart, tags))
  ]

  -- Dropping the stream's tag keeps the cache current for the store with the new event.
  pub recorded-IsCurrent :
      (events events' : List (LedgerEvent h)) (c : DictCache (ReplayResult h S))
      (r : AppendRequest h) (left : DictCache (ReplayResult h S) × ℕ)
      → IsCurrent events c
      → ((i t : String)
          → of_stream h i t (next_event h r events) ≡ false
          → now events' i t ≡ now events i t)
      → Invalidated c (stream_tag r.entity_id r.entity_type ∷ []) left
      → IsCurrent events' left.0
  recorded-IsCurrent events events' c r left cur same inv = record {
    well = inv.well;
    current = λ i t v named e.
        let k = replay_key cache_as i t in
        elim (Bool-cases (is_doomed (get c.tags k) (stream_tag r.entity_id r.entity_type ∷ []))) [
          | inl dropped ↦ absurd (ground (arith, inv.answers k, dropped, e))
          | inr kept ↦
              let (is_now, tags) =
                cur.current i t v named (ground (arith, inv.answers k, kept, e)) in
              (
                is_now ∙ sym (same i t (other_stream r events i t (rw tags at kept))),
                ground (arith, inv.survivors k, kept, tags),
              )
        ];
  }

  module _ (own : HasOwnKeys) where
    store-IsCurrent :
        (events : List (LedgerEvent h)) (c c' : DictCache (ReplayResult h S)) (i t : String)
        → IsCurrent events c
        → asked i t ≡ true
        → IsWell c'
        → ((k : String)
            → dict_get c' k
              ≡ (if replay_key cache_as i t == k then hit (now events i t) else dict_get c k))
        → ((k : String)
            → get c'.tags k
              ≡ (if replay_key cache_as i t == k then some (stream_tag i t ∷ []) else get c.tags k))
        → IsCurrent events c'
    store-IsCurrent events c c' i t cur named well gets tags = record {
      well = well;
      current = λ j u v named' e.
          let place = replay_key cache_as j u in
          elim (Bool-cases (replay_key cache_as i t == place)) [
            | inl same ↦
                let (p, q) = own i j t u named named' ((eq_iff _ _).0 same) in
                let is_now : v ≡ now events i t = ground (arith, gets place, e, same) in
                let tagged : get c'.tags place ≡ some (stream_tag i t ∷ []) =
                  ground (arith, tags place, same) in
                (
                  is_now ∙ (λ k. now events (p k) (q k)),
                  tagged ∙ (λ k. some (stream_tag (p k) (q k) ∷ [])),
                )
            | inr apart ↦
                let (is_now, tagged) =
                  cur.current j u v named' (ground (arith, gets place, e, apart)) in
                (is_now, ground (arith, tags place, tagged, apart))
          ];
    }

    pub ask-IsCurrent :
        (events : List (LedgerEvent h)) (c : DictCache (ReplayResult h S)) (i t : String)
        → IsCurrent events c
        → asked i t ≡ true
        → (c' : DictCache (ReplayResult h S)) × (replay_as h dict_cache cache_as reducer initial
              events c i t
            ≡ ok (now events i t, c'))
          × IsCurrent events c'
    unfolding replay_as
    ask-IsCurrent events c i t cur named = elim (Bool-cases (cache_as == "")) [
      | inl unnamed ↦ (c, rw unnamed refl, cur)
      | inr given ↦ rw given (go (dict_get c (replay_key cache_as i t)) refl)
    ]
      where
        go :
            (l : Lookup (ReplayResult h S))
            → dict_get c (replay_key cache_as i t) ≡ l
            → (c' : DictCache (ReplayResult h S)) × (replayed_by h dict_cache c
                  (dict_get c (replay_key cache_as i t))
                  (dict_set c (replay_key cache_as i t) (now events i t) (stream_tag i t ∷ [])
                    >>= λ s'. ok (now events i t, s'))
                ≡ ok (now events i t, c'))
              × IsCurrent events c'
        go (hit v) e = (c, rw e (ap (λ r. ok (r, c)) (cur.current i t v named e).0), cur)
        go miss e =
            elim (dict_set-IsWell c (replay_key cache_as i t) (now events i t) (stream_tag i t ∷ [])
              cur.well) [
                | inl (untagged, _) ↦ absurd (ground (arith, untagged))
                | inr (c', ran, well, gets, tags) ↦
                    (c', rw (e, ran) refl, store-IsCurrent events c c' i t cur named well gets tags)
              ]
