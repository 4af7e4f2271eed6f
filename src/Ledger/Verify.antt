-- ===== src/Ledger/Verify.antt =====
-- `verify_chain` passes what `append_to_store` leaves, and names the place of a change.
use lore_eden.Prelude.{
  ℕ, ◌+◌, String, ◌≡◌, ◌≢◌, refl, sym, ap, ◌∙◌, subst, inl, inr, true, false, Option, none, some,
  List, [], ◌∷◌, ◌++◌, arith, ◌⊎◌, eq_refl, leb, Bool-cases, length,
}
use lore_eden.Ledger.{
  Canonical, Hashing, LedgerEvent, stream, of_stream, insert_event, sort_events, events_for,
}
use lore_eden.Ledger.Audit.{expected, first_broken, report, verify_chain, ChainReport}
use lore_eden.Ledger.Chain.{Chain, IsChained, events_for-Chain}

module _ (h : Hashing) where
  open h use {Payload, Digest, digest_eq, digest_eq_iff, genesis, dumps, sha256}

  first_broken-Chain :
      (n : ℕ) (prev : Digest) (es : List (LedgerEvent h))
      → Chain h n prev es
      → first_broken h prev es ≡ none
  unfolding first_broken
  first_broken-Chain n prev [] c = refl
  first_broken-Chain n prev (e ∷ es) c =
      let same : digest_eq (expected h e prev) e.checksum ≡ true =
        (digest_eq_iff _ _).1 (sym c.1) in
      rw same (first_broken-Chain (n + 1) e.checksum es c.2)

  -- On a store whose streams are chains, `verify_chain` reports every stream intact, with all of
  -- its events checked.
  pub verify_chain-intact :
      (events : List (LedgerEvent h)) (entity_id entity_type : String)
      → IsChained h events
      → verify_chain h events entity_id entity_type
        ≡ report h entity_id entity_type (length (stream h entity_id entity_type events)) none
  unfolding verify_chain
  verify_chain-intact events entity_id entity_type c = rw (
    events_for-Chain h events entity_id entity_type c,
    first_broken-Chain 0 genesis (stream h entity_id entity_type events) (c entity_id entity_type),
  )

  -- Events numbered onwards from `n`, whatever their checksums.
  abbrev IsNumbered : ℕ → List (LedgerEvent h) → Type 0
  IsNumbered n [] = Unit
  IsNumbered n (e ∷ es) = (e.sequence_number ≡ n + 1) × IsNumbered (n + 1) es

  insert_event-IsNumbered :
      (e : LedgerEvent h) (es : List (LedgerEvent h))
      → IsNumbered e.sequence_number es
      → insert_event h e es ≡ e ∷ es
  unfolding insert_event
  insert_event-IsNumbered e [] c = refl
  insert_event-IsNumbered e (f ∷ es) c =
      let later : leb e.sequence_number f.sequence_number ≡ true = ground (arith, c.0) in rw later

  sort_events-IsNumbered :
      (n : ℕ) (es : List (LedgerEvent h)) → IsNumbered n es → sort_events h es ≡ es
  unfolding sort_events
  sort_events-IsNumbered n [] c = refl
  sort_events-IsNumbered n (e ∷ es) c =
      rw (sort_events-IsNumbered (n + 1) es c.1) (insert_event-IsNumbered e es (rw c.0 c.1))

  -- An event whose payload and checksum were written over.
  abbrev pub tampered : LedgerEvent h → Payload → Digest → LedgerEvent h
  tampered e p d = record e { payload = p; checksum = d }

  Chain-IsNumbered :
      (n : ℕ) (prev : Digest) (es : List (LedgerEvent h)) → Chain h n prev es → IsNumbered n es
  Chain-IsNumbered n prev [] c = tt
  Chain-IsNumbered n prev (e ∷ es) c = (c.0, Chain-IsNumbered (n + 1) e.checksum es c.2)

  tampered-IsNumbered :
      (n : ℕ) (prev : Digest) (pre : List (LedgerEvent h)) (e : LedgerEvent h)
      (post : List (LedgerEvent h)) (p : Payload) (d : Digest)
      → Chain h n prev (pre ++ e ∷ post)
      → IsNumbered n (pre ++ tampered e p d ∷ post)
  tampered-IsNumbered n prev [] e post p d c = (c.0, Chain-IsNumbered (n + 1) e.checksum post c.2)
  tampered-IsNumbered n prev (f ∷ pre) e post p d c =
      (c.0, tampered-IsNumbered (n + 1) f.checksum pre e post p d c.2)

  stream-append :
      (entity_id entity_type : String) (xs ys : List (LedgerEvent h))
      → stream h entity_id entity_type (xs ++ ys)
        ≡ stream h entity_id entity_type xs ++ stream h entity_id entity_type ys
  stream-append entity_id entity_type [] ys = refl
  stream-append entity_id entity_type (x ∷ xs) ys =
      ground (arith, stream-append entity_id entity_type xs ys)

  -- What `verify_chain` hashes at each place of a stream.
  abbrev pub hashed : Digest → List (LedgerEvent h) → List (Canonical Payload Digest)
  hashed prev [] = []
  hashed prev (e ∷ es) =
      record {
        event_type = e.event_type;
        entity_id = e.entity_id;
        entity_type = e.entity_type;
        sequence_number = e.sequence_number;
        payload = e.payload;
        prev_checksum = prev;
      }
      ∷ hashed e.checksum es

  -- At each place of both streams: JSON writes the two dicts differently unless they are equal, and
  -- the two texts are no collision of SHA-256.
  abbrev pub AreTold : List (Canonical Payload Digest) → List (Canonical Payload Digest) → Type 0
  AreTold [] ys = Unit
  AreTold (x ∷ xs) [] = Unit
  AreTold (x ∷ xs) (y ∷ ys) =
      (dumps x ≡ dumps y → x ≡ y)
      × (sha256 (dumps x) ≡ sha256 (dumps y) → dumps x ≡ dumps y)
      × AreTold xs ys

  -- The chain breaks at the changed event or right behind it.
  abbrev BreaksAt : LedgerEvent h → Option ℕ → Type 0
  BreaksAt e o = (o ≡ some e.sequence_number) ⊎ (o ≡ some (e.sequence_number + 1))

  module _ (e : LedgerEvent h) (p : Payload) (d : Digest) (changed : e.payload ≢ p) where
    next_breaks :
        (n : ℕ) (post : List (LedgerEvent h))
        → e.sequence_number ≡ n + 1
        → Chain h (n + 1) e.checksum post
        → AreTold (hashed e.checksum post) (hashed d post)
        → d ≢ e.checksum
        → post ≢ []
        → first_broken h d post ≡ some (e.sequence_number + 1)
    unfolding first_broken
    next_breaks n [] s c told other nonempty = absurd (nonempty refl)
    next_breaks n (f ∷ post) s c told other nonempty =
        let differs : digest_eq (expected h f d) f.checksum ≡ false =
          elim (Bool-cases (digest_eq (expected h f d) f.checksum)) [
            | inl same ↦
                let agree = told.0 (told.1 (sym ((digest_eq_iff _ _).0 same ∙ c.1))) in
                absurd (other (sym (ap (λ (x : Canonical Payload Digest). x.prev_checksum) agree)))
            | inr off ↦ off
          ] in
        rw differs (ap some (omega (arith, s, c.0)))

    rewritten :
        (n : ℕ) (prev : Digest) (post : List (LedgerEvent h))
        → Chain h n prev (e ∷ post)
        → AreTold (hashed prev (e ∷ post)) (hashed prev (tampered e p d ∷ post))
        → expected h (tampered e p d) prev ≡ d
        → d ≢ e.checksum
    rewritten n prev post c told recomputed same =
        let agree = told.0 (told.1 (sym (recomputed ∙ same ∙ c.1))) in
        changed (ap (λ (x : Canonical Payload Digest). x.payload) agree)

    nonempty_from :
        (post : List (LedgerEvent h)) → d ≢ e.checksum → (d ≡ e.checksum) ⊎ (post ≢ []) → post ≢ []
    nonempty_from post other (inl same) = absurd (other same)
    nonempty_from post other (inr some_left) = some_left

    tampered_breaks :
        (n : ℕ) (prev : Digest) (pre post : List (LedgerEvent h))
        → Chain h n prev (pre ++ e ∷ post)
        → AreTold (hashed prev (pre ++ e ∷ post)) (hashed prev (pre ++ tampered e p d ∷ post))
        → (d ≡ e.checksum) ⊎ (post ≢ [])
        → BreaksAt e (first_broken h prev (pre ++ tampered e p d ∷ post))
    unfolding first_broken
    tampered_breaks n prev [] post c told shown =
        elim (Bool-cases (digest_eq (expected h (tampered e p d) prev) d)) [
          | inr off ↦ rw off (inl refl)
          | inl recomputed ↦
              let other = rewritten n prev post c told ((digest_eq_iff _ _).0 recomputed) in
              rw recomputed
                (inr (next_breaks n post c.0 c.2 told.2 other (nonempty_from post other shown)))
        ]
    tampered_breaks n prev (f ∷ pre) post c told shown =
        let same : digest_eq (expected h f prev) f.checksum ≡ true =
          (digest_eq_iff _ _).1 (sym c.1) in
        rw same (tampered_breaks (n + 1) f.checksum pre post c.2 told.2 shown)

    own-around :
        (f : LedgerEvent h) (before after : List (LedgerEvent h))
        → of_stream h e.entity_id e.entity_type f ≡ true
        → stream h e.entity_id e.entity_type (before ++ f ∷ after)
          ≡ stream h e.entity_id e.entity_type before
            ++ f ∷ stream h e.entity_id e.entity_type after
    own-around f before after mine =
        stream-append e.entity_id e.entity_type before (f ∷ after) ∙ rw mine refl

  -- The report names the event or the one right behind it.
  abbrev pub Names : LedgerEvent h → ChainReport h → Type 0
  Names e r =
      (r.intact ≡ false)
      × ((r.broken_at_sequence ≡ e.sequence_number)
          ⊎ (r.broken_at_sequence ≡ e.sequence_number + 1))

  report-Names :
      (e : LedgerEvent h) (entity_id entity_type : String) (checked : ℕ) (o : Option ℕ)
      → BreaksAt e o
      → Names e (report h entity_id entity_type checked o)
  report-Names e i t checked o (inl found) = rw found (refl, inl refl)
  report-Names e i t checked o (inr found) = rw found (refl, inr refl)

  -- On a store whose streams are chains, let the payload and the checksum of one stored event be
  -- written over, the payload by a different one. Let no place of the event's stream have, before
  -- and after the change, two dicts with one JSON text or two texts with one SHA-256 digest, unless
  -- the dicts are equal. If the old checksum was kept or the event is not the last of its stream,
  -- `verify_chain` reports that stream broken, at the event or right behind it.
  pub verify_chain-Names :
      (before after : List (LedgerEvent h)) (e : LedgerEvent h) (p : Payload) (d : Digest)
      → IsChained h (before ++ e ∷ after)
      → e.payload ≢ p
      → AreTold
          (hashed genesis (stream h e.entity_id e.entity_type (before ++ e ∷ after)))
          (hashed genesis (stream h e.entity_id e.entity_type (before ++ tampered e p d ∷ after)))
      → (d ≡ e.checksum) ⊎ (stream h e.entity_id e.entity_type after ≢ [])
      → Names e (verify_chain h (before ++ tampered e p d ∷ after) e.entity_id e.entity_type)
  unfolding verify_chain events_for
  verify_chain-Names before after e p d c changed told shown =
      let mine : of_stream h e.entity_id e.entity_type e ≡ true =
        ground (arith, eq_refl e.entity_id, eq_refl e.entity_type) in
      let around = own-around e p d changed in
      let whole = around e before after mine in
      let whole' = around (tampered e p d) before after mine in
      let chain = subst (Chain h 0 genesis) whole (c e.entity_id e.entity_type) in
      let told_here =
        subst
          (λ l. AreTold (hashed genesis l) (
            hashed genesis (
              stream h e.entity_id e.entity_type before
              ++ tampered e p d ∷ stream h e.entity_id e.entity_type after)))
          whole
          (subst
            (λ l.
              AreTold (hashed genesis (stream h e.entity_id e.entity_type (before ++ e ∷ after)))
                (hashed genesis l))
            whole' told) in
      let pre = stream h e.entity_id e.entity_type before in
      let post = stream h e.entity_id e.entity_type after in
      report-Names e _ _ _ _ (
        rw (whole', sort_events-IsNumbered 0 _ (tampered-IsNumbered 0 genesis pre e post p d chain))
          (tampered_breaks e p d changed 0 genesis pre post chain told_here shown))
