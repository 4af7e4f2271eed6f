-- ===== src/Store/Cursors/RoundTrip.antt =====
-- A cursor comes back from the store as it was saved.
use mathlib.Core.List.{append-nil, append_assoc}
use lore_eden.Prelude.{
  ℕ, String, ◌≡◌, refl, sym, ap, ◌∙◌, true, false, some, List, [], ◌∷◌, ◌++◌, arith, eq_iff,
  eq_refl,
}
use lore_eden.Prelude.Index.{contains, Distinct, contains-snoc}
use lore_eden.Prelude.Dict.{Dict, get, put, keys, get-put_same}
use lore_eden.Workflow.Models.{
  StageStatus, pending, running, blocked, awaiting, done, wont_do, status_value, status_of_value,
}
use lore_eden.Workflow.Dispatch.{WorkflowCursor}
use lore_eden.Store.Cursors.{
  CursorRecord, CursorStore, or_pending, read_statuses, to_workflow_cursor, write_statuses,
  to_cursor_record, save_cursor,
}

status_of_value-status_value : (s : StageStatus) → status_of_value (status_value s) ≡ some s
unfolding status_of_value
status_of_value-status_value pending = refl
status_of_value-status_value running = refl
status_of_value-status_value blocked = refl
status_of_value-status_value awaiting = refl
status_of_value-status_value done = refl
status_of_value-status_value wont_do = refl

-- A new key goes to the end of a dict.
put-absent {ℓ} :
    {V : Type ℓ} (d : Dict V) (k : String) (v : V)
    → contains (keys d) k ≡ false
    → put d k v ≡ d ++ (k, v) ∷ []
unfolding put contains
put-absent [] k v absent = refl
put-absent ((j, w) ∷ d) k v absent = ground (arith, absent, put-absent d k v)

keys-snoc {ℓ} :
    {V : Type ℓ} (d : Dict V) (k : String) (v : V) → keys (d ++ (k, v) ∷ []) ≡ keys d ++ k ∷ []
keys-snoc [] k v = refl
keys-snoc ((j, w) ∷ d) k v = ap (λ ks. j ∷ ks) (keys-snoc d k v)

-- Each key is new after those before it.
abbrev AreNew : List String → List String → Type 0
AreNew ks [] = Unit
AreNew ks (j ∷ js) = (contains ks j ≡ false) × AreNew (ks ++ j ∷ []) js

Distinct-AreNew :
    (ks js : List String)
    → Distinct js
    → ((k : String) → contains js k ≡ true → contains ks k ≡ false)
    → AreNew ks js
unfolding contains
Distinct-AreNew ks [] d apart = tt
Distinct-AreNew ks (j ∷ js) d apart = (
  apart j (rw eq_refl refl),
  Distinct-AreNew (ks ++ j ∷ []) js d.1 λ k there. ground (
    arith,
    contains-snoc ks j k,
    apart k,
    there,
    d.0,
    eq_iff j k,
    ap (contains js) {x = j} {y = k},
  ),
)

-- The statuses as texts.
abbrev texts : Dict StageStatus → Dict String
texts [] = []
texts ((key, status) ∷ d) = (key, status_value status) ∷ texts d

write_statuses-texts :
    (raws : Dict String) (d : Dict StageStatus)
    → AreNew (keys raws) (keys d)
    → write_statuses raws d ≡ raws ++ texts d
unfolding write_statuses
write_statuses-texts raws [] new = sym (append-nil raws)
write_statuses-texts raws ((key, status) ∷ d) new =
    let grown = put-absent raws key (status_value status) new.0 in
    ap (λ r. write_statuses r d) grown
    ∙ write_statuses-texts (raws ++ (key, status_value status) ∷ []) d
        (rw (keys-snoc raws key (status_value status)) new.1)
    ∙ append_assoc raws ((key, status_value status) ∷ []) (texts d)

read_statuses-texts :
    (statuses d : Dict StageStatus)
    → AreNew (keys statuses) (keys d)
    → read_statuses statuses (texts d) ≡ statuses ++ d
unfolding read_statuses
read_statuses-texts statuses [] new = sym (append-nil statuses)
read_statuses-texts statuses ((key, status) ∷ d) new =
    let grown = put-absent statuses key status new.0 in
    ap (λ s. read_statuses (put statuses key (or_pending s)) (texts d))
      (status_of_value-status_value status)
    ∙ ap (λ s. read_statuses s (texts d)) grown
    ∙ read_statuses-texts (statuses ++ (key, status) ∷ []) d
        (rw (keys-snoc statuses key status) new.1)
    ∙ append_assoc statuses ((key, status) ∷ []) d

-- A cursor whose statuses are a dict, saved as a record, comes back from the store under its item
-- as the same cursor, whatever the store held and whenever it was saved.
pub save_cursor-round_trip :
    (store : CursorStore) (c : WorkflowCursor) (converted saved : ℕ)
    → Distinct (keys c.stage_statuses)
    → (r : CursorRecord) × (get (save_cursor store (to_cursor_record c converted) saved) c.item_id
        ≡ some r)
      × (to_workflow_cursor r ≡ c)
unfolding save_cursor to_cursor_record to_workflow_cursor
save_cursor-round_trip store c converted saved d =
    let new = Distinct-AreNew [] (keys c.stage_statuses) d (λ k there. unfold contains in refl) in
    let same : read_statuses [] (write_statuses [] c.stage_statuses) ≡ c.stage_statuses =
      ap (read_statuses []) (write_statuses-texts [] c.stage_statuses new)
      ∙ read_statuses-texts [] c.stage_statuses new in
    (_, get-put_same store c.item_id _, (λ i. record c { stage_statuses = same i }))
