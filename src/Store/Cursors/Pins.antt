-- ===== src/Store/Cursors/Pins.antt =====
-- An agent pin is handed out once, whatever is saved in between.
use lore_eden.Prelude.{
  ℕ, String, ◌≡◌, refl, sym, ap, ◌∙◌, inl, inr, Option, none, some, List, [], ◌∷◌, ◌==◌, arith,
  eq_iff, Bool-cases,
}
use lore_eden.Prelude.Dict.{get, get-put, get-put_same}
use lore_eden.Store.Cursors.{
  CursorRecord, CursorStore, override_in, save_cursor, set_agent_override, taken_from,
  take_agent_override,
}

-- The pin that the store holds for an item.
abbrev pin : CursorStore → String → String
pin store item_id = override_in (get store item_id)

pin-save_cursor :
    (store : CursorStore) (r : CursorRecord) (now : ℕ) (k : String)
    → pin (save_cursor store r now) k ≡ pin store k
unfolding save_cursor
pin-save_cursor store r now k =
    let saved = record r { agent_override = override_in (get store r.item_id); updated_at = now } in
    ground (
      arith,
      eq_iff r.item_id k,
      get-put store r.item_id k saved,
      ap (pin store) {x = r.item_id} {y = k},
    )

-- Saves one record after another.
unfoldable pub save_all : CursorStore → List (CursorRecord × ℕ) → CursorStore
save_all store [] = store
save_all store ((r, now) ∷ rs) = save_all (save_cursor store r now) rs

pin-save_all :
    (store : CursorStore) (rs : List (CursorRecord × ℕ)) (k : String)
    → pin (save_all store rs) k ≡ pin store k
unfolding save_all
pin-save_all store [] k = refl
pin-save_all store ((r, now) ∷ rs) k =
    pin-save_all (save_cursor store r now) rs k ∙ pin-save_cursor store r now k

pin-set_agent_override :
    (store : CursorStore) (item_id agent_id : String) (now : ℕ)
    → pin (set_agent_override store item_id agent_id now) item_id ≡ agent_id
unfolding set_agent_override
pin-set_agent_override store item_id agent_id now = ap override_in (get-put_same store item_id _)

-- What `take_agent_override` answers and leaves.
taken_from-pin :
    (store : CursorStore) (item_id : String) (found : Option CursorRecord)
    → get store item_id ≡ found
    → ((taken_from store item_id found).0 ≡ override_in found)
      × (pin (taken_from store item_id found).1 item_id ≡ "")
taken_from-pin store item_id none there = (refl, ap override_in there)
taken_from-pin store item_id (some current) there =
    elim (Bool-cases (current.agent_override == "")) [
      | inl bare ↦
          let none_set : current.agent_override ≡ "" = (eq_iff _ _).0 bare in
          (rw bare (sym none_set), rw bare (ap override_in there ∙ none_set))
      | inr pinned ↦ (rw pinned refl, rw pinned (ap override_in (get-put_same store item_id _)))
    ]

take-pin :
    (store : CursorStore) (item_id : String)
    → ((take_agent_override store item_id).0 ≡ pin store item_id)
      × (pin (take_agent_override store item_id).1 item_id ≡ "")
unfolding take_agent_override
take-pin store item_id = taken_from-pin store item_id (get store item_id) refl

-- After an agent is pinned to an item and any records are saved, whatever pins they carry, the
-- next take answers with that agent; and after any more saves the take after it answers "".
pub take_agent_override-once :
    (store : CursorStore) (item_id agent_id : String) (now : ℕ)
    (saves more : List (CursorRecord × ℕ))
    → ((take_agent_override
          (save_all (set_agent_override store item_id agent_id now) saves)
          item_id).0
        ≡ agent_id)
      × ((take_agent_override
            (save_all
              (take_agent_override
                (save_all (set_agent_override store item_id agent_id now) saves)
                item_id).1
              more)
            item_id).0
          ≡ "")
take_agent_override-once store item_id agent_id now saves more =
    let pinned = save_all (set_agent_override store item_id agent_id now) saves in
    let (first, left) = take-pin pinned item_id in
    (
      first
          ∙ pin-save_all (set_agent_override store item_id agent_id now) saves item_id
          ∙ pin-set_agent_override store item_id agent_id now,
      (take-pin (save_all (take_agent_override pinned item_id).1 more) item_id).0
          ∙ pin-save_all (take_agent_override pinned item_id).1 more item_id
          ∙ left,
    )
