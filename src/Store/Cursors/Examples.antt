-- ===== src/Store/Cursors/Examples.antt =====
-- A cursor in the store, with a pin.
use lore_eden.Prelude.{◌≡◌, refl, some, [], ◌∷◌}
use lore_eden.Prelude.Index.{contains}
use lore_eden.Prelude.Dict.{get}
use lore_eden.Workflow.Models.{done, awaiting}
use lore_eden.Workflow.Dispatch.{WorkflowCursor}
use lore_eden.Store.Cursors.{
  CursorRecord, to_workflow_cursor, to_cursor_record, save_cursor, set_agent_override,
  take_agent_override,
}
use lore_eden.Store.Cursors.Pins.{save_all, take_agent_override-once}
use lore_eden.Store.Cursors.RoundTrip.{save_cursor-round_trip}

abbrev cursor : WorkflowCursor
cursor = record {
  item_id = "a";
  stage_key = "review";
  stage_statuses = ("build", done) ∷ ("review", awaiting) ∷ [];
  blocking_issues = "";
}

save_cursor-round_trip_example :
    (r : CursorRecord) × (get (save_cursor [] (to_cursor_record cursor 1) 2) "a" ≡ some r)
    × (to_workflow_cursor r ≡ cursor)
unfolding contains
save_cursor-round_trip_example = save_cursor-round_trip [] cursor 1 2 (refl, (refl, tt))

-- A copy that was read while the pin was set.
abbrev stale_copy : CursorRecord
stale_copy = record (to_cursor_record cursor 1) { agent_override = "writer" }

take_agent_override-once_example :
    ((take_agent_override (save_all (set_agent_override [] "a" "writer" 1) []) "a").0 ≡ "writer")
    × ((take_agent_override
          (save_all
            (take_agent_override (save_all (set_agent_override [] "a" "writer" 1) []) "a").1
            ((stale_copy, 3) ∷ []))
          "a").0
        ≡ "")
take_agent_override-once_example =
    take_agent_override-once [] "a" "writer" 1 [] ((stale_copy, 3) ∷ [])
