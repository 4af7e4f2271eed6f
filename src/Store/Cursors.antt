-- ===== src/Store/Cursors.antt =====
-- python/lore_eden/store/cursors.py, and `InMemoryCursorStore` of python/lore_eden/store/memory.py.
pub mod Pins
pub mod RoundTrip
mod Examples
use lore_eden.Prelude.{
  ℕ, String, Option, none, some, List, [], ◌∷◌, ◌==◌, if◌then◌else◌, Bool, ◌||◌, select,
}
use lore_eden.Prelude.Dict.{Dict, get, put}
use lore_eden.Workflow.Models.{StageStatus, pending, status_value, status_of_value}
use lore_eden.Workflow.Dispatch.{WorkflowCursor}

-- The moment is that of the host's clock.
pub record CursorRecord : Type 0 where
  pub item_id : String
  pub stage_key : String
  pub stage_statuses : Dict String
  pub blocking_issues : String
  pub agent_override : String
  pub updated_at : ℕ

abbrev pub or_pending : Option StageStatus → StageStatus
or_pending none = pending
or_pending (some status) = status

-- The loop of `to_workflow_cursor`.
unfoldable pub read_statuses : Dict StageStatus → Dict String → Dict StageStatus
read_statuses statuses [] = statuses
read_statuses statuses ((key, raw) ∷ items) =
    read_statuses (put statuses key (or_pending (status_of_value raw))) items

unfoldable pub to_workflow_cursor : CursorRecord → WorkflowCursor
to_workflow_cursor r = record {
  item_id = r.item_id;
  stage_key = r.stage_key;
  stage_statuses = read_statuses [] r.stage_statuses;
  blocking_issues = r.blocking_issues;
}

-- `{key: status.value for key, status in cursor.stage_statuses.items()}`
unfoldable pub write_statuses : Dict String → Dict StageStatus → Dict String
write_statuses raws [] = raws
write_statuses raws ((key, status) ∷ items) =
    write_statuses (put raws key (status_value status)) items

-- `now` is the clock's reading.
unfoldable pub to_cursor_record : WorkflowCursor → ℕ → CursorRecord
to_cursor_record c now = record {
  item_id = c.item_id;
  stage_key = c.stage_key;
  stage_statuses = write_statuses [] c.stage_statuses;
  blocking_issues = c.blocking_issues;
  agent_override = "";
  updated_at = now;
}

abbrev pub CursorStore : Type 0
CursorStore = Dict CursorRecord

abbrev pub get_cursor : CursorStore → String → Option CursorRecord
get_cursor store item_id = get store item_id

abbrev pub override_in : Option CursorRecord → String
override_in none = ""
override_in (some existing) = existing.agent_override

unfoldable pub save_cursor : CursorStore → CursorRecord → ℕ → CursorStore
save_cursor store r now =
    put store r.item_id
      (record r { agent_override = override_in (get store r.item_id); updated_at = now })

abbrev pub or_new : Option CursorRecord → String → ℕ → CursorRecord
or_new (some current) item_id now = current
or_new none item_id now = record {
  item_id = item_id;
  stage_key = "";
  stage_statuses = [];
  blocking_issues = "";
  agent_override = "";
  updated_at = now;
}

unfoldable pub set_agent_override : CursorStore → String → String → ℕ → CursorStore
set_agent_override store item_id agent_id now =
    put store item_id
      (record (or_new (get store item_id) item_id now) { agent_override = agent_id })

abbrev pub taken_from : CursorStore → String → Option CursorRecord → String × CursorStore
taken_from store item_id none = ("", store)
taken_from store item_id (some current) =
    if current.agent_override == ""
    then ("", store)
    else (current.agent_override, put store item_id (record current { agent_override = "" }))

unfoldable pub take_agent_override : CursorStore → String → String × CursorStore
take_agent_override store item_id = taken_from store item_id (get store item_id)

abbrev pub cursors_of : CursorStore → List CursorRecord
cursors_of [] = []
cursors_of ((item_id, r) ∷ store) = r ∷ cursors_of store

abbrev pub list_cursors : CursorStore → String → List CursorRecord
list_cursors store stage_key =
    select (λ r. stage_key == "" || r.stage_key == stage_key) (cursors_of store)
