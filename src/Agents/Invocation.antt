-- ===== src/Agents/Invocation.antt =====
-- python/lore_eden/agents/invocation.py: the command line that starts a CLI coding agent.
pub mod Bridged
use mathlib.Core.List.{reverse}
use lore_eden.Prelude.{
  ℕ, String, Bool, true, false, not, ◌&&◌, ◌||◌, Option, none, some, List, [], ◌∷◌, ◌++◌, ◌==◌,
  if◌then◌else◌,
}
use lore_eden.Prelude.Dict.{Dict}
use lore_eden.Prelude.Result.{Result, ok, raised}
use lore_eden.Prelude.Text.{concat, join}
use lore_eden.Prelude.Codes.{codes, begins_with}

pub data CliAdapter : Type 0 where
  claude cursor codex opencode : CliAdapter

pub data OutputFormat : Type 0 where
  stream_json text json : OutputFormat

abbrev pub format_value : OutputFormat → String
format_value stream_json = "stream-json"
format_value text = "text"
format_value json = "json"

-- output_format is OutputFormat.STREAM_JSON
abbrev pub is_streaming : OutputFormat → Bool
is_streaming stream_json = true
is_streaming _ = false

-- UnsupportedInvocationError, for the adapter that was asked
pub data InvocationError : Type 0 where
  cannot_be_bridged : CliAdapter → InvocationError

-- DEFAULT_BINARIES
abbrev pub default_binary : CliAdapter → String
default_binary claude = "claude"
default_binary cursor = "cursor-agent"
default_binary codex = "codex"
default_binary opencode = "opencode"

pub record CliInvocation : Type 0 where
  pub argv : List String
  pub adapter : CliAdapter
  pub cwd : String
  pub env : Dict String
  pub stdin_prompt : Option String
  pub interactive : Bool
  pub resume_session_id : String
  pub model : String
  pub effort : String

-- Paths are given by their texts.
pub record InvocationRequest : Type 0 where
  pub adapter : CliAdapter
  pub workspace_root : String
  pub prompt : String
  pub prompt_file : Option String
  pub model : String
  pub effort : String
  pub interactive : Bool
  pub output_format : OutputFormat
  pub partial_messages : Bool
  pub resume_session_id : String
  pub permission_mode : String
  pub allowed_tools : List String
  pub disallowed_tools : List String
  pub extra_args : List String
  pub env : Dict String

-- `which` is `shutil.which`.
abbrev pub found_or : Option String → String → String
found_or none name = name
found_or (some path) name = if path == "" then name else path

unfoldable pub resolve_binary : (String → Option String) → CliAdapter → String → String
resolve_binary which adapter override =
    if override == ""
    then found_or (which (default_binary adapter)) (default_binary adapter)
    else override

-- A flag with its value, if the value is not empty.
abbrev pub flag : String → String → List String
flag name value = if value == "" then [] else name ∷ value ∷ []

abbrev pub tools : String → List String → List String
tools name [] = []
tools name (t ∷ ts) = name ∷ join "," (t ∷ ts) ∷ []

-- `_tool_flags`
abbrev pub tool_flags : InvocationRequest → String → String → List String
tool_flags request allow deny =
    tools allow request.allowed_tools ++ tools deny request.disallowed_tools

abbrev pub file_flag : String → Option String → List String
file_flag name none = []
file_flag name (some path) = name ∷ path ∷ []

-- The prompt as the last argument, if there is one.
abbrev pub prompt_argument : String → List String
prompt_argument prompt = if prompt == "" then [] else prompt ∷ []

abbrev pub when : Bool → List String → List String
when asked argv = if asked then argv else []

-- `_claude_argv`
unfoldable pub claude_argv : InvocationRequest → String → List String
claude_argv request binary =
    (if request.interactive
      then binary ∷ "--output-format" ∷ "stream-json" ∷ "--input-format" ∷ "stream-json" ∷ []
      else binary ∷ "-p" ∷ "--output-format" ∷ format_value request.output_format ∷ [])
    ++ (when (is_streaming request.output_format) (
          "--verbose"
          ∷ when (request.partial_messages || not request.interactive)
              ("--include-partial-messages" ∷ []))
        ++ (flag "--permission-mode" request.permission_mode
            ++ (when request.interactive ("--permission-prompt-tool" ∷ "stdio" ∷ [])
                ++ ("--add-dir"
                    ∷ request.workspace_root
                    ∷ (file_flag "--append-system-prompt-file" request.prompt_file
                        ++ (flag "--model" request.model
                            ++ (flag "--effort" request.effort
                                ++ (flag "--resume" request.resume_session_id
                                    ++ (tool_flags request "--allowedTools" "--disallowedTools"
                                        ++ (request.extra_args
                                            ++ when (not request.interactive)
                                                (prompt_argument request.prompt)))))))))))

-- s.endswith(t)
unfoldable pub ends_with : String → String → Bool
unfolding begins_with
ends_with s t = begins_with (reverse (codes t)) (reverse (codes s))

unfoldable pub apply_cursor_effort : String → String → String
apply_cursor_effort model effort =
    if effort == "" || model == ""
    then model
    else (let suffix = concat ("-" ∷ effort ∷ []) in
        if ends_with model suffix then model else concat (model ∷ suffix ∷ []))

-- `_cursor_argv`
unfoldable pub cursor_argv : InvocationRequest → String → Result InvocationError (List String)
cursor_argv request binary =
    if request.interactive
    then raised (cannot_be_bridged cursor)
    else ok (
        binary
        ∷ "agent"
        ∷ "-p"
        ∷ "--output-format"
        ∷ format_value request.output_format
        ∷ (when (is_streaming request.output_format && request.partial_messages)
              ("--stream-partial-output" ∷ [])
            ++ ("--workspace"
                ∷ request.workspace_root
                ∷ (flag "--model" (apply_cursor_effort request.model request.effort)
                    ++ (request.extra_args ++ prompt_argument request.prompt)))))

-- `_codex_argv`
unfoldable pub codex_argv : InvocationRequest → String → Result InvocationError (List String)
codex_argv request binary =
    if request.interactive
    then raised (cannot_be_bridged codex)
    else ok (
        binary
        ∷ "exec"
        ∷ (when (is_streaming request.output_format) ("--json" ∷ [])
            ++ ("--cd"
                ∷ request.workspace_root
                ∷ (flag "--model" request.model
                    ++ (request.extra_args ++ prompt_argument request.prompt)))))

-- `_opencode_argv`
unfoldable pub opencode_argv : InvocationRequest → String → Result InvocationError (List String)
opencode_argv request binary =
    if request.interactive
    then raised (cannot_be_bridged opencode)
    else ok (
        binary
        ∷ "run"
        ∷ (when (is_streaming request.output_format) ("--format" ∷ "json" ∷ [])
            ++ (flag "--model" request.model
                ++ (request.extra_args ++ prompt_argument request.prompt))))

-- _BUILDERS
abbrev pub builder : CliAdapter → InvocationRequest → String → Result InvocationError (List String)
builder claude request binary = ok (claude_argv request binary)
builder cursor request binary = cursor_argv request binary
builder codex request binary = codex_argv request binary
builder opencode request binary = opencode_argv request binary

-- The model that was pinned.
abbrev pub pinned_model : CliAdapter → String → String → String
pinned_model cursor model effort = apply_cursor_effort model effort
pinned_model _ model effort = model

abbrev pub invocation_of :
    InvocationRequest → Result InvocationError (List String) → Result InvocationError CliInvocation
invocation_of request (raised e) = raised e
invocation_of request (ok argv) = ok (record {
  argv = argv;
  adapter = request.adapter;
  cwd = request.workspace_root;
  env = request.env;
  stdin_prompt = none;
  interactive = request.interactive;
  resume_session_id = request.resume_session_id;
  model = pinned_model request.adapter request.model request.effort;
  effort = request.effort;
})

unfoldable pub build_invocation :
    (String → Option String) → InvocationRequest → String → Result InvocationError CliInvocation
unfolding claude_argv cursor_argv codex_argv opencode_argv resolve_binary
build_invocation which request binary =
    invocation_of request
      (builder request.adapter request (resolve_binary which request.adapter binary))
