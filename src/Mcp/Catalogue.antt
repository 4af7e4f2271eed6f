-- ===== src/Mcp/Catalogue.antt =====
-- What registering a tool does to what a server offers (python/lore_eden/mcp/tools.py).
use lore_eden.Prelude.{
  String, ◌≡◌, refl, sym, ap, ◌∙◌, true, false, some, List, [], ◌∷◌, ◌++◌, arith, ◌⊎◌, inl, inr,
  Bool-cases, ◌==◌, eq_iff, if◌then◌else◌,
}
use lore_eden.Prelude.Index.{contains, Distinct}
use lore_eden.Prelude.Dict.{Dict, keys, get, put, get-put, put-Distinct}
use lore_eden.Prelude.Result.{ok, raised}
use lore_eden.Mcp.Tools.{
  ToolHost, ToolDefinition, ToolHandler, ToolRegistry, name_taken, is_registered, register, names,
}

keys-put_new :
    {V : Type 0}
    → (d : Dict V) (k : String) (v : V) → contains (keys d) k ≡ false
    → keys (put d k v) ≡ keys d ++ k ∷ []
unfolding put contains
keys-put_new [] k v h = refl
keys-put_new ((i, w) ∷ d) k v h = ground (arith, eq_iff i k, keys-put_new d k v)

module _ (h : ToolHost) where
  -- The definitions and the handlers are those of the same names, each once.
  pub record IsAligned (tools : ToolRegistry h) : Type 0 where
    pub same_names : keys tools.definitions ≡ keys tools.handlers
    pub once_each : Distinct (keys tools.handlers)

  -- One more tool at the end, and the others as they were.
  pub record Adds (tools : ToolRegistry h) (definition : ToolDefinition) (handler : ToolHandler h)
      (tools' : ToolRegistry h) : Type 0 where
    pub still-IsAligned : IsAligned tools'
    pub is_last : names h tools' ≡ names h tools ++ definition.name ∷ []
    pub handlers :
        (name : String)
        → get tools'.handlers name
          ≡ (if definition.name == name then some handler else get tools.handlers name)

  added :
      (tools : ToolRegistry h) (definition : ToolDefinition) (handler : ToolHandler h)
      → IsAligned tools
      → is_registered h tools definition.name ≡ false
      → Adds tools definition handler (record {
        definitions = put tools.definitions definition.name definition;
        handlers = put tools.handlers definition.name handler;
      })
  added tools definition handler k is_new = record {
    still-IsAligned = record {
      same_names =
          keys-put_new tools.definitions definition.name definition
            (ap (λ (l : List String). contains l definition.name) k.same_names ∙ is_new)
          ∙ ap (λ (l : List String). l ++ definition.name ∷ []) k.same_names
          ∙ sym (keys-put_new tools.handlers definition.name handler is_new);
      once_each = put-Distinct tools.handlers definition.name handler k.once_each;
    };
    is_last =
        keys-put_new tools.definitions definition.name definition
          (ap (λ (l : List String). contains l definition.name) k.same_names ∙ is_new);
    handlers = λ name. get-put tools.handlers definition.name name handler;
  }

  -- A name that is taken is refused; any other tool is added at the end of the catalogue, and no
  -- other tool changes.
  pub register-Adds :
      (tools : ToolRegistry h) (definition : ToolDefinition) (handler : ToolHandler h)
      → IsAligned tools
      → ((contains (names h tools) definition.name ≡ true)
          × (register h tools definition handler ≡ raised (name_taken definition.name)))
        ⊎ ((contains (names h tools) definition.name ≡ false)
            × ((tools' : ToolRegistry h) × (register h tools definition handler ≡ ok tools')
                × Adds tools definition handler tools'))
  unfolding register
  register-Adds tools definition handler k =
      elim (Bool-cases (is_registered h tools definition.name)) [
        | inl e ↦ inl (ap (λ (l : List String). contains l definition.name) k.same_names ∙ e, rw e)
        | inr e ↦ inr (
          ap (λ (l : List String). contains l definition.name) k.same_names ∙ e,
          (_, rw e, added tools definition handler k e),
        )
      ]
