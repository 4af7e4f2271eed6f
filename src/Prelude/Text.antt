-- ===== src/Prelude/Text.antt =====
-- Texts put together: f-strings and `join`.
use Prim.Native.String.{◌++◌}
use lore_eden.Prelude.{String, List}

-- The pieces of an f-string.
unfoldable pub concat : List String → String
concat List.[] = ""
concat (List.◌∷◌ s pieces) = s ++ concat pieces

-- separator.join(parts)
unfoldable pub join : String → List String → String
join separator List.[] = ""
join separator (List.◌∷◌ s List.[]) = s
join separator (List.◌∷◌ s (List.◌∷◌ t parts)) =
    s ++ (separator ++ join separator (List.◌∷◌ t parts))
