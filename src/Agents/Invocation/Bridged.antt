-- ===== src/Agents/Invocation/Bridged.antt =====
-- What `build_invocation` and `apply_cursor_effort` promise (python/lore_eden/agents/invocation.py).
use mathlib.Core.List.{reverse, reverse-append}
use lore_eden.Prelude.{ℕ, String, ◌≡◌, refl, ap, true, List, [], ◌∷◌, ◌++◌, arith}
use lore_eden.Prelude.Text.{concat}
use lore_eden.Prelude.Codes.{codes, begins_with}
use Prim.Native.String
use text.Mathlib.TextLemmas.{nil-append, cons-append, append-nil}
use lore_eden.Agents.Invocation.{ends_with, apply_cursor_effort}

codes-append : (s t : String) → codes (String.◌++◌ s t) ≡ codes s ++ codes t
codes-append String.[] t = rw (nil-append t)
codes-append (String.◌∷◌ c s) t = rw (cons-append c s t, codes-append s t)

begins_with-append : (xs ys : List ℕ) → begins_with xs (xs ++ ys) ≡ true
unfolding begins_with
begins_with-append [] ys = refl
begins_with-append (x ∷ xs) ys = ground (arith, begins_with-append xs ys)

ends_with-append : (s t : String) → ends_with (String.◌++◌ s t) t ≡ true
unfolding ends_with
ends_with-append s t =
    rw (codes-append s t, reverse-append (codes s) (codes t))
      (begins_with-append (reverse (codes t)) (reverse (codes s)))

concat_pair : (s t : String) → concat (s ∷ t ∷ []) ≡ String.◌++◌ s t
unfolding concat
concat_pair s t = ap (String.◌++◌ s) (append-nil t)

ends_with-concat : (s t : String) → ends_with (concat (s ∷ t ∷ [])) t ≡ true
ends_with-concat s t = rw (concat_pair s t) (ends_with-append s t)

-- Giving Cursor the effort of a model that carries it already changes nothing: the model that was
-- pinned can be recorded and asked for again.
pub apply_cursor_effort_idem :
    (model effort : String)
    → apply_cursor_effort (apply_cursor_effort model effort) effort
      ≡ apply_cursor_effort model effort
unfolding apply_cursor_effort
apply_cursor_effort_idem model effort =
    ground (arith, ends_with-concat model (concat ("-" ∷ effort ∷ [])))
