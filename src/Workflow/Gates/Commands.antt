-- ===== src/Workflow/Gates/Commands.antt =====
-- The loop of `run_gates` over its commands (python/lore_eden/workflow/gates.py).
use lore_eden.Prelude.{
  ℕ, suc, ◌+◌, String, ◌≡◌, refl, ◌∙◌, ap, true, false, List, [], ◌∷◌, arith, ◌⊎◌, inl, inr,
  Bool-cases,
}
use lore_eden.Prelude.Dict.{Dict}
use lore_eden.Prelude.Result.{ok, raised}
use lore_eden.Workflow.Gates.Shell.{Machine, GateRunResult, then_run, run_template}
use lore_eden.Workflow.Gates.Config.{is_blank}
use lore_eden.Workflow.Gates.{blocking, tally, run_commands}
use lore_eden.Workflow.Gates.Spec.{
  Answer, Ran, no_more, blank, passes, Stops, later, behind, fails, throws, stamped,
}

module _ (sh : Machine) (repo_root : String) (context : Dict String) where
  abbrev pub gate_run : String → sh.World → Answer × sh.World
  gate_run = run_template sh repo_root context

  -- Every list of gates either passes or stops, from any tree, and the loop answers accordingly.
  abbrev pub Ends : List String → ℕ → sh.World → Type 0
  Ends ts ran w =
      ((n : ℕ) × (w' : sh.World) × Ran sh repo_root context ts w n w'
        × (run_commands sh repo_root context ts ran w ≡ (ok (tally (ran + n)), w')))
      ⊎ ((a : Answer) × (w' : sh.World) × Stops sh repo_root context ts w a w'
          × (run_commands sh repo_root context ts ran w ≡ (stamped sh repo_root context a, w')))

  run_commands-blank :
      (t : String) (ts : List String) (ran : ℕ) (w : sh.World)
      → is_blank t ≡ true
      → run_commands sh repo_root context (t ∷ ts) ran w
        ≡ run_commands sh repo_root context ts ran w
  unfolding run_commands
  run_commands-blank t ts ran w e = rw (e, run_commands)

  -- What the loop does with the answer of one gate.
  abbrev go_on : List String → ℕ → Answer × sh.World → Answer × sh.World
  go_on ts ran = then_run sh (λ result w'. elim result.is_ok [
    | true ↦ run_commands sh repo_root context ts (ran + 1) w'
    | false ↦ (ok (blocking result), w')
  ])

  run_commands-gate :
      (t : String) (ts : List String) (ran : ℕ) (w : sh.World)
      → is_blank t ≡ false
      → run_commands sh repo_root context (t ∷ ts) ran w ≡ go_on ts ran (gate_run t w)
  unfolding run_commands
  run_commands-gate t ts ran w e = rw (e, run_commands)

  go_on-passed :
      (ts : List String) (ran : ℕ) (r : GateRunResult) (w1 : sh.World)
      → r.is_ok ≡ true
      → go_on ts ran (ok r, w1) ≡ run_commands sh repo_root context ts (ran + 1) w1
  go_on-passed ts ran r w1 good = rw good

  go_on-failed :
      (ts : List String) (ran : ℕ) (r : GateRunResult) (w1 : sh.World)
      → r.is_ok ≡ false
      → go_on ts ran (ok r, w1) ≡ (ok (blocking r), w1)
  go_on-failed ts ran r w1 bad = ground arith

  tally-shift :
      (ran n : ℕ) (w : sh.World)
      → ◌≡◌ {A = Answer × sh.World} (ok (tally (ran + 1 + n)), w) (ok (tally (ran + suc n)), w)
  tally-shift ran n w = ap (λ (m : ℕ). (ok (tally m), w)) (omega arith)

  pub run_commands-Ends : (ts : List String) (ran : ℕ) (w : sh.World) → Ends ts ran w
  unfolding run_commands
  run_commands-Ends [] ran w = inl (0, w, no_more, ground arith)
  run_commands-Ends (t ∷ ts) ran w = elim (Bool-cases (is_blank t)) [
    | inl e ↦ elim (run_commands-Ends ts ran w) [
      | inl (n, w', d, q) ↦ inl (n, w', blank e d, run_commands-blank t ts ran w e ∙ q)
      | inr (a, w', d, q) ↦ inr (a, w', later e d, run_commands-blank t ts ran w e ∙ q)
    ]
    | inr e ↦ gate e (gate_run t w) refl (run_commands-Ends ts (ran + 1))
  ]
    where
      passed_by :
          is_blank t ≡ false
          → (r : GateRunResult) (w1 : sh.World) → gate_run t w ≡ (ok r, w1)
          → r.is_ok ≡ true
          → Ends ts (ran + 1) w1
          → Ends (t ∷ ts) ran w
      passed_by e r w1 q good (inl (n, w', d, q')) = inl (
        suc n,
        w',
        passes e q good d,
        run_commands-gate t ts ran w e
            ∙ ap (go_on ts ran) q
            ∙ go_on-passed ts ran r w1 good
            ∙ q'
            ∙ tally-shift ran n w',
      )
      passed_by e r w1 q good (inr (a, w', d, q')) = inr (
        a,
        w',
        behind e q good d,
        run_commands-gate t ts ran w e ∙ ap (go_on ts ran) q ∙ go_on-passed ts ran r w1 good ∙ q',
      )

      gate :
          is_blank t ≡ false
          → (o : Answer × sh.World) → gate_run t w ≡ o
          → ((w1 : sh.World) → Ends ts (ran + 1) w1)
          → Ends (t ∷ ts) ran w
      gate e (raised x, w1) q ih =
          inr (raised x, w1, throws e q, run_commands-gate t ts ran w e ∙ ap (go_on ts ran) q)
      gate e (ok r, w1) q ih = elim (Bool-cases r.is_ok) [
        | inl good ↦ passed_by e r w1 q good (ih w1)
        | inr bad ↦ inr (
          ok r,
          w1,
          fails e q bad,
          run_commands-gate t ts ran w e ∙ ap (go_on ts ran) q ∙ go_on-failed ts ran r w1 bad,
        )
      ]
