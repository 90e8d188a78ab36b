-- ===== src/FullWorkflow/Keep.antt =====
-- A property of the states that are returned and stored: how the monad and the writes carry it.
use Prim.Native.String.{String}
use text.Mathlib.Text.{◌==◌ as str_eq}
use mathlib.Core.Path.{subst}
use dh_kit.Kit.{
  lookup, save, some-eq, ◌≡◌, inl, inr, Bool-cases, some, Option-cases, List, [], ◌∷◌, Result, ok,
  err, All,
}
use dh_kit.FullWorkflow.Types.{FullWorkflowState}
use dh_kit.FullWorkflow.Store.{
  World, FullWorkflowError, M, ◌>>=◌, persist_parent_session, write_state, read_state,
}
use dh_kit.FullWorkflow.Ops.{save_file, save_all}
use dh_kit.FullWorkflow.Role.{OnOk}

module _ (P : FullWorkflowState → Type 0) where
  abbrev pub AllFiles : World → Type 0
  AllFiles w = All (λ entry. P entry.1) w.files

  abbrev pub Keeps : Result FullWorkflowError FullWorkflowState × World → Type 0
  Keeps (r, w) = OnOk P r × AllFiles w

  pub All-save :
      (key : String) (v : FullWorkflowState) (entries : List (String × FullWorkflowState))
      → P v
      → All (λ entry. P entry.1) entries
      → All (λ entry. P entry.1) (save key v entries)
  All-save key v [] s h = (s, tt)
  All-save key v ((k, w) ∷ entries) s h = elim (Bool-cases (str_eq k key)) [
    | inl same ↦ rw same (s, h.1)
    | inr other ↦ rw other (h.0, All-save key v entries s h.1)
  ]

  pub All-lookup :
      (key : String) (entries : List (String × FullWorkflowState)) {v : FullWorkflowState}
      → All (λ entry. P entry.1) entries
      → lookup key entries ≡ some v
      → P v
  All-lookup key [] h e = cc
  All-lookup key ((k, w) ∷ entries) {v} h e = elim (Bool-cases (str_eq k key)) [
    | inl same ↦ subst P (some-eq (rw same at e)) h.0
    | inr other ↦ All-lookup key entries h.1 (rw other at e)
  ]

  pub bind-Keeps :
      (m : M FullWorkflowState) (f : FullWorkflowState → M FullWorkflowState) (w : World)
      → Keeps (m w)
      → ((s : FullWorkflowState) (v : World) → P s → AllFiles v → Keeps (f s v))
      → Keeps ((m >>= f) w)
  bind-Keeps m f w h k = go (m w) h
    where
      go :
          (r : Result FullWorkflowError FullWorkflowState × World)
          → Keeps r
          → Keeps (elim r.0 [ ok a ↦ f a r.1 | err e ↦ (err e, r.1) ])
      go (ok s, v) (sound, all) = k s v sound all
      go (err e, v) (_, all) = (tt, all)

  pub save_file-Keeps :
      (s : FullWorkflowState) (w : World) → P s → AllFiles w → Keeps (save_file s w)
  unfolding save_file write_state
  save_file-Keeps s w sound all = (sound, All-save s.parent_session_id s w.files sound all)

  pub save_all-Keeps : (s : FullWorkflowState) (w : World) → P s → AllFiles w → Keeps (save_all s w)
  unfolding save_all persist_parent_session write_state
  save_all-Keeps s w sound all = (sound, All-save s.parent_session_id s w.files sound all)

  pub read_state-Keeps : (id : String) (w : World) → AllFiles w → Keeps (read_state id w)
  unfolding read_state
  read_state-Keeps id w all = elim (Option-cases (lookup id w.files)) [
    | inl missing ↦ rw (missing, read_state) (tt, all)
    | inr (s, found) ↦ rw (found, read_state) (All-lookup id w.files all found, all)
  ]
