-- ===== src/Status/Chains.antt =====
-- Functions whose steps are chained by `RETURN_IF_ERROR`.
use Prim.Native.String.{◌++◌ as str_append}
use text.Mathlib.Text.{◌==◌ as str_eq}
use p4rt_standalone.Prelude.{
  ◌≡◌, refl, ap, ◌∙◌, true, false, String, List, [], ◌∷◌, ◌++◌, if◌then◌else◌, inl, inr, Bool-cases,
}
use p4rt_standalone.Status.Code.{StatusCode, AbslStatus, StatusApi, is_ok_code}
use p4rt_standalone.Status.Builder.{append_text}
use p4rt_standalone.Status.Macros.{return_if_error}
use p4rt_standalone.Status.Messages.{annotate_status}

-- The joined text of a status that is not OK.
abbrev annotated : String → String → String
annotated message text =
    if str_eq message ""
    then text
    else if str_eq text ""
    then message
    else str_append message (str_append "; " text)

module _ {S : Type 0} where
  -- All steps return OK, one after another.
  pub data Runs : List (S → AbslStatus × S) → S → S → Type 0 where
    done : {s : S} → Runs [] s s
    step :
        {m : S → AbslStatus × S} {ms : List (S → AbslStatus × S)} {s t : S}
        → is_ok_code (m s).0.code ≡ true
        → Runs ms (m s).1 t
        → Runs (m ∷ ms) s t

  module _ ⦃api : StatusApi⦄ (text : String) where
    -- `RETURN_IF_ERROR(step) << text;` for each step, and then `return absl::OkStatus();`.
    unfoldable pub chain : List (S → AbslStatus × S) → S → AbslStatus × S
    chain [] s = (api.status StatusCode.ok "", s)
    chain (m ∷ ms) s = return_if_error (λ status. status) m (append_text text) (chain ms) s

    -- How a chain ends.
    pub data Ends (steps : List (S → AbslStatus × S)) (s : S) (r : AbslStatus × S) : Type 0 where
      completed : Runs steps s r.1 → r.0.code ≡ StatusCode.ok → Ends steps s r
      stopped :
          (before : List (S → AbslStatus × S)) (m : S → AbslStatus × S)
          (after : List (S → AbslStatus × S)) (t : S)
          → steps ≡ before ++ m ∷ after
          → Runs before s t
          → is_ok_code (m t).0.code ≡ false
          → r.1 ≡ (m t).1
          → r.0.code ≡ (m t).0.code
          → r.0.message ≡ annotated (m t).0.message text
          → Ends steps s r

    -- Steps that are chained by RETURN_IF_ERROR(step) << text run in order up to the first that
    -- fails, whose state stays, and whose status is returned with its code, and the text joined to
    -- its message; if none fails, OK is returned.
    pub chain-Ends : (steps : List (S → AbslStatus × S)) (s : S) → Ends steps s (chain steps s)
    unfolding chain return_if_error
    chain-Ends [] s = completed done (api.status_code StatusCode.ok "")
    chain-Ends (m ∷ ms) s = elim (Bool-cases (is_ok_code (m s).0.code)) [
      | inl e ↦ rw (e, chain) (first e (chain-Ends ms (m s).1))
      | inr e ↦
          let (c, t, _) = annotate_status (m s).0 text in
          rw (e, chain) (stopped [] m ms s refl done e refl c (t ∙ rw e refl))
    ]
      where
        first :
            is_ok_code (m s).0.code ≡ true
            → Ends ms (m s).1 (chain ms (m s).1)
            → Ends (m ∷ ms) s (chain ms (m s).1)
        first e (completed r c) = completed (step e r) c
        first e (stopped before n after t same r bad x c d) =
            stopped (m ∷ before) n after t (ap (◌∷◌ m) same) (step e r) bad x c d
