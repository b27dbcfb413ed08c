-- ===== src/Status/Macros.antt =====
-- The macros of gutil/status.h, `ToAbslStatus`, and the builder with a place in the source.
use Prim.Native.String.{◌++◌}
use p4rt_standalone.Prelude.{String, Bool, false, not, if◌then◌else◌}
use p4rt_standalone.Status.Code.{
  StatusCode, AbslStatus, StatusApi, StatusOr, value, failure, is_ok_code,
}
use p4rt_standalone.Status.Builder.{
  StatusBuilder, MessageJoinStyle, from_status, append_text, to_status,
}
use p4rt_standalone.Status.Builders.{internal_error_builder}

-- A status class with the same codes as Abseil's: what `ToAbslStatus` asks of its argument.
pub record StatusLike (T : Type 0) : Type 0 where
  pub code : T → StatusCode
  pub message : T → String

module _ ⦃api : StatusApi⦄ where
  unfoldable pub to_absl_status : {T : Type 0} → StatusLike T → T → AbslStatus
  to_absl_status like status = api.status (like.code status) (like.message status)

  -- `StatusBuilder(file, line, code)`; `line` is the text of the number.
  unfoldable pub from_location : String → String → StatusCode → StatusBuilder
  from_location file line code = record {
    source = "[" ++ (file ++ (":" ++ (line ++ "]: ")));
    status = api.status code "";
    stream = "";
    log_error = false;
    join_style = MessageJoinStyle.annotate;
  }

  -- The `builder_` of a `StatusBuilderHolder`, which is the `_` of `ASSIGN_OR_RETURN`.
  abbrev status_builder_holder : AbslStatus → StatusBuilder
  status_builder_holder status = from_status status

  -- A macro stands in a function that returns an `R`, to which a status converts by `returning`.
  -- The code before it has reached the state `s`; `rest` is the code behind it, and `extra` what is
  -- chained to the macro: `.LogError() << "text"`.
  module _ {S R : Type 0} (returning : AbslStatus → R) where
    -- `RETURN_IF_ERROR(expr)extra; rest`
    unfoldable pub return_if_error :
        (S → AbslStatus × S) → (StatusBuilder → StatusBuilder) → (S → R × S) → S → R × S
    return_if_error expr extra rest s =
        let (status, s') = expr s in
        if not (is_ok_code status.code)
        then (returning (to_status (extra (from_status status))), s')
        else rest s'

    module _ {A : Type 0} where
      -- `ASSIGN_OR_RETURN(dest, expr); rest`
      unfoldable pub assign_or_return : (S → StatusOr A × S) → (A → S → R × S) → S → R × S
      assign_or_return expr rest s =
          let (result, s') = expr s in
          elim result [ failure status ↦ (returning status, s') | value dest ↦ rest dest s' ]

      -- `ASSIGN_OR_RETURN(dest, expr, _extra); rest`
      unfoldable pub assign_or_return_stream :
          (S → StatusOr A × S) → (StatusBuilder → StatusBuilder) → (A → S → R × S) → S → R × S
      assign_or_return_stream expr extra rest s =
          let (result, s') = expr s in
          elim result [
            | failure status ↦ (returning (to_status (extra (status_builder_holder status))), s')
            | value dest ↦ rest dest s'
          ]

    -- `RET_CHECK(cond)extra; rest`, with the text of the condition.
    unfoldable pub ret_check :
        (S → Bool) → String → (StatusBuilder → StatusBuilder) → (S → R × S) → S → R × S
    ret_check cond text extra rest s =
        if not (cond s)
        then (
          returning (
              to_status (
                extra (
                  append_text ") failed"
                    (append_text text (append_text "(" internal_error_builder))))),
          s,
        )
        else rest s
