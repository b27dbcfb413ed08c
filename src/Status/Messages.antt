-- ===== src/Status/Messages.antt =====
-- What a built status holds: its code, and its message by the style of joining.
use Prim.Native.String.{◌++◌}
use text.Mathlib.Text.{◌==◌}
use text.Mathlib.TextLemmas.{nil-append}
use p4rt_standalone.Prelude.{◌≡◌, refl, ap, ◌∙◌, arith, String, false, if◌then◌else◌, []}
use p4rt_standalone.Status.Code.{StatusCode, AbslStatus, StatusApi, is_ok_code}
use p4rt_standalone.Status.Builder.{
  StatusBuilder, join_message, from_code, from_status, append_text, get_status_and_log, to_status,
}

module _ ⦃api : StatusApi⦄ where
  -- The two laws about messages as one.
  message_of :
      (c : StatusCode) (m : String) → (api.status c m).message ≡ (if is_ok_code c then "" else m)
  message_of StatusCode.ok m = api.status_message_ok m
  message_of StatusCode.cancelled m = api.status_message _ m (λ e. cc)
  message_of StatusCode.unknown m = api.status_message _ m (λ e. cc)
  message_of StatusCode.invalid_argument m = api.status_message _ m (λ e. cc)
  message_of c m = api.status_message c m (λ e. cc)

  -- A built status has the code of the builder; its message is the source and the joined texts, or
  -- empty for an OK status.
  pub built_status :
      (b : StatusBuilder)
      → ((to_status b).code ≡ b.status.code)
        × ((to_status b).message ≡ (
            if is_ok_code b.status.code
            then ""
            else b.source ++ join_message b.join_style b.status.message b.stream))
  unfolding get_status_and_log
  built_status b = (api.status_code _ _, message_of _ _)

  -- StatusBuilder(status) << text keeps the code and, of a status that is not OK, joins the two
  -- texts by a semicolon, or is the one that is not empty; it logs nothing.
  pub annotate_status :
      (s : AbslStatus) (text : String)
      → ((to_status (append_text text (from_status s))).code ≡ s.code)
        × ((to_status (append_text text (from_status s))).message ≡ (
            if is_ok_code s.code
            then ""
            else if s.message == ""
            then text
            else if text == ""
            then s.message
            else s.message ++ ("; " ++ text)))
        × ((get_status_and_log (append_text text (from_status s))).0 ≡ [])
  unfolding append_text from_status join_message get_status_and_log
  annotate_status s text = (
    api.status_code _ _,
    message_of _ _
        ∙ ap (λ (m : String). if is_ok_code s.code then "" else m) (simp nil-append (ground arith)),
    refl,
  )

  -- A builder that was made from a code and given two texts.
  pub two_texts :
      (c : StatusCode) (first second : String)
      → is_ok_code c ≡ false
      → ((to_status (append_text second (append_text first (from_code c)))).code ≡ c)
        × ((to_status (append_text second (append_text first (from_code c)))).message
            ≡ first ++ second)
  unfolding append_text from_code join_message get_status_and_log
  two_texts c first second h = (
    api.status_code _ _ ∙ api.status_code c "",
    message_of _ _ ∙ rw (api.status_code c "", h, message_of c "", h) (simp nil-append refl),
  )
