-- ===== src/Status/Builder.antt =====
-- `StatusBuilder` of gutil/status.h, with `GetStatusAndLog` of gutil/status.cc.
use p4rt_standalone.Prelude.{String, Bool, true, false, ◌&&◌, not, if◌then◌else◌, List, [], ◌∷◌}
use Prim.Native.String.{◌++◌}
use text.Mathlib.Text.{◌==◌}
use p4rt_standalone.Status.Code.{StatusCode, AbslStatus, StatusApi, is_ok_code}

pub data MessageJoinStyle : Type 0 where
  annotate append prepend : MessageJoinStyle

-- `stream` is the text that `<<` has collected.
pub record StatusBuilder : Type 0 where
  pub source : String
  pub status : AbslStatus
  pub stream : String
  pub log_error : Bool
  pub join_style : MessageJoinStyle

-- `message` of `GetStatusAndLog`, behind the source.
unfoldable pub join_message : MessageJoinStyle → String → String → String
join_message MessageJoinStyle.prepend message stream = stream ++ message
join_message MessageJoinStyle.append message stream = message ++ stream
join_message MessageJoinStyle.annotate message stream =
    if not (message == "") && not (stream == "")
    then message ++ ("; " ++ stream)
    else if message == ""
    then stream
    else message

module _ ⦃api : StatusApi⦄ where
  -- `StatusBuilder(code)`: the base of `CancelledErrorBuilder` and its fifteen sisters.
  unfoldable pub from_code : StatusCode → StatusBuilder
  from_code code = record {
    source = "";
    status = api.status code "";
    stream = "";
    log_error = false;
    join_style = MessageJoinStyle.annotate;
  }

  -- `SetCode`
  unfoldable pub set_code : StatusCode → StatusBuilder → StatusBuilder
  set_code code b = record b { status = api.status code b.status.message }

  -- `GetStatusAndLog`: the lines that it prints, and the status.
  unfoldable pub get_status_and_log : StatusBuilder → List String × AbslStatus
  unfolding join_message
  get_status_and_log b =
      let message = b.source ++ join_message b.join_style b.status.message b.stream in
      (
        if b.log_error && not (is_ok_code b.status.code) then message ∷ [] else [],
        api.status b.status.code message,
      )

  -- The conversion to `absl::Status`.
  abbrev pub to_status : StatusBuilder → AbslStatus
  to_status b = (get_status_and_log b).1

-- `StatusBuilder(status)`
unfoldable pub from_status : AbslStatus → StatusBuilder
from_status s = record {
  source = "";
  status = s;
  stream = "";
  log_error = false;
  join_style = MessageJoinStyle.annotate;
}

-- The copy constructor.
unfoldable pub copy_builder : StatusBuilder → StatusBuilder
copy_builder other = record {
  source = other.source;
  status = other.status;
  stream = other.stream;
  log_error = other.log_error;
  join_style = other.join_style;
}

-- `operator<<`
unfoldable pub append_text : String → StatusBuilder → StatusBuilder
append_text text b = record b { stream = b.stream ++ text }

unfoldable pub log_error : StatusBuilder → StatusBuilder
log_error b = record b { log_error = true }

unfoldable pub set_prepend : StatusBuilder → StatusBuilder
set_prepend b = record b { join_style = MessageJoinStyle.prepend }

unfoldable pub set_append : StatusBuilder → StatusBuilder
set_append b = record b { join_style = MessageJoinStyle.append }
