-- ===== src/Errors.antt =====
-- utils/errors/errors.go: the typed errors of the program.
use auto_repair.Common.{String, ◌<>◌}

pub data AutorepairErrorType : Type 0 where
  cloud_provider_error api_call_error internal_error transient_error : AutorepairErrorType

-- `autorepairErrorImpl`
pub record AutorepairError : Type 0 where
  pub error_type : AutorepairErrorType
  pub msg : String

-- A Go error: an `AutorepairError`, or any other by its text.
pub data GoError : Type 0 where
  typed : AutorepairError → GoError
  plain : String → GoError

-- `NewAutorepairError`, with the message that fmt.Sprintf has made.
unfoldable pub new_autorepair_error : AutorepairErrorType → String → AutorepairError
new_autorepair_error t msg = record { error_type = t; msg = msg }

unfoldable pub to_autoscaler_error : AutorepairErrorType → GoError → AutorepairError
unfolding new_autorepair_error
to_autoscaler_error t (typed e) = e
to_autoscaler_error t (plain msg) = new_autorepair_error t msg

-- `AddPrefix`: the receiver is a value, so the error that it is called on stays as it was.
unfoldable pub add_prefix : String → AutorepairError → AutorepairError
add_prefix msg e = record e { msg = msg <> e.msg }
