-- ===== src/Rtsp/Status.antt =====
-- src/rtsp/message.rs: a response's code and the words beside it.
use relaybay.Base.{ℕ, Bytes}
use relaybay.Text.{codes}

pub record Status : Type 0 where
  pub code : ℕ
  pub words : Bytes

abbrev pub ok : Status
ok = record { code = 200; words = codes "OK" }

abbrev pub bad_request : Status
bad_request = record { code = 400; words = codes "Bad Request" }

abbrev pub not_found : Status
not_found = record { code = 404; words = codes "Not Found" }

abbrev pub method_not_allowed : Status
method_not_allowed = record { code = 405; words = codes "Method Not Allowed" }

abbrev pub session_not_found : Status
session_not_found = record { code = 454; words = codes "Session Not Found" }

abbrev pub method_not_valid : Status
method_not_valid = record { code = 455; words = codes "Method Not Valid In This State" }

abbrev pub unsupported_transport : Status
unsupported_transport = record { code = 461; words = codes "Unsupported Transport" }

abbrev pub internal_error : Status
internal_error = record { code = 500; words = codes "Internal Server Error" }

abbrev pub not_implemented : Status
not_implemented = record { code = 501; words = codes "Not Implemented" }
