-- ===== src/Dto/TimeEvent.antt =====
-- The message TimeEvent of internal/domain/dto/time_event.pb.go,
-- and its getters, which take a nil pointer.
-- `TS` is the type of google.protobuf.Timestamp.
use kenshu_elaris_project_pa.Base.{Option, none, some}

pub record TimeEvent (TS : Type 0) : Type 0 where
  pub time : Option TS

abbrev pub get_time : {TS : Type 0} → Option (TimeEvent TS) → Option TS
get_time none = none
get_time (some x) = x.time
