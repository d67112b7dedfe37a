-- ===== src/Model/StringArray.antt =====
-- model/string_array.go: how a list of labels is kept in a column. A `StringArray` is a slice, nil or
-- not; its bytes are JSON.
use mattermost_mattermod.Base.{String, Option, none, some, List, ◌≡◌, ap}
use mattermost_mattermod.Base.Json.{marshal, unmarshal}
use mattermost_mattermod.Base.Json.RoundTrip.{unmarshal-marshal}

abbrev pub StringArray : Type 0
StringArray = Option (List String)

-- What the driver gives for a column: nothing, bytes, or a value of another type.
pub data DriverValue : Type 0 where
  nil other : DriverValue
  bytes : String → DriverValue

-- What Scan leaves: an array, or its error. An array that json.Unmarshal has filled in part before
-- its error is left out.
pub data Scanned : Type 0 where
  scanned : StringArray → Scanned
  not_bytes not_json : Scanned

-- StringArray.Value
unfoldable pub value : StringArray → DriverValue
unfolding marshal
value sa = DriverValue.bytes (marshal sa)

unmarshalled : Option StringArray → Scanned
unmarshalled none = Scanned.not_json
unmarshalled (some sa) = Scanned.scanned sa

-- StringArray.Scan, of an array that has its fields' value already.
unfoldable pub scan : StringArray → DriverValue → Scanned
unfolding unmarshal unmarshalled
scan sa DriverValue.nil = Scanned.scanned sa
scan sa DriverValue.other = Scanned.not_bytes
scan sa (DriverValue.bytes buf) = unmarshalled (unmarshal sa buf)

-- Scan of what Value gives is the array again, nil or not and whatever characters its texts have,
-- and whatever array it is read into.
pub scan-value : (old sa : StringArray) → scan old (value sa) ≡ Scanned.scanned sa
unfolding scan value unmarshalled
scan-value old sa = ap unmarshalled (unmarshal-marshal old sa)
