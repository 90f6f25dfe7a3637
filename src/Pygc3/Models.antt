-- ===== src/Pygc3/Models.antt =====
-- pygc3/src/pygc3/models.py: the typed models, built from what the panel returned. The annotations
-- of a dataclass are not checked by Python, so a field that copies a value from the panel holds any
-- JSON value. `repr` is Python's printed form of a float, a list or a dict.
use homeassistant_2gig_gc.Prelude.{
  text_Eq, Bool, true, false, Option, none, some, Text, codes, ◌==◌, ◌++◌, [], ◌∷◌, ℤ, pos, lower,
  strip, contains, parse_int, is_nonzero, if◌then◌else◌,
}
use homeassistant_2gig_gc.Python.Effects.{
  Result, ok, raised, bind, attribute_error, value_error, type_error, overflow_error,
}
use homeassistant_2gig_gc.Python.Json.{
  Json, null, bool, int, float, str, obj, end, get_field, str_of, truthy, or_value, float_nonzero,
  finite, infinite, nan, truncate,
}

infixl 5 ◌>>=◌
abbrev ◌>>=◌ {ℓ κ} : {A : Type ℓ} {B : Type κ} → Result A → (A → Result B) → Result B
◌>>=◌ = bind

-- `_as_bool`
unfoldable pub as_bool : Json → Bool
as_bool (bool b) = b
as_bool (int n) = is_nonzero n
as_bool (float x) = float_nonzero x
as_bool (str s) =
    contains (codes "true" ∷ codes "1" ∷ codes "yes" ∷ codes "on" ∷ []) (lower (strip s))
as_bool v = truthy v

-- `data.get(key)`: only a dict has the method.
unfoldable pub get_key : Json → Text → Result Json
get_key (obj fs) key = ok (get_field fs key)
get_key v key = raised attribute_error

-- `int(value)`
unfoldable pub int_of : Json → Result ℤ
int_of (bool true) = ok (pos 1)
int_of (bool false) = ok (pos 0)
int_of (int n) = ok n
int_of (float (finite neg m e)) = ok (truncate neg m e)
int_of (float (infinite neg)) = raised overflow_error
int_of (float nan) = raised value_error
int_of (str s) = elim (parse_int s) [ none ↦ raised value_error | some n ↦ ok n ]
int_of v = raised type_error

pub record PanelStatus : Type 0 where
  pub arm_state : Text
  pub is_armed_stay : Bool
  pub raw : Json

-- `PanelStatus.from_json`
unfoldable pub panel_status : (Json → Text) → Json → Result PanelStatus
unfolding get_key as_bool
panel_status repr payload = do
  arm ← get_key payload (codes "armState")
  stay ← get_key payload (codes "isArmedStay")
  ok (record {
    arm_state = lower (str_of repr (or_value arm (str [])));
    is_armed_stay = as_bool stay;
    raw = payload;
  })

pub record ZoneStatus : Type 0 where
  pub is_open : Bool
  pub in_alarm : Bool
  pub battery_low : Bool
  pub tampered : Bool
  pub bypassed : Bool
  pub bypassable : Bool
  pub loss_of_supervision : Bool
  pub not_ready : Bool
  pub crossed : Bool
  pub raw : Json

-- `ZoneStatus.from_json`
unfoldable pub zone_status : Json → Result ZoneStatus
unfolding get_key as_bool
zone_status payload = do
  opened ← get_key payload (codes "open")
  alarm ← get_key payload (codes "inAlarm")
  battery ← get_key payload (codes "batteryLow")
  tamper ← get_key payload (codes "tampered")
  bypass ← get_key payload (codes "bypassed")
  may_bypass ← get_key payload (codes "bypassable")
  lost ← get_key payload (codes "lossOfSupervision")
  unready ← get_key payload (codes "notReady")
  cross ← get_key payload (codes "crossed")
  ok (record {
    is_open = as_bool opened;
    in_alarm = as_bool alarm;
    battery_low = as_bool battery;
    tampered = as_bool tamper;
    bypassed = as_bool bypass;
    bypassable = as_bool may_bypass;
    loss_of_supervision = as_bool lost;
    not_ready = as_bool unready;
    crossed = as_bool cross;
    raw = payload;
  })

pub record Zone : Type 0 where
  pub id : Text
  pub name : Json
  pub serial : Option ℤ
  pub equipment_code : Json
  pub connection_type : Json
  pub partition : Json
  pub zone_physical_type : Json
  pub zone_alarm_type : Json
  pub supervision_enabled : Bool
  pub status : ZoneStatus
  pub raw : Json

-- `int(serial) if serial is not None else None`
abbrev pub serial_of : Json → Result (Option ℤ)
serial_of null = ok none
serial_of v = do n ← int_of v; ok (some n)

-- `Zone.from_json`
unfoldable pub zone : (Json → Text) → Json → Result Zone
unfolding get_key as_bool zone_status
zone repr payload = do
  serial ← get_key payload (codes "deviceSerialNumber")
  ident ← get_key payload (codes "id")
  descriptor ← get_key payload (codes "voiceDescriptor")
  number ← serial_of serial
  equipment ← get_key payload (codes "equipmentCode")
  connection ← get_key payload (codes "connectionType")
  assigned ← get_key payload (codes "partitionAssignment")
  physical ← get_key payload (codes "zonePhysicalType")
  alarm ← get_key payload (codes "zoneAlarmType")
  supervised ← get_key payload (codes "sensorSupervisionEnabled")
  flags ← get_key payload (codes "status")
  state ← zone_status (or_value flags (obj end))
  ok (record {
    id = str_of repr ident;
    name = or_value descriptor (str (codes "Zone " ++ str_of repr ident));
    serial = number;
    equipment_code = equipment;
    connection_type = connection;
    partition = assigned;
    zone_physical_type = physical;
    zone_alarm_type = alarm;
    supervision_enabled = as_bool supervised;
    status = state;
    raw = payload;
  })

-- The text behind a value on which a method of `str` is called.
unfoldable pub as_text : Json → Result Text
as_text (str s) = ok s
as_text v = raised attribute_error

-- `Zone.is_console`
unfoldable pub is_console : Zone → Result Bool
unfolding as_text
is_console z =
    if z.id == codes "0"
    then ok true
    else do name ← as_text z.name; ok (lower (strip name) == codes "console")

pub record Pairing : Type 0 where
  pub pairing_key : Text
  pub device_name : Text
  pub all_partition_access : Bool
  pub is_security_device : Bool
  pub member_of_partition : Text
  pub raw : Json

-- `Pairing.from_json`
unfoldable pub pairing : (Json → Text) → Json → Result Pairing
unfolding get_key as_bool
pairing repr payload = do
  key ← get_key payload (codes "PairingKey")
  device ← get_key payload (codes "deviceName")
  access ← get_key payload (codes "allPartitionAccess")
  security ← get_key payload (codes "isSecurityDevice")
  member ← get_key payload (codes "memberOfPartition")
  ok (record {
    pairing_key = str_of repr (or_value key (str []));
    device_name = str_of repr (or_value device (str []));
    all_partition_access = as_bool access;
    is_security_device = as_bool security;
    member_of_partition = str_of repr (or_value member (str []));
    raw = payload;
  })
