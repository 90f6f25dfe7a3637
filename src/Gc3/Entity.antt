-- ===== src/Gc3/Entity.antt =====
-- custom_components/gc3/entity.py: what every entity says of the panel.
use homeassistant_2gig_gc.Prelude.{List, [], ◌∷◌, ◌++◌, Text, codes}
use homeassistant_2gig_gc.Python.Effects.{Result, ok, bind}
use homeassistant_2gig_gc.Python.Json.{Json, str_of}
use homeassistant_2gig_gc.Gc3.Const.{ConfigEntry, get_default, conf_host, conf_port, default_port}
use homeassistant_2gig_gc.Gc3.Setup.{item}

pub record DeviceInfo : Type 0 where
  pub identifiers : List (Text × Text)
  pub manufacturer : Text
  pub model : Text
  pub name : Text
  pub configuration_url : Text

-- `GC3Entity.__init__`: the device information, without which no entity is made.
unfoldable pub device_info : (Json → Text) → ConfigEntry → Result DeviceInfo
device_info repr entry = bind (item entry.stored conf_host) λ host. ok (record {
  identifiers = (codes "gc3", entry.entry_id) ∷ [];
  manufacturer = codes "2GIG";
  model = codes "GC3";
  name = codes "2GIG GC3";
  configuration_url =
      codes "https://"
      ++ str_of repr host
      ++ codes ":"
      ++ str_of repr (get_default entry.stored conf_port default_port);
})
