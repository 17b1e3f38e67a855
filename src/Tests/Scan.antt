-- ===== src/Tests/Scan.antt =====
-- A whole scan of usb_scan.py.
use xen_api.Base.{some, List, [], ◌∷◌}
use xen_api.Base.Bytes.{codes}
use xen_api.Base.Utf8.{Text}
use xen_api.Usb.Types.{Interface, Device}
use xen_api.Usb.Scan.{Pusb}

-- A device with one interface, both with properties that read as numbers.
abbrev found_device : Device
found_device = record { node = codes "1-2"; props = λ k. some (codes "1"); interfaces = [] }

abbrev found_interface : Interface
found_interface = record { node = codes "1-2:1.0"; props = λ k. some (codes "03") }

abbrev policy_lines : List Text
policy_lines = codes "ALLOW: class=03" ∷ []

abbrev pusbs : List Pusb
pusbs =
    record {
      path = codes "1-2";
      version = codes "1";
      vendor_id = codes "1";
      product_id = codes "1";
      vendor_desc = codes "1";
      product_desc = codes "1";
      speed = codes "1";
      serial = codes "1";
      description = codes "1_1_1";
    }
    ∷ []
