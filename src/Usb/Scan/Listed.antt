-- ===== src/Usb/Scan/Listed.antt =====
-- What usb_scan.py lists: neither hubs nor devices with an interface of a hub, and nothing that the policy
-- denies.
use xen_api.Base.{◌≡◌, true, false, List}
use xen_api.Base.Bytes.{bytes_eq as text_eq}
use xen_api.Base.Members.{Each, OneOf}
use xen_api.Base.Exec.{ok}
use xen_api.Usb.Types.{Interface, Device, device_class, interface_class, is_class_hub, is_ready}
use xen_api.Usb.Policy.{Rule, check}
use xen_api.Usb.Scan.{Pusb, to_pusb}

-- One of the interfaces of the scan, and not one of a hub
abbrev pub NoHub : List Interface → Interface → Type 0
NoHub is i = OneOf i is × (is_class_hub (i.props interface_class) ≡ false)

-- One of the devices of the scan, by its node and its properties
abbrev pub Scanned : List Device → Device → Type 0
Scanned ds d = (found : Device) × OneOf found ds × (d.node ≡ found.node) × (d.props ≡ found.props)

-- A device of the scan, with interfaces of the scan, that is no hub and has no interface of one
abbrev pub IsPlain : List Device → List Interface → Device → Type 0
IsPlain ds is d =
    Scanned ds d × (is_class_hub (d.props device_class) ≡ false) × Each (NoHub is) d.interfaces

-- An entry that may be listed: of a plain device of the scan that has all its interfaces and that the
-- rules allow.
abbrev pub IsListed : List Device → List Interface → List Rule → Pusb → Type 0
IsListed all scanned rules p =
    (d : Device) × IsPlain all scanned d
    × (is_ready d ≡ ok true)
    × (check rules d ≡ ok true)
    × (to_pusb d ≡ ok p)
