-- ===== src/Usb/Scan.antt =====
-- python3/libexec/usb_scan.py: from what udev lists to the devices that may be passed through.
pub mod Listed
use xen_api.Base.{false, not, List, [], ◌∷◌, ◌++◌, ◌&&◌, if◌then◌else◌}
use xen_api.Base.Utf8.{Text}
use xen_api.Base.Words.{strip}
use xen_api.Base.Exec.{Result, ok}
use xen_api.Usb.Types.{
  Failure, ◌>>=◌, Interface, Device, lookup_key, is_class_hub, device_is_initialized,
  interface_is_initialized, is_child_of, add_interface, is_ready, desc_vendor, desc_product,
  version, id_vendor, id_product, serial, device_class, usb_speed, interface_class,
}
use xen_api.Usb.Policy.{Rule, parse_policy, check}

-- `get_usb_info`, over the objects made from what udev lists
unfoldable pub get_devices : List Device → Result Failure (List Device)
get_devices [] = ok []
get_devices (d ∷ ds) = device_is_initialized d >>= λ ready. get_devices ds >>= λ rest.
    ok (if ready && not (is_class_hub (d.props device_class)) then d ∷ rest else rest)

unfoldable pub get_interfaces : List Interface → List Interface
get_interfaces [] = []
get_interfaces (i ∷ is) =
    let rest = get_interfaces is in
    if interface_is_initialized i && not (is_class_hub (i.props interface_class))
    then i ∷ rest
    else rest

-- for d in devices: if i.is_child_of(d): d.add_interface(i)
unfoldable pub attach_interface : Interface → List Device → Result Failure (List Device)
attach_interface i [] = ok []
attach_interface i (d ∷ ds) = is_child_of i d >>= λ child.
    attach_interface i ds >>= λ rest. ok ((if child then add_interface d i else d) ∷ rest)

unfoldable pub attach_interfaces : List Interface → List Device → Result Failure (List Device)
attach_interfaces [] ds = ok ds
attach_interfaces (i ∷ is) ds = attach_interface i ds >>= λ ds'. attach_interfaces is ds'

pub record Pusb : Type 0 where
  pub path : Text
  pub version : Text
  pub vendor_id : Text
  pub product_id : Text
  pub vendor_desc : Text
  pub product_desc : Text
  pub speed : Text
  pub serial : Text
  pub description : Text

-- `_` and a text, unless the text is empty
abbrev joined : Text → Text
joined [] = []
joined (c ∷ cs) = b'_' ∷ c ∷ cs

unfoldable pub to_pusb : Device → Result Failure Pusb
to_pusb d = lookup_key (d.props version) >>= λ version. lookup_key (d.props id_vendor) >>= λ vendor.
    lookup_key (d.props id_product) >>= λ product.
    lookup_key (d.props desc_vendor) >>= λ vendor_desc.
    lookup_key (d.props desc_product) >>= λ product_desc.
    lookup_key (d.props usb_speed) >>= λ speed. lookup_key (d.props serial) >>= λ serial.
    ok (record {
      path = d.node;
      version = strip version;
      vendor_id = vendor;
      product_id = product;
      vendor_desc = vendor_desc;
      product_desc = product_desc;
      speed = speed;
      serial = strip serial;
      description = vendor_desc ++ (joined product_desc ++ joined (strip serial));
    })

-- The list comprehension at the end of `make_pusbs_list`.
unfoldable pub list_pusbs : List Rule → List Device → Result Failure (List Pusb)
list_pusbs rules [] = ok []
list_pusbs rules (d ∷ ds) = is_ready d >>= λ ready.
    (if ready then check rules d else ok false) >>= λ listed.
    if listed
    then (to_pusb d >>= λ pusb. list_pusbs rules ds >>= λ rest. ok (pusb ∷ rest))
    else list_pusbs rules ds

unfoldable pub make_pusbs_list :
    List Device → List Interface → List Text → Result Failure (List Pusb)
make_pusbs_list devices interfaces policy_file =
    attach_interfaces interfaces devices >>= λ attached.
    parse_policy policy_file >>= λ rules. list_pusbs rules attached
