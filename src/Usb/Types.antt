-- ===== src/Usb/Types.antt =====
-- python3/libexec/usb_scan.py: devices and interfaces, and their properties.
use xen_api.Base.{
  ℕ, Bool, true, false, not, Option, none, some, List, [], ◌∷◌, ◌++◌, ◌&&◌, ◌||◌, ltb, leb, ◌==◌,
  if◌then◌else◌, length,
}
use xen_api.Base.Bytes.{bytes_eq as text_eq, codes}
use xen_api.Base.Utf8.{Text}
use xen_api.Base.Words.{int}
use xen_api.Base.Exec.{Result, ok, err}

-- What stops the program: a missing key, a text that is no number, `log_exit`, and the use of a
-- variable that has no value yet.
pub data Failure : Type 0 where
  key_error value_error exits unbound_local : Failure

infixl 5 ◌>>=◌
abbrev pub ◌>>=◌ : {A B : Type 0} → Result Failure A → (A → Result Failure B) → Result Failure B
ok a >>= f = f a
err e >>= f = err e

pub data DeviceKey : Type 0 where
  desc_vendor desc_product version id_vendor id_product bcd_device serial device_class conf_value :
      DeviceKey
  num_interfaces usb_speed : DeviceKey

pub data InterfaceKey : Type 0 where
  number interface_class sub_class protocol : InterfaceKey

-- The dict of an object is a function from its keys.
pub record Interface : Type 0 where
  pub node : Text
  pub props : InterfaceKey → Option Text

pub record Device : Type 0 where
  pub node : Text
  pub props : DeviceKey → Option Text
  pub interfaces : List Interface

abbrev or_empty : Option Text → Option Text
or_empty none = some []
or_empty (some t) = some t

-- `UsbDevice(node, props1, props2)`
unfoldable pub device_props :
    (DeviceKey → Option Text) → (DeviceKey → Option Text) → DeviceKey → Option Text
device_props props1 props2 desc_vendor = or_empty (props1 desc_vendor)
device_props props1 props2 desc_product = or_empty (props1 desc_product)
device_props props1 props2 serial = or_empty (props2 serial)
device_props props1 props2 k = props2 k

unfoldable pub usb_device : Text → (DeviceKey → Option Text) → (DeviceKey → Option Text) → Device
unfolding device_props
usb_device node props1 props2 = record {
  node = node;
  props = device_props props1 props2;
  interfaces = [];
}

-- `self[p]`
abbrev pub lookup_key : Option Text → Result Failure Text
lookup_key none = err key_error
lookup_key (some t) = ok t

same_number : Option (Bool × ℕ) → Option (Bool × ℕ) → Bool
same_number (some (true, a)) (some (true, b)) = a == b
same_number (some (false, a)) (some (false, b)) = a == b
same_number _ _ = false

-- Two texts are equal as hexadecimal numbers; a text that is none equals nothing.
unfoldable pub hex_equal : Text → Text → Bool
unfolding same_number
hex_equal h1 h2 = same_number (int 16 h1) (int 16 h2)

unfoldable pub validate_int : Text → ℕ → Bool
validate_int s base = elim (int base s) [ none ↦ false | some _ ↦ true ]

unfoldable pub is_class_hub : Option Text → Bool
is_class_hub none = false
is_class_hub (some cls) = hex_equal (codes "09") cls

abbrev pub is_empty : Text → Bool
is_empty [] = true
is_empty _ = false

-- A key that is missing is a KeyError, but only where the test gets to it.
all_valid : Device → List (DeviceKey × ℕ) → Result Failure Bool
all_valid d [] = ok (not (is_empty d.node))
all_valid d ((k, base) ∷ ks) =
    let rest = all_valid d ks in
    lookup_key (d.props k) >>= λ t. if validate_int t base then rest else ok false

unfoldable pub device_is_initialized : Device → Result Failure Bool
unfolding all_valid
device_is_initialized d = all_valid d (
    (id_vendor, 16)
    ∷ (id_product, 16)
    ∷ (bcd_device, 16)
    ∷ (conf_value, 10)
    ∷ (num_interfaces, 10)
    ∷ [])

has_int : Option Text → Bool
has_int none = false
has_int (some t) = validate_int t 16

unfoldable pub interface_is_initialized : Interface → Bool
unfolding has_int
interface_is_initialized i =
    has_int (i.props number)
    && (has_int (i.props interface_class)
        && (has_int (i.props sub_class) && (has_int (i.props protocol) && not (is_empty i.node))))

is_digit : ℕ → Bool
is_digit c = leb b'0' c && leb c b'9'

-- `\d*$`: digits up to the end, or to a line feed at the end
digits_to_end : Text → Bool
digits_to_end [] = true
digits_to_end (c ∷ []) = is_digit c || (c == 10)
digits_to_end (c ∷ d ∷ cs) = is_digit c && digits_to_end (d ∷ cs)

-- `\d+$`
digits_end : Text → Bool
digits_end [] = false
digits_end (c ∷ cs) = is_digit c && digits_to_end cs

-- The text behind a prefix.
strip_prefix : Text → Text → Option Text
strip_prefix [] s = some s
strip_prefix (p ∷ ps) [] = none
strip_prefix (p ∷ ps) (c ∷ cs) = let rest = strip_prefix ps cs in if p == c then rest else none

-- `re.match(r"^{}:{}\.\d+$".format(re.escape(node), re.escape(conf_value)), s)`
unfoldable pub matches_child : Text → Text → Text → Bool
unfolding digits_end digits_to_end is_digit strip_prefix
matches_child node conf s = elim (strip_prefix (node ++ (b':' ∷ (conf ++ b'.' ∷ []))) s) [
  | none ↦ false
  | some rest ↦ digits_end rest
]

unfoldable pub is_child_of : Interface → Device → Result Failure Bool
is_child_of i parent = device_is_initialized parent >>= λ ready.
    if ready
    then (lookup_key (parent.props conf_value) >>= λ conf.
        ok (matches_child parent.node conf i.node))
    else ok false

-- `self.interfaces` without the element equal to `i`: elements are equal if their nodes are.
unfoldable pub discard : Interface → List Interface → List Interface
discard i [] = []
discard i (j ∷ js) = let rest = discard i js in if text_eq i.node j.node then rest else j ∷ rest

unfoldable pub add_interface : Device → Interface → Device
unfolding discard
add_interface d i = record d { interfaces = i ∷ discard i d.interfaces }

unfoldable pub del_interface : Device → Interface → Device
unfolding discard
del_interface d i = record d { interfaces = discard i d.interfaces }

-- `n > 0 and n == len(self.interfaces)`
ready_count : Option (Bool × ℕ) → ℕ → Result Failure Bool
ready_count none len = err value_error
ready_count (some (true, n)) len = ok false
ready_count (some (false, n)) len = ok (ltb 0 n && (n == len))

unfoldable pub is_ready : Device → Result Failure Bool
unfolding ready_count
is_ready d =
    lookup_key (d.props num_interfaces) >>= λ t. ready_count (int 10 t) (length d.interfaces)
