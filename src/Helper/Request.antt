-- ===== src/Helper/Request.antt =====
-- A request as `json.loads` gives it, and the calls on its values.
use keekars_pi_vpn.Base.{
  ℕ, Bool, true, false, ◌&&◌, Option, none, some, [], leb, ◌==◌, not, if◌then◌else◌,
}
use keekars_pi_vpn.Base.Text.{Text, codes, decimal}
use keekars_pi_vpn.Base.Dict.{Dict, lookup}
use keekars_pi_vpn.Ip.{
  AnyInterface, AnyNetwork, ip_interface, ip_interface_of_int, ip_network, ip_network_of_int,
}

-- `negative n` is the integer -(n + 1). Of a float only its type matters.
mutual
  pub data Json : Type 0 where
    null : Json
    bool : Bool → Json
    int : ℕ → Json
    negative : ℕ → Json
    float : Text → Json
    str : Text → Json
    arr : Items → Json
    obj : Fields → Json

  pub data Items : Type 0 where
    nil : Items
    item : Json → Items → Items

  pub data Fields : Type 0 where
    end : Fields
    field : Text → Json → Fields → Fields

abbrev pub Request : Type 0
Request = Dict Json

abbrev pub or_null : Option Json → Json
or_null none = null
or_null (some v) = v

-- `req.get(key)`
unfoldable pub get : Text → Request → Json
get key req = or_null (lookup key req)

-- `isinstance(v, int) and lo <= v <= hi`; a `bool` is an `int`.
unfoldable pub is_int_in : ℕ → ℕ → Json → Bool
is_int_in lo hi (int n) = leb lo n && leb n hi
is_int_in lo hi (bool true) = leb lo 1 && leb 1 hi
is_int_in lo hi (bool false) = leb lo 0
is_int_in lo hi _ = false

-- `f"{v}"` of an integer, a `bool` being printed as its name
unfoldable pub print_int : Json → Text
print_int (int n) = decimal n
print_int (bool true) = codes "True"
print_int (bool false) = codes "False"
print_int _ = []

-- `if v` of an integer or `None`
unfoldable pub is_true_int : Json → Bool
is_true_int (int n) = not (n == 0)
is_true_int (bool b) = b
is_true_int _ = false

-- The printed form of any value but a text or an integer is no address.
unfoldable pub ip_interface_of : Json → Option AnyInterface
ip_interface_of (str t) = ip_interface t
ip_interface_of (int n) = ip_interface_of_int n
ip_interface_of (bool b) = ip_interface_of_int (if b then 1 else 0)
ip_interface_of _ = none

unfoldable pub ip_network_of : Json → Option AnyNetwork
ip_network_of (str t) = ip_network t
ip_network_of (int n) = ip_network_of_int n
ip_network_of (bool b) = ip_network_of_int (if b then 1 else 0)
ip_network_of _ = none
