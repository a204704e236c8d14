-- ===== src/Network/Wifi.antt =====
-- app/network.py: `list_known_wifi`, `scan_wifi` and `wifi_connect`.
use keekars_pi_vpn.Base.{
  ℕ, Bool, true, false, not, ◌&&◌, ◌||◌, Option, none, some, List, [], ◌∷◌, ◌++◌, ◌==◌, ltb,
  if◌then◌else◌, is_nil, all, Result, ok, err, lift, pure, ◌>>=◌, ◌>>◌,
}
use keekars_pi_vpn.Base.Text.{Text, codes, text_eq, strip, is_digit, value_from}
use keekars_pi_vpn.Base.Dict.{Dict, lookup, insert}
use keekars_pi_vpn.WebApp.{HttpError, unhandled}
use keekars_pi_vpn.Network.Nmcli.{Device, WorldReq, run_nmcli}
use keekars_pi_vpn.Network.Terse.{parse_nmcli_terse}

-- A saved connection, as `list_known_wifi` gives it
pub record KnownWifi : Type 0 where
  pub name : Text
  pub ssid : Text

-- A network that a scan found
pub record ScannedWifi : Type 0 where
  pub ssid : Text
  pub signal : ℕ
  pub security : Text

-- models.py: a valid `WifiConnectRequest`
pub record WifiConnect : Type 0 where
  pub ssid : Text
  pub psk : Option Text
  pub connection_name : Option Text

-- `text.split(":", 1)[-1]`
unfoldable pub behind_colon : Text → Text → Text
behind_colon whole [] = whole
behind_colon whole (c ∷ cs) = let rest = behind_colon whole cs in if c == b':' then cs else rest

unfoldable pub ssid_of : Text → Text → Text
unfolding behind_colon
ssid_of name ssid_output =
    let value = strip ssid_output in
    let ssid = behind_colon value value in if is_nil ssid then name else ssid

-- `conn_type in ("802-11-wireless", "wifi")`
unfoldable pub is_wifi : Text → Bool
is_wifi conn_type = text_eq conn_type (codes "802-11-wireless") || text_eq conn_type (codes "wifi")

-- `for name, conn_type in ...`: any other number of fields raises a ValueError.
abbrev name_and_type : List Text → Result HttpError (Text × Text)
name_and_type (name ∷ conn_type ∷ []) = ok (name, conn_type)
name_and_type _ = err unhandled

module _ {World : Type 0} (device : Device World) where
  unfoldable pub known_wifi : Bool → Text → WorldReq World (List KnownWifi)
  known_wifi false name = pure []
  known_wifi true name = do
    ssid_output ← run_nmcli device (
        codes "-t"
        ∷ codes "-f"
        ∷ codes "802-11-wireless.ssid"
        ∷ codes "connection"
        ∷ codes "show"
        ∷ name
        ∷ [])
    pure (record { name = name; ssid = ssid_of name ssid_output } ∷ [])

  unfoldable pub known_wifis : List (List Text) → WorldReq World (List KnownWifi)
  known_wifis [] = pure []
  known_wifis (row ∷ rows) = do
    (name, conn_type) ← lift (name_and_type row)
    first ← known_wifi (is_wifi conn_type) name
    rest ← known_wifis rows
    pure (first ++ rest)

  unfoldable pub list_known_wifi : WorldReq World (List KnownWifi)
  list_known_wifi = do
    output ←
        run_nmcli device
          (codes "-t" ∷ codes "-f" ∷ codes "NAME,TYPE" ∷ codes "connection" ∷ codes "show" ∷ [])
    known_wifis (parse_nmcli_terse output)

-- `int(signal) if signal.isdigit() else 0`
unfoldable pub signal_int : Text → ℕ
signal_int signal = if all is_digit signal && not (is_nil signal) then value_from 0 signal else 0

-- `(row + ["", "", ""])[:3]`
unfoldable pub scan_fields : List Text → Text × (Text × Text)
scan_fields [] = ([], ([], []))
scan_fields (ssid ∷ []) = (ssid, ([], []))
scan_fields (ssid ∷ signal ∷ []) = (ssid, (signal, []))
scan_fields (ssid ∷ signal ∷ security ∷ _) = (ssid, (signal, security))

-- `existing is None or signal_int > existing["signal"]`
unfoldable pub is_better : ℕ → Option ScannedWifi → Bool
is_better signal none = true
is_better signal (some existing) = ltb existing.signal signal

unfoldable pub scanned : List Text → ScannedWifi
unfolding scan_fields signal_int
scanned row =
    let (ssid, (signal, security)) = scan_fields row in
    record {
      ssid = ssid;
      signal = signal_int signal;
      security = if is_nil security then codes "open" else security;
    }

-- One turn of the loop over the rows
unfoldable pub see_row : ScannedWifi → Dict ScannedWifi → Dict ScannedWifi
unfolding is_better
see_row n best =
    let better = insert n.ssid n best in
    if is_nil n.ssid then best else if is_better n.signal (lookup n.ssid best) then better else best

unfoldable pub best_by_ssid : List (List Text) → Dict ScannedWifi → Dict ScannedWifi
unfolding see_row scanned
best_by_ssid [] best = best
best_by_ssid (row ∷ rows) best = best_by_ssid rows (see_row (scanned row) best)

-- `sorted(..., key=signal, reverse=True)`, which keeps the order of equals.
unfoldable pub insert_by_signal : ScannedWifi → List ScannedWifi → List ScannedWifi
insert_by_signal n [] = n ∷ []
insert_by_signal n (m ∷ ms) =
    let rest = insert_by_signal n ms in if ltb n.signal m.signal then m ∷ rest else n ∷ m ∷ ms

unfoldable pub by_signal : Dict ScannedWifi → List ScannedWifi
unfolding insert_by_signal
by_signal [] = []
by_signal ((ssid, n) ∷ d) = insert_by_signal n (by_signal d)

abbrev text_or : Option Text → Text → Text
text_or none other = other
text_or (some t) other = if is_nil t then other else t

unfoldable pub connect_args : Text → Option Text → Option Text → List Text
connect_args ssid none name = codes "connection" ∷ codes "up" ∷ text_or name ssid ∷ []
connect_args ssid (some psk) name =
    if is_nil psk
    then codes "connection" ∷ codes "up" ∷ text_or name ssid ∷ []
    else codes "device" ∷ codes "wifi" ∷ codes "connect" ∷ ssid ∷ codes "password" ∷ psk ∷ []

abbrev pub scan_args : List Text
scan_args =
    codes "-t"
    ∷ codes "-f"
    ∷ codes "SSID,SIGNAL,SECURITY"
    ∷ codes "device"
    ∷ codes "wifi"
    ∷ codes "list"
    ∷ codes "--rescan"
    ∷ codes "yes"
    ∷ []

module _ {World : Type 0} (device : Device World) where
  unfoldable pub scan_wifi : WorldReq World (List ScannedWifi)
  unfolding by_signal best_by_ssid
  scan_wifi = do
    output ← run_nmcli device scan_args
    pure (by_signal (best_by_ssid (parse_nmcli_terse output) []))

  unfoldable pub wifi_connect : WifiConnect → WorldReq World (Unit {0})
  unfolding connect_args
  wifi_connect payload = do
    run_nmcli device (connect_args payload.ssid payload.psk payload.connection_name)
    pure tt
