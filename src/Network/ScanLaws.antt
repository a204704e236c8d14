-- ===== src/Network/ScanLaws.antt =====
-- The scan of app/network.py: which networks it keeps, and their order.
use keekars_pi_vpn.Base.{
  ℕ, ◌≡◌, ◌≤◌, refl, sym, ◌∙◌, ap, false, Option, none, some, List, [], ◌∷◌, ltb, if◌then◌else◌,
  is_nil, All, find, ok, arith, Bool-cases, Option-cases, inl, inr,
}
use keekars_pi_vpn.Base.Text.{Text, text_eq, text_eq_iff}
use keekars_pi_vpn.Base.Dict.{Dict, lookup, insert, lookup-insert}
use keekars_pi_vpn.Network.Nmcli.{Device, run_nmcli}
use keekars_pi_vpn.Network.TerseLaws.{IsRow, print_rows, parse-print_rows}
use keekars_pi_vpn.Network.Wifi.{
  ScannedWifi, scanned, see_row, is_better, best_by_ssid, insert_by_signal, by_signal, scan_wifi,
  scan_args,
}

abbrev signal_of : Option ScannedWifi → Option ℕ
signal_of none = none
signal_of (some n) = some n.signal

abbrev max_signal : ℕ → Option ℕ → ℕ
max_signal a none = a
max_signal a (some b) = if ltb a b then b else a

-- The strongest signal that the rows report for a name
unfoldable pub strongest : Text → List (List Text) → Option ℕ
strongest s [] = none
strongest s (row ∷ rows) =
    let n = scanned row in
    let rest = strongest s rows in
    if text_eq n.ssid s then some (max_signal n.signal rest) else rest

-- The entry of a name in a list of networks
abbrev pub entry_of : Text → List ScannedWifi → Option ScannedWifi
entry_of s = find (λ n. text_eq n.ssid s)

abbrev pub signal_in : Text → List ScannedWifi → Option ℕ
signal_in s ns = signal_of (entry_of s ns)

abbrev pub IsDescending : List ScannedWifi → Type 0
IsDescending [] = Unit
IsDescending (n ∷ ns) = All (λ m. m.signal ≤ n.signal) ns × IsDescending ns

-- Each key is its entry's name, and stands once.
abbrev IsKeyed : Dict ScannedWifi → Type 0
IsKeyed [] = Unit
IsKeyed ((k, n) ∷ d) = (k ≡ n.ssid) × ((lookup k d ≡ none) × IsKeyed d)

insert-IsKeyed : (n : ScannedWifi) (d : Dict ScannedWifi) → IsKeyed d → IsKeyed (insert n.ssid n d)
unfolding insert lookup
insert-IsKeyed n [] h = (refl, (refl, tt))
insert-IsKeyed n ((j, m) ∷ d) h = elim (Bool-cases (text_eq j n.ssid)) [
  | inl e ↦ rw e ((text_eq_iff j n.ssid).0 e, (h.1.0, h.1.1))
  | inr e ↦ rw e (
    h.0,
    (
      ground (arith, lookup-insert n.ssid j n d, text_eq_iff j n.ssid, text_eq_iff n.ssid j),
      insert-IsKeyed n d h.1.1,
    ),
  )
]

see_row-IsKeyed : (n : ScannedWifi) (d : Dict ScannedWifi) → IsKeyed d → IsKeyed (see_row n d)
unfolding see_row
see_row-IsKeyed n d h = elim (Bool-cases (is_nil n.ssid)) [
  | inl e ↦ rw e h
  | inr e ↦ elim (Bool-cases (is_better n.signal (lookup n.ssid d))) [
    | inl b ↦ rw (e, b) (insert-IsKeyed n d h)
    | inr b ↦ rw (e, b) h
  ]
]

best_by_ssid-IsKeyed :
    (rows : List (List Text)) (d : Dict ScannedWifi) → IsKeyed d → IsKeyed (best_by_ssid rows d)
unfolding best_by_ssid
best_by_ssid-IsKeyed [] d h = h
best_by_ssid-IsKeyed (row ∷ rows) d h =
    best_by_ssid-IsKeyed rows (see_row (scanned row) d) (see_row-IsKeyed (scanned row) d h)

entry_of-insert :
    (s : Text) (n : ScannedWifi) (ms : List ScannedWifi)
    → entry_of n.ssid ms ≡ none
    → entry_of s (insert_by_signal n ms) ≡ (if text_eq n.ssid s then some n else entry_of s ms)
unfolding insert_by_signal find
entry_of-insert s n [] h = refl
entry_of-insert s n (m ∷ ms) h = ground (
  arith,
  entry_of-insert s n ms,
  text_eq_iff n.ssid s,
  text_eq_iff m.ssid s,
  text_eq_iff m.ssid n.ssid,
)

entry_of-by_signal :
    (s : Text) (d : Dict ScannedWifi) → IsKeyed d → entry_of s (by_signal d) ≡ lookup s d
unfolding by_signal lookup find
entry_of-by_signal s [] h = refl
entry_of-by_signal s ((k, n) ∷ d) h =
    let free : entry_of n.ssid (by_signal d) ≡ none =
      entry_of-by_signal n.ssid d h.1.1 ∙ (ap (λ j. lookup j d) (sym h.0) ∙ h.1.0) in
    rw (h.0, entry_of-insert s n (by_signal d) free, entry_of-by_signal s d h.1.1) refl

insert_by_signal_below :
    (b : ℕ) (n : ScannedWifi) (ms : List ScannedWifi)
    → n.signal ≤ b
    → All (λ m. m.signal ≤ b) ms
    → All (λ m. m.signal ≤ b) (insert_by_signal n ms)
unfolding insert_by_signal
insert_by_signal_below b n [] h k = (h, tt)
insert_by_signal_below b n (m ∷ ms) h k = elim (Bool-cases (ltb n.signal m.signal)) [
  | inl e ↦ rw e (k.0, insert_by_signal_below b n ms h k.1)
  | inr e ↦ rw e (h, k)
]

weaken_bound :
    (a b : ℕ) (ms : List ScannedWifi)
    → a ≤ b
    → All (λ m. m.signal ≤ a) ms
    → All (λ m. m.signal ≤ b) ms
weaken_bound a b [] h k = tt
weaken_bound a b (m ∷ ms) h k = (omega (arith, k.0), weaken_bound a b ms h k.1)

insert_by_signal-IsDescending :
    (n : ScannedWifi) (ms : List ScannedWifi)
    → IsDescending ms
    → IsDescending (insert_by_signal n ms)
unfolding insert_by_signal
insert_by_signal-IsDescending n [] h = (tt, tt)
insert_by_signal-IsDescending n (m ∷ ms) h = elim (Bool-cases (ltb n.signal m.signal)) [
  | inl e ↦ rw e (
    insert_by_signal_below m.signal n ms (ground (arith, e)) h.0,
    insert_by_signal-IsDescending n ms h.1,
  )
  | inr e ↦ rw e ((ground (arith, e), weaken_bound m.signal n.signal ms (ground (arith, e)) h.0), h)
]

by_signal-IsDescending : (d : Dict ScannedWifi) → IsDescending (by_signal d)
unfolding by_signal
by_signal-IsDescending [] = tt
by_signal-IsDescending ((k, n) ∷ d) =
    insert_by_signal-IsDescending n (by_signal d) (by_signal-IsDescending d)

abbrev join_signals : Option ℕ → Option ℕ → Option ℕ
join_signals none other = other
join_signals (some a) other = some (max_signal a other)

lookup-see_row :
    (s : Text) (n : ScannedWifi) (d : Dict ScannedWifi)
    → is_nil s ≡ false
    → signal_of (lookup s (see_row n d)) ≡ (
        if text_eq n.ssid s
        then join_signals (signal_of (lookup s d)) (some n.signal)
        else signal_of (lookup s d))
unfolding see_row is_better
lookup-see_row s n d h = elim (Bool-cases (text_eq n.ssid s)) [
  | inl e ↦
      let same : n.ssid ≡ s = (text_eq_iff n.ssid s).0 e in
      let named : is_nil n.ssid ≡ false = ap is_nil same ∙ h in
      let found : lookup n.ssid d ≡ lookup s d = ap (λ k. lookup k d) same in
      rw (e, named, found)
        (elim (Option-cases (lookup s d)) [
          | inl none_there ↦ rw (none_there, lookup-insert n.ssid s n d, e) refl
          | inr (m, there) ↦ elim (Bool-cases (ltb m.signal n.signal)) [
            | inl better ↦ rw (there, better, lookup-insert n.ssid s n d, e) refl
            | inr worse ↦ rw (there, worse, there) refl
          ]
        ])
  | inr e ↦ ground (arith, lookup-insert n.ssid s n d)
]

lookup-best_by_ssid :
    (s : Text) (rows : List (List Text)) (d : Dict ScannedWifi)
    → is_nil s ≡ false
    → signal_of (lookup s (best_by_ssid rows d))
      ≡ join_signals (signal_of (lookup s d)) (strongest s rows)
unfolding best_by_ssid strongest
lookup-best_by_ssid s [] d h = ground arith
lookup-best_by_ssid s (row ∷ rows) d h =
    ground (
      arith,
      lookup-best_by_ssid s rows (see_row (scanned row) d),
      lookup-see_row s (scanned row) d,
    )

module _ {World : Type 0} (device : Device World) where
  -- Where `nmcli` prints the rows of a scan, none of whose fields ends in a backslash or holds a
  -- line break, `scan_wifi` succeeds with a list in which signals do not grow, and under each name
  -- that is not empty it gives the strongest signal that a row has for the name, or no entry if
  -- there is no such row.
  pub scan_wifi-strongest :
      (w w' : World) (rows : List (List Text)) (s : Text)
      → run_nmcli device scan_args w ≡ (ok (print_rows rows), w')
      → All IsRow rows
      → is_nil s ≡ false
      → (found : List ScannedWifi) × ((scan_wifi device w ≡ (ok found, w'))
          × (IsDescending found × (signal_in s found ≡ strongest s rows)))
  unfolding scan_wifi strongest lookup
  scan_wifi-strongest w w' rows s printed readable named =
      let best = best_by_ssid rows [] in
      (
        by_signal best,
        (
          rw (printed, parse-print_rows rows readable) refl,
          (
            by_signal-IsDescending best,
            ap signal_of (entry_of-by_signal s best (best_by_ssid-IsKeyed rows [] tt))
                ∙ lookup-best_by_ssid s rows [] named,
          ),
        ),
      )
