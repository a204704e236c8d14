-- ===== src/Network/TerseLaws.antt =====
-- What `nmcli -t` prints, and its way through `_parse_nmcli_terse`.
use keekars_pi_vpn.Base.{
  ◌≡◌, refl, ap, Bool, true, false, ◌||◌, List, [], ◌∷◌, ◌++◌, ◌==◌, if◌then◌else◌, is_nil, any,
  All, arith, elem,
}
use keekars_pi_vpn.Base.Text.{Text, newline, splitlines, is_line_break}
use keekars_pi_vpn.Network.Terse.{
  split_unescaped, replace_pair, unescape_field, unescape_fields, parse_lines, parse_nmcli_terse,
}

-- How nmcli prints a field: a backslash before each backslash and each colon.
unfoldable pub escape_field : Text → Text
escape_field [] = []
escape_field (c ∷ cs) =
    let rest = escape_field cs in if c == b'\\' || c == b':' then b'\\' ∷ c ∷ rest else c ∷ rest

-- A line of output: the fields with colons between them
unfoldable pub print_row : List Text → Text
unfolding escape_field
print_row [] = []
print_row (f ∷ []) = escape_field f
print_row (f ∷ g ∷ fs) = escape_field f ++ (b':' ∷ print_row (g ∷ fs))

unfoldable pub print_rows : List (List Text) → Text
unfolding print_row
print_rows [] = []
print_rows (r ∷ rs) = print_row r ++ (newline ∷ print_rows rs)

-- The last character of a text is a backslash; of the empty text, `before` says it.
unfoldable pub ends_escaped : Bool → Text → Bool
ends_escaped before [] = before
ends_escaped before (c ∷ cs) = ends_escaped (c == b'\\') cs

double_backslashes : Text → Text
double_backslashes [] = []
double_backslashes (c ∷ cs) =
    let rest = double_backslashes cs in if c == b'\\' then c ∷ c ∷ rest else c ∷ rest

abbrev after_pending : Bool → Text → Text
after_pending p t = if p then b'\\' ∷ t else t

unescape_colons :
    (p : Bool) (f : Text)
    → replace_pair b'\\' b':' b':' p (escape_field f) ≡ after_pending p (double_backslashes f)
unfolding replace_pair escape_field double_backslashes
unescape_colons p [] = refl
unescape_colons p (c ∷ cs) = ground (arith, unescape_colons true cs, unescape_colons false cs)

unescape_backslashes : (f : Text) → replace_pair b'\\' b'\\' b'\\' false (double_backslashes f) ≡ f
unfolding replace_pair double_backslashes
unescape_backslashes [] = refl
unescape_backslashes (c ∷ cs) = ground (arith, unescape_backslashes cs)

pub unescape-escape : (f : Text) → unescape_field (escape_field f) ≡ f
unfolding unescape_field
unescape-escape f = rw (unescape_colons false f) (unescape_backslashes f)

split_unescaped-append :
    (p : Bool) (f rest : Text)
    → ends_escaped p f ≡ false
    → split_unescaped p (escape_field f ++ b':' ∷ rest)
      ≡ escape_field f ∷ split_unescaped false rest
unfolding split_unescaped escape_field ends_escaped
split_unescaped-append p [] rest h = ground arith
split_unescaped-append p (c ∷ cs) rest h =
    ground (arith, split_unescaped-append (c == b'\\') cs rest)

split_unescaped_whole :
    (p : Bool) (f : Text) → split_unescaped p (escape_field f) ≡ escape_field f ∷ []
unfolding split_unescaped escape_field
split_unescaped_whole p [] = refl
split_unescaped_whole p (c ∷ cs) = ground (arith, split_unescaped_whole (c == b'\\') cs)

-- What is said of each field of a row, and of each row
abbrev pub IsField : Text → Type 0
IsField f = (ends_escaped false f ≡ false) × (any is_line_break f ≡ false)

abbrev pub IsRow : List Text → Type 0
IsRow r = (is_nil (print_row r) ≡ false) × All IsField r

parse-print_row :
    (r : List Text)
    → is_nil r ≡ false
    → All IsField r
    → unescape_fields (split_unescaped false (print_row r)) ≡ r
unfolding print_row unescape_fields
parse-print_row [] n h = ground arith
parse-print_row (f ∷ []) n h = rw (split_unescaped_whole false f, unescape-escape f) refl
parse-print_row (f ∷ g ∷ fs) n h =
    rw
      (
        split_unescaped-append false f (print_row (g ∷ fs)) h.0.0,
        unescape-escape f,
        parse-print_row (g ∷ fs) refl h.1,
      )
      refl

any-append :
    {A : Type 0} (p : A → Bool) (xs ys : List A) → any p (xs ++ ys) ≡ (any p xs || any p ys)
unfolding any
any-append p [] ys = refl
any-append p (x ∷ xs) ys = ground (arith, any-append p xs ys)

any_break-escape :
    (f : Text) → any is_line_break f ≡ false → any is_line_break (escape_field f) ≡ false
unfolding any escape_field is_line_break elem
any_break-escape [] h = refl
any_break-escape (c ∷ cs) h = ground (arith, any_break-escape cs)

any_break-print_row : (r : List Text) → All IsField r → any is_line_break (print_row r) ≡ false
unfolding print_row any is_line_break elem
any_break-print_row [] h = refl
any_break-print_row (f ∷ []) h = any_break-escape f h.0.1
any_break-print_row (f ∷ g ∷ fs) h =
    rw
      (
        any-append is_line_break (escape_field f) (b':' ∷ print_row (g ∷ fs)),
        any_break-escape f h.0.1,
        any_break-print_row (g ∷ fs) h.1,
      )
      refl

splitlines-append :
    (l rest : Text)
    → any is_line_break l ≡ false
    → splitlines (l ++ newline ∷ rest) ≡ l ∷ splitlines rest
unfolding splitlines any is_line_break elem
splitlines-append [] rest h = refl
splitlines-append (c ∷ l) rest h = ground (arith, splitlines-append l rest)

not_nil : (r : List Text) → is_nil (print_row r) ≡ false → is_nil r ≡ false
unfolding print_row
not_nil [] h = h
not_nil (f ∷ r) h = refl

parse-print_lines :
    (rows : List (List Text)) → All IsRow rows → parse_lines (splitlines (print_rows rows)) ≡ rows
unfolding print_rows parse_lines splitlines
parse-print_lines [] h = refl
parse-print_lines (r ∷ rows) h =
    rw
      (
        splitlines-append (print_row r) (print_rows rows) (any_break-print_row r h.0.1),
        parse-print_lines rows h.1,
        h.0.0,
      )
      (ap (λ x. x ∷ rows) (parse-print_row r (not_nil r h.0.0) h.0.1))

-- `_parse_nmcli_terse` gives back the rows that `nmcli -t` has printed, with its backslashes
-- before colons and backslashes, if no printed row is empty and no field ends in a backslash or
-- holds a line break.
pub parse-print_rows :
    (rows : List (List Text)) → All IsRow rows → parse_nmcli_terse (print_rows rows) ≡ rows
unfolding parse_nmcli_terse
parse-print_rows rows h = parse-print_lines rows h
