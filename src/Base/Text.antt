-- ===== src/Base/Text.antt =====
-- Python's `str`: its operations that the source uses, their laws, and decimal numbers.
mod Defs
mod Laws
mod Decimal
mod Lines
unfoldable pub use Defs.*
pub use Laws.*
unfoldable pub use Decimal.*
unfoldable pub use Lines.*
use keekars_pi_vpn.Base.Lists.{filter, any, all, find, elem}
use keekars_pi_vpn.Base.Text.Defs.{
  text_eq, starts_with, strip_prefix, contains, rstrip_newlines, is_space, lstrip, rstrip, strip,
  split, join, concat, is_digit,
}
use keekars_pi_vpn.Base.Text.Decimal.{decimal, value_from}
use keekars_pi_vpn.Base.Text.Lines.{universal_newlines, splitlines, is_line_break, text_ltb, sorted}

-- Unfolds every operation on texts and lists, for the runs of a program on given texts.
unfoldable pub text_operations : Unit {0}
unfolding text_eq starts_with strip_prefix contains rstrip_newlines is_space lstrip rstrip strip
    split join concat is_digit strip_suffix decimal value_from universal_newlines splitlines
    is_line_break text_ltb sorted filter any all find elem
text_operations = tt
