-- ===== src/Orders/Kind.antt =====
-- src/routes/orders/mod.rs: the type of an order, read off its source text. A text is the list of
-- its code points.
use st0x_rest_api.Prelude.{
  Bool, false, ◌&&◌, ◌||◌, not, Option, none, some, List, [], ◌∷◌, ◌++◌, if◌then◌else◌, is_empty,
}
use mathlib.Core.Option
use st0x_rest_api.Bytes.{ByteString, bytes, bytes_eq}
use st0x_rest_api.Text.{trim, starts_with, contains, lines_from, join_lines, after_first}
use st0x_rest_api.Sdk.{RaindexOrder}

pub data OrderSummaryOrderType : Type 0 where
  dca dynamic_spread limit custom : OrderSummaryOrderType

-- The text after the marker's comment, if there is any.
abbrev after_marker : ByteString → List ByteString
after_marker trimmed = elim (after_first (bytes "*/") trimmed) [
  | none ↦ []
  | some after ↦ if is_empty (trim after) then [] else trim after ∷ []
]

abbrev is_section_header : ByteString → Bool
is_section_header trimmed =
    starts_with (bytes "/*") trimmed
    || starts_with (bytes "#") trimmed
    || starts_with (bytes "//") trimmed

-- The loop's body once the section has begun, and before.
unfoldable pub inside : List ByteString → List ByteString
inside [] = []
inside (line ∷ rest) =
    let trimmed = trim line in
    let section = line ∷ inside rest in
    if is_section_header trimmed && not (contains (bytes "handle-io") trimmed) then [] else section

unfoldable pub outside : List ByteString → Option (List ByteString)
outside [] = none
outside (line ∷ rest) =
    let trimmed = trim line in
    let later = outside rest in
    if contains (bytes "handle-io") trimmed
    then some (after_marker trimmed ++ inside rest)
    else later

unfoldable pub handle_io_section : ByteString → Option ByteString
handle_io_section source = Option.map join_lines (outside (lines_from [] source))

abbrev is_empty_handle_io_section : ByteString → Bool
is_empty_handle_io_section section =
    bytes_eq (trim section) (bytes ":") || bytes_eq (trim section) (bytes ":;")

abbrev has_dca_markers : ByteString → Bool
has_dca_markers section =
    contains (bytes "min-amount:") section
    || contains (bytes "linear-growth") section
    || contains (bytes "amount-epochs") section
    || contains (bytes "halflife") section

abbrev is_some_and : (ByteString → Bool) → Option ByteString → Bool
is_some_and p none = false
is_some_and p (some s) = p s

unfoldable pub classify_source : ByteString → OrderSummaryOrderType
classify_source source =
    let handle_io = handle_io_section source in
    if contains (bytes "other-vwaio") source
    then dynamic_spread
    else if is_some_and has_dca_markers handle_io
    then dca
    else if is_some_and is_empty_handle_io_section handle_io
    then limit
    else custom

-- `order.rainlang().or_else(|| order.dotrain_source())`
abbrev source_of : RaindexOrder → Option ByteString
source_of order = elim order.rainlang [ none ↦ order.dotrain_source | some s ↦ some s ]

unfoldable pub classify_order_type : RaindexOrder → OrderSummaryOrderType
classify_order_type order = elim (source_of order) [
  | none ↦ custom
  | some source ↦ classify_source source
]
