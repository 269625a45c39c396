-- ===== src/CApi/Embedded.antt =====
-- The embedded data helpers of efp_c_api.cpp. A pointer that may be null is an `Option`, a buffer
-- that is read is the bytes that its size names. `none` is a copy outside a buffer.
use new_efp.Common.{
  ℕ, ◌+◌, ◌%◌, ◌^◌, bit_and, bit_or, [], ◌∷◌, Option, none, some, ltb, ◌==◌, if◌then◌else◌, ◌>>=◌,
  length,
}
use new_efp.Common.Memory.{Bytes, write_at, read_at}
use new_efp.Wire.{Result, ok, invalid_parameter, buffer_out_of_bounds}
use new_efp.Wire.Headers.{byte_of, u8_at, u16_at}

abbrev pub embedded_last : ℕ
embedded_last = 0x80

-- The type, its top bit set in the last header, and the low two bytes of the size.
abbrev pub sizeof_embedded : ℕ
sizeof_embedded = 3

-- A sum of `size_t`.
unfoldable pub embedded_calc_size : ℕ → ℕ → ℕ
embedded_calc_size embedded_size payload_size =
    (sizeof_embedded + embedded_size + payload_size) % 2 ^ 64

unfoldable pub embedded_header : ℕ → ℕ → ℕ → Bytes
embedded_header type is_last embedded_size =
    (if is_last == 0 then type else bit_or type embedded_last)
    ∷ byte_of embedded_size 0
    ∷ byte_of embedded_size 1
    ∷ []

-- `if (source != nullptr && size > 0) memcpy(destination + offset, source, size)`.
unfoldable pub copy_part : Option Bytes → ℕ → ℕ → Bytes → Option Bytes
copy_part none size offset destination = some destination
copy_part (some source) size offset destination =
    if size == 0
    then some destination
    else (read_at source 0 size >>= λ part. write_at destination offset part)

-- The number returned, and the destination.
unfoldable pub add_embedded_data :
    Option Bytes → Option Bytes → Option Bytes → ℕ → ℕ → ℕ → ℕ → Option (ℕ × Option Bytes)
add_embedded_data none embedded payload embedded_size payload_size type is_last =
    some (embedded_calc_size embedded_size payload_size, none)
add_embedded_data (some destination) embedded payload embedded_size payload_size type is_last = do
  headed ← write_at destination 0 (embedded_header type is_last embedded_size)
  filled ← copy_part embedded embedded_size sizeof_embedded headed
  whole ← copy_part payload payload_size (sizeof_embedded + embedded_size) filled
  some (0, some whole)

-- What the pointers of the outputs point to; none is a null pointer.
pub record Outputs : Type 0 where
  pub embedded : Option Bytes
  pub embedded_size : Option ℕ
  pub type : Option ℕ
  pub payload_offset : Option ℕ

-- `if (pointer != nullptr) *pointer = value`.
abbrev pub assign : Option ℕ → ℕ → Option ℕ
assign none value = none
assign (some old) value = some value

-- `if (out != nullptr && size > 0) memcpy(out, source, size)`.
unfoldable pub copy_out : Option Bytes → Bytes → Option (Option Bytes)
copy_out none source = some none
copy_out (some out) source = write_at out 0 source >>= λ written. some (some written)

-- The header of a frame that has one, with the size it gives.
unfoldable pub extract_block : Bytes → ℕ → Outputs → Option (Result × Outputs)
extract_block frame size out =
    if ltb (length frame) (sizeof_embedded + size) then some (buffer_out_of_bounds, out) else (do
      content ← read_at frame sizeof_embedded size
      embedded ← copy_out out.embedded content
      some (
        ok,
        record {
          embedded = embedded;
          embedded_size = assign out.embedded_size size;
          type = assign out.type (bit_and (u8_at frame 0) 0x7F);
          payload_offset = assign out.payload_offset (sizeof_embedded + size);
        },
      ))

unfoldable pub extract_embedded_data : Option Bytes → Outputs → Option (Result × Outputs)
extract_embedded_data none out = some (invalid_parameter, out)
extract_embedded_data (some frame) out =
    if ltb (length frame) sizeof_embedded
    then some (invalid_parameter, out)
    else if u8_at frame 0 == 0
    then some (
      ok,
      record out {
        embedded_size = assign out.embedded_size 0;
        payload_offset = assign out.payload_offset 0;
      },
    )
    else extract_block frame (u16_at frame 1) out
