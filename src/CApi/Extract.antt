-- ===== src/CApi/Extract.antt =====
-- efp_extract_embedded_data: on the frames that efp_add_embedded_data makes, and on any frame.
use new_efp.Common.{
  ℕ, ◌+◌, ◌≤◌, ◌<◌, ◌≡◌, ◌≢◌, ◌⊎◌, refl, sym, ap, ◌∙◌, bit_and, false, ◌++◌, Option, none, some,
  ◌==◌, arith, length, take, drop, ltb, Bool-cases, subst, ltb-false_of_le, ltb→lt, ==_iff, inl,
  inr, take-append_length, drop-append_length, drop-drop, length-append,
}
use mathlib.Core.Option.{some-injective}
use new_efp.Common.Memory.{
  Bytes, overwrite, write_at, read_at, write_at-eq, read_at-eq, length-take-drop,
}
use new_efp.Wire.{Result, ok, invalid_parameter, buffer_out_of_bounds}
use new_efp.Wire.Headers.{u8_at, u16_at}
use new_efp.CApi.Embedded.{
  sizeof_embedded, embedded_header, add_embedded_data, Outputs, assign, copy_out, extract_block,
  extract_embedded_data,
}
use new_efp.CApi.EmbeddedSpec.{
  HeaderIsRead, embedded_header-HeaderIsRead, length-embedded_header, add_embedded_data-packet,
  overwrite-front,
}

-- Behind a header of three bytes stand the embedded data and what follows them.
pub behind_header :
    (header content rest : Bytes)
    → length header ≡ 3
    → (drop 3 (header ++ (content ++ rest)) ≡ content ++ rest)
      × (drop (3 + length content) (header ++ (content ++ rest)) ≡ rest)
behind_header header content rest three =
    let front : drop 3 (header ++ (content ++ rest)) ≡ content ++ rest =
      ap (λ n. drop n (header ++ (content ++ rest))) (sym three) ∙ drop-append_length header _ in
    (
      front,
      sym (drop-drop 3 (length content) (header ++ (content ++ rest)))
          ∙ ap (drop (length content)) front
          ∙ drop-append_length content rest,
    )

read_content :
    (header content rest : Bytes)
    → length header ≡ 3
    → read_at (header ++ (content ++ rest)) 3 (length content) ≡ some content
read_content header content rest three =
    read_at-eq _ 3 (length content)
      (omega (arith, three, length-append header (content ++ rest), length-append content rest))
    ∙ ap some (
        ap (take (length content)) (behind_header header content rest three).0
        ∙ take-append_length content rest)

-- The outputs of a call that wants all of them.
abbrev pub all_outputs : Bytes → ℕ → ℕ → ℕ → Outputs
all_outputs out size type offset = record {
  embedded = some out;
  embedded_size = some size;
  type = some type;
  payload_offset = some offset;
}

-- A frame that the one helper makes of embedded data and a payload, from which the other reads them.
abbrev pub ReadsBack : Bytes → Bytes → Bytes → ℕ → ℕ → Outputs → Bytes → Type 0
ReadsBack destination embedded payload type is_last outputs out =
    (frame : Bytes) × (add_embedded_data (some destination) (some embedded) (some payload)
        (length embedded) (length payload) type is_last
      ≡ some (0, some frame))
    × (extract_embedded_data (some frame) outputs
        ≡ some (
          ok,
          all_outputs (embedded ++ drop (length embedded) out) (length embedded) type
              (sizeof_embedded + length embedded),
        ))
    × (drop (sizeof_embedded + length embedded) frame ≡ payload)

-- What the helper has written, the other helper reads: where the destination has the size that
-- efp_embedded_calc_size gives, the type is between 1 and 127, the embedded data are shorter than
-- 65536 bytes and the output has room for them, efp_extract_embedded_data gives the embedded data,
-- their size and their type back, and at the payload offset stands the payload.
pub extract-add_embedded_data :
    (destination embedded payload out : Bytes) (type is_last a b c : ℕ)
    → length destination ≡ sizeof_embedded + length embedded + length payload
    → 0 < type
    → type < 128
    → length embedded < 65_536
    → length embedded ≤ length out
    → ReadsBack destination embedded payload type is_last (all_outputs out a b c) out
unfolding extract_embedded_data extract_block copy_out
extract-add_embedded_data destination embedded payload out type is_last a b c h positive small fits
      room =
    (
      frame,
      add_embedded_data-packet destination embedded payload type is_last h,
      rw (short, read.some_type, read.sized, wide, read_content header embedded payload three)
          (rw (written, read.typed) refl),
      (behind_header header embedded payload three).1,
    )
  where
    header : Bytes
    header = embedded_header type is_last (length embedded)

    three : length header ≡ 3
    three = length-embedded_header type is_last (length embedded)

    frame : Bytes
    frame = header ++ (embedded ++ payload)

    read : HeaderIsRead frame type is_last (length embedded)
    read =
        embedded_header-HeaderIsRead type is_last (length embedded) (embedded ++ payload) positive
          small fits

    long : length frame ≡ 3 + (length embedded + length payload)
    long =
        omega
          (arith, three, length-append header (embedded ++ payload), length-append embedded payload)

    short : ltb (length frame) 3 ≡ false
    short = ground (arith, long)

    wide : ltb (length frame) (3 + length embedded) ≡ false
    wide = ground (arith, long)

    written : write_at out 0 embedded ≡ some (embedded ++ drop (length embedded) out)
    written = write_at-eq out 0 embedded (omega arith) ∙ ap some (overwrite-front out embedded)

-- The output has room for embedded data of `size` bytes, or is a null pointer.
abbrev pub HasRoomFor : ℕ → Option Bytes → Type 0
HasRoomFor size none = Unit {0}
HasRoomFor size (some out) = size ≤ length out

-- A frame whose header, where it has one, names embedded data that end inside it.
abbrev pub IsWhole : Bytes → Type 0
IsWhole frame = (u8_at frame 0 ≡ 0) ⊎ (3 + u16_at frame 1 ≤ length frame)

-- What the call may return and leave in the outputs.
pub data Extracted (out : Outputs) : Option Bytes → Option (Result × Outputs) → Type 0 where
  null : Extracted out none (some (invalid_parameter, out))
  short :
      {frame : Bytes}
      → length frame < 3
      → Extracted out (some frame) (some (invalid_parameter, out))
  outside :
      {frame : Bytes}
      → (u8_at frame 0 ≢ 0)
      → 3 ≤ length frame
      → length frame < 3 + u16_at frame 1
      → Extracted out (some frame) (some (buffer_out_of_bounds, out))
  inside :
      {frame : Bytes} {outs : Outputs}
      → 3 ≤ length frame
      → IsWhole frame
      → ((offset : ℕ) → outs.payload_offset ≡ some offset → offset ≤ length frame)
      → Extracted out (some frame) (some (ok, outs))

-- The size that the header of a frame names.
abbrev pub named_size : Option Bytes → ℕ
named_size none = 0
named_size (some frame) = u16_at frame 1

copy_out-returns :
    (o : Option Bytes) (content : Bytes)
    → HasRoomFor (length content) o
    → (written : Option Bytes) × (copy_out o content ≡ some written)
unfolding copy_out
copy_out-returns none content room = (none, refl)
copy_out-returns (some out) content room =
    (some (overwrite out 0 content), rw (write_at-eq out 0 content (omega arith)) refl)

assigned : (o : Option ℕ) (value offset : ℕ) → assign o value ≡ some offset → value ≡ offset
assigned none value offset e = absurd (cc e)
assigned (some old) value offset e = some-injective _ _ e

-- The size read, the content named by it, and the end of the copy.
extract_block-near :
    (frame : Bytes) (size : ℕ) (out : Outputs)
    → (3 + size ≤ length frame)
    → HasRoomFor size out.embedded
    → (outs : Outputs) × (extract_block frame size out ≡ some (ok, outs))
      × ((offset : ℕ) → outs.payload_offset ≡ some offset → offset ≤ length frame)
unfolding extract_block
extract_block-near frame size out fits room =
    let content : Bytes = take size (drop 3 frame) in
    let (written, e) =
      copy_out-returns out.embedded content
        (subst (λ n. HasRoomFor n out.embedded) (sym (length-take-drop frame 3 size fits)) room) in
    let near : ltb (length frame) (3 + size) ≡ false = ltb-false_of_le _ _ fits in
    (
      record {
        embedded = written;
        embedded_size = assign out.embedded_size size;
        type = assign out.type (bit_and (u8_at frame 0) 0x7F);
        payload_offset = assign out.payload_offset (3 + size);
      },
      rw (near, read_at-eq frame 3 size fits, e) refl,
      λ offset g. omega (arith, assigned out.payload_offset (3 + size) offset g),
    )

extract_block-Extracted :
    (frame : Bytes) (out : Outputs)
    → u8_at frame 0 ≢ 0
    → 3 ≤ length frame
    → HasRoomFor (u16_at frame 1) out.embedded
    → Extracted out (some frame) (extract_block frame (u16_at frame 1) out)
unfolding extract_block
extract_block-Extracted frame out typed long room =
    elim (Bool-cases (ltb (length frame) (3 + u16_at frame 1))) [
      | inl far ↦ rw far (outside typed long (ltb→lt _ _ far))
      | inr near ↦
          let fits : 3 + u16_at frame 1 ≤ length frame = ground (arith, near) in
          let (outs, e, offset) = extract_block-near frame (u16_at frame 1) out fits room in
          subst (Extracted out (some frame)) (sym e) (inside long (inr fits) offset)
    ]

-- For every frame, where the output has room for the size that the header names, the call returns
-- without a copy outside a buffer. An error leaves every output as it was: the frame is null or
-- shorter than a header, or names embedded data that end outside it. Else the embedded data end
-- inside the frame, and a payload offset that is given out lies in it.
pub extract_embedded_data-Extracted :
    (frame : Option Bytes) (out : Outputs)
    → HasRoomFor (named_size frame) out.embedded
    → Extracted out frame (extract_embedded_data frame out)
unfolding extract_embedded_data
extract_embedded_data-Extracted none out room = null
extract_embedded_data-Extracted (some frame) out room = elim (Bool-cases (ltb (length frame) 3)) [
  | inl few ↦ rw few (short (ltb→lt _ _ few))
  | inr many ↦ elim (Bool-cases (u8_at frame 0 == 0)) [
    | inl plain ↦
        rw (many, plain)
          (inside (ground (arith, many)) (inl ((==_iff _ _).0 plain))
            (λ offset e. omega (arith, assigned out.payload_offset 0 offset e)))
    | inr typed ↦
        rw (many, typed)
          (extract_block-Extracted frame out (λ e. ground (arith, typed)) (ground (arith, many))
            room)
  ]
]
