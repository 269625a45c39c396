-- ===== src/CApi/EmbeddedSpec.antt =====
-- The bytes of a payload behind embedded data, and what efp_add_embedded_data and
-- efp_extract_embedded_data have to do with them.
use new_efp.Common.{
  ℕ, zero, suc, ◌+◌, ◌≤◌, ◌<◌, ◌≡◌, refl, sym, ap, ◌∙◌, bit_and, bit_or, true, false, [], ◌∷◌, ◌++◌,
  some, ◌==◌, arith, length, drop, Bool-cases, inl, inr, ==_iff, take-append_length,
  drop-append_length, drop-drop, take_all, take-append-drop, length-append, length-drop,
}
use new_efp.Common.Memory.{Bytes, overwrite, read_at, write_at-eq, read_at-eq, length-overwrite}
use new_efp.Common.Bits.{holds_from, holds_from-at}
use new_efp.Wire.Headers.{u8_at, u16_at}
use new_efp.CApi.Embedded.{sizeof_embedded, embedded_header, copy_part, add_embedded_data}
use native.Mathlib.Nat.{add-zero}
use mathlib.Core.List.{append_assoc, append-nil}

pub length-embedded_header :
    (type is_last size : ℕ) → length (embedded_header type is_last size) ≡ 3
unfolding embedded_header
length-embedded_header type is_last size = refl

overwrite-nil : (destination : Bytes) (offset : ℕ) → overwrite destination offset [] ≡ destination
unfolding overwrite
overwrite-nil destination offset = rw (add-zero offset) (take-append-drop offset destination)

read_at-whole : (source : Bytes) → read_at source 0 (length source) ≡ some source
read_at-whole source =
    read_at-eq source 0 (length source) (omega arith)
    ∙ ap some (take_all (length source) source (omega arith))

suc-positive : (n : ℕ) → (suc n == 0) ≡ false
suc-positive n = ground arith

-- Where the source lies inside the destination, it replaces what is there.
copy_part-eq :
    (destination source : Bytes) (offset : ℕ)
    → offset + length source ≤ length destination
    → copy_part (some source) (length source) offset destination
      ≡ some (overwrite destination offset source)
unfolding copy_part
copy_part-eq destination [] offset h = ap some (sym (overwrite-nil destination offset))
copy_part-eq destination (b ∷ bs) offset h =
    rw (suc-positive (length bs), read_at-whole (b ∷ bs))
      (write_at-eq destination offset (b ∷ bs) h)

overwrite-append :
    (xs ys source : Bytes)
    → overwrite (xs ++ ys) (length xs) source ≡ xs ++ (source ++ drop (length source) ys)
unfolding overwrite
overwrite-append xs ys source = rw (take-append_length xs ys) (
    ap (λ l. xs ++ (source ++ l))
      (sym (drop-drop (length xs) (length source) (xs ++ ys))
        ∙ ap (drop (length source)) (drop-append_length xs ys)))

pub overwrite-front :
    (destination source : Bytes)
    → overwrite destination 0 source ≡ source ++ drop (length source) destination
overwrite-front destination source = overwrite-append [] destination source

drop_all : (n : ℕ) (xs : Bytes) → length xs ≤ n → drop n xs ≡ []
drop_all zero [] h = refl
drop_all zero (x ∷ xs) h = absurd (omega arith)
drop_all (suc n) [] h = refl
drop_all (suc n) (x ∷ xs) h = drop_all n xs (omega arith)

-- Overwriting what stands behind a prefix, up to the end.
overwrite-rest :
    (xs ys source : Bytes) (n : ℕ)
    → length xs ≡ n
    → length ys ≤ length source
    → overwrite (xs ++ ys) n source ≡ xs ++ source
overwrite-rest xs ys source n at_n h = rw (sym at_n) (
    overwrite-append xs ys source
    ∙ ap (λ l. xs ++ l) (ap (λ l. source ++ l) (drop_all (length source) ys h) ∙ append-nil source))

-- A destination of just the size that efp_embedded_calc_size asks for holds the header, the embedded
-- data and the payload, one behind the other.
pub add_embedded_data-packet :
    (destination embedded payload : Bytes) (type is_last : ℕ)
    → length destination ≡ sizeof_embedded + length embedded + length payload
    → add_embedded_data
        (some destination)
        (some embedded)
        (some payload)
        (length embedded)
        (length payload)
        type
        is_last
      ≡ some (0, some (embedded_header type is_last (length embedded) ++ (embedded ++ payload)))
unfolding add_embedded_data
add_embedded_data-packet destination embedded payload type is_last h =
    rw (write_at-eq destination 0 header (omega (arith, three)), overwrite-front destination header)
      (rw (copy_part-eq (header ++ rest) embedded 3 room) (
        rw (copy_part-eq filled payload (sizeof_embedded + length embedded) room2)
          (ap (λ l. some (0, some l)) whole)))
  where
    header : Bytes
    header = embedded_header type is_last (length embedded)

    three : length header ≡ 3
    three = length-embedded_header type is_last (length embedded)

    rest : Bytes
    rest = drop (length header) destination

    filled : Bytes
    filled = overwrite (header ++ rest) 3 embedded

    room : 3 + length embedded ≤ length (header ++ rest)
    room = omega (arith, three, length-append header rest, length-drop (length header) destination)

    room2 : 3 + length embedded + length payload ≤ length filled
    room2 = omega (
      arith,
      three,
      length-append header rest,
      length-drop (length header) destination,
      length-overwrite (header ++ rest) 3 embedded room,
    )

    filled_eq : filled ≡ (header ++ embedded) ++ drop (length embedded) rest
    filled_eq =
        ap (λ n. overwrite (header ++ rest) n embedded) (sym three)
        ∙ overwrite-append header rest embedded
        ∙ sym (append_assoc header embedded (drop (length embedded) rest))

    whole :
        overwrite filled (sizeof_embedded + length embedded) payload
        ≡ header ++ (embedded ++ payload)
    whole =
        ap (λ l. overwrite l (3 + length embedded) payload) filled_eq
        ∙ overwrite-rest (header ++ embedded) (drop (length embedded) rest) payload
            (3 + length embedded) (omega (arith, three, length-append header embedded))
            (omega (
              arith,
              h,
              three,
              length-drop (length embedded) rest,
              length-drop (length header) destination,
            ))
        ∙ append_assoc header embedded payload

-- An equation that holds of all numbers of seven bits, as a run over them shows.
seven_bits :
    (f g : ℕ → ℕ)
    → holds_from 0 128 (λ t. f t == g t) ≡ true
    → (type : ℕ) → type < 128
    → f type ≡ g type
seven_bits f g e type h = (==_iff _ _).0 (holds_from-at 128 0 _ e type (omega arith) h)

-- The fields of a header in front of any bytes.
pub record HeaderIsRead (frame : Bytes) (type is_last size : ℕ) : Type 0 where
  pub typed : bit_and (u8_at frame 0) 0x7F ≡ type
  pub some_type : (u8_at frame 0 == 0) ≡ false
  pub marked : (bit_and (u8_at frame 0) 0x80 == 0) ≡ (is_last == 0)
  pub sized : u16_at frame 1 ≡ size

pub embedded_header-HeaderIsRead :
    (type is_last size : ℕ) (rest : Bytes)
    → 0 < type
    → type < 128
    → size < 65_536
    → HeaderIsRead (embedded_header type is_last size ++ rest) type is_last size
unfolding embedded_header holds_from
embedded_header-HeaderIsRead type is_last size rest positive small fits =
    elim (Bool-cases (is_last == 0)) [
      | inl unset ↦ record {
        typed = rw unset (seven_bits (λ t. bit_and t 0x7F) (λ t. t) refl type small);
        some_type = rw unset (ground arith);
        marked = rw unset (rw (seven_bits (λ t. bit_and t 0x80) (λ t. 0) refl type small) refl);
        sized = omega arith;
      }
      | inr set ↦ record {
        typed = rw set (seven_bits (λ t. bit_and (bit_or t 0x80) 0x7F) (λ t. t) refl type small);
        some_type =
            rw set
              (rw (seven_bits (λ t. bit_or t 0x80) (λ t. t + 0x80) refl type small) (ground arith));
        marked =
            rw set (
              rw (seven_bits (λ t. bit_and (bit_or t 0x80) 0x80) (λ t. 0x80) refl type small) refl);
        sized = omega arith;
      }
    ]
