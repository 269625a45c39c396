-- ===== src/CApi/CallbackSpec.antt =====
-- A payload behind several embedded data, as a client of efp_add_embedded_data puts it together, and
-- what the wrapper of the receive callback makes of it.
use new_efp.Common.{
  ℕ, ◌+◌, ◌≤◌, ◌<◌, ◌≡◌, refl, sym, ap, ◌∙◌, subst, true, List, [], ◌∷◌, ◌++◌, some, leb, ◌==◌,
  if◌then◌else◌, arith, length, take, drop, take-append_length, drop-drop, length-append,
  length-drop,
}
use mathlib.Core.List.{append-nil}
use new_efp.Common.Memory.{Bytes, read_at, read_at-eq}
use new_efp.Receiver.State.{SuperFrame}
use new_efp.CApi.Embedded.{embedded_header}
use new_efp.CApi.EmbeddedSpec.{HeaderIsRead, embedded_header-HeaderIsRead, length-embedded_header}
use new_efp.CApi.Extract.{behind_header}
use new_efp.CApi.Callbacks.{EmbeddedCall, embedded_calls, last, next, parse_header, parse_round}

pub record Block : Type 0 where
  pub type : ℕ
  pub content : Bytes

pub record BlockIsValid (b : Block) : Type 0 where
  pub type_positive : 0 < b.type
  pub type_small : b.type < 128
  pub size_small : length b.content < 65_536

-- The last header is the one in front of the payload.
abbrev pub is_last : List Block → ℕ
is_last [] = 1
is_last (b ∷ bs) = 0

unfoldable pub embed : List Block → Bytes → Bytes
embed [] payload = payload
embed (b ∷ bs) payload =
    embedded_header b.type (is_last bs) (length b.content) ++ (b.content ++ embed bs payload)

-- A frame that stands in its memory from end to end.
abbrev pub Fills : SuperFrame → Type 0
Fills f = f.assembly.size ≡ length f.assembly.memory

-- A block stands in the frame at an offset.
pub record StandsAt (f : SuperFrame) (offset : ℕ) (b : Block) (rest : List Block) (payload : Bytes)
    : Type 0 where
  pub fills : Fills f
  pub valid : BlockIsValid b
  pub here : drop offset f.assembly.memory ≡ embed (b ∷ rest) payload

abbrev pub call_of : SuperFrame → Block → EmbeddedCall
call_of f b = record { content = b.content; type = b.type; pts = f.pts }

abbrev pub end_of : ℕ → Block → ℕ
end_of offset b = offset + 3 + length b.content

module _ (f : SuperFrame) (offset : ℕ) (b : Block) (rest : List Block) (payload : Bytes) where
  pub stands_inside : StandsAt f offset b rest payload → end_of offset b ≤ length f.assembly.memory
  unfolding embed
  stands_inside at_offset =
      let header : Bytes = embedded_header b.type (is_last rest) (length b.content) in
      omega (
        arith,
        length-embedded_header b.type (is_last rest) (length b.content),
        length-append header (b.content ++ embed rest payload),
        length-append b.content (embed rest payload),
        length-drop offset f.assembly.memory,
        ap length at_offset.here,
      )

  stands_header :
      StandsAt f offset b rest payload
      → read_at f.assembly.memory offset 3
        ≡ some (embedded_header b.type (is_last rest) (length b.content))
  unfolding embed
  stands_header at_offset =
      let header : Bytes = embedded_header b.type (is_last rest) (length b.content) in
      read_at-eq f.assembly.memory offset 3 (omega (arith, stands_inside at_offset))
      ∙ ap some (
          ap (take 3) at_offset.here
          ∙ subst (λ n. take n (header ++ (b.content ++ embed rest payload)) ≡ header)
              (length-embedded_header b.type (is_last rest) (length b.content))
              (take-append_length header (b.content ++ embed rest payload)))

  stands_content :
      StandsAt f offset b rest payload
      → read_at f.assembly.memory (offset + 3) (length b.content) ≡ some b.content
  unfolding embed
  stands_content at_offset =
      read_at-eq f.assembly.memory (offset + 3) (length b.content) (stands_inside at_offset)
      ∙ ap some (
          ap (take (length b.content)) (
            sym (drop-drop offset 3 f.assembly.memory)
            ∙ ap (drop 3) at_offset.here
            ∙ (behind_header (embedded_header b.type (is_last rest) (length b.content)) b.content
                (embed rest payload)
                (length-embedded_header b.type (is_last rest) (length b.content))).0)
          ∙ take-append_length b.content (embed rest payload))

  pub stands_rest :
      StandsAt f offset b rest payload
      → drop (end_of offset b) f.assembly.memory ≡ embed rest payload
  unfolding embed
  stands_rest at_offset =
      ap (λ n. drop n f.assembly.memory) (omega arith)
      ∙ sym (drop-drop offset (3 + length b.content) f.assembly.memory)
      ∙ ap (drop (3 + length b.content)) at_offset.here
      ∙ (behind_header (embedded_header b.type (is_last rest) (length b.content)) b.content
          (embed rest payload) (length-embedded_header b.type (is_last rest) (length b.content))).1

  pub stands_round :
      StandsAt f offset b rest payload
      → parse_round f offset
        ≡ some (
            if is_last rest == 0
            then next (call_of f b ∷ []) (end_of offset b)
            else last (call_of f b ∷ []) (end_of offset b))
  unfolding parse_round parse_header embedded_calls
  stands_round at_offset =
      let read =
        subst (λ l. HeaderIsRead l b.type (is_last rest) (length b.content)) (append-nil _)
          (embedded_header-HeaderIsRead b.type (is_last rest) (length b.content) []
            at_offset.valid.type_positive at_offset.valid.type_small at_offset.valid.size_small) in
      let room : leb (offset + 3) f.assembly.size ≡ true =
        ground (arith, at_offset.fills, stands_inside at_offset) in
      let fits : leb (offset + 3 + length b.content) f.assembly.size ≡ true =
        ground (arith, at_offset.fills, stands_inside at_offset) in
      rw (room, stands_header at_offset)
        (rw (read.some_type, read.sized, fits, stands_content at_offset)
          (rw (read.typed, read.marked) refl))
