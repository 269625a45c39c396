-- ===== src/CApi/CallbackRun.antt =====
-- The wrapper of the receive callback, over a whole frame.
use new_efp.Common.{
  ℕ, zero, suc, ◌+◌, ◌-◌, ◌%◌, ◌^◌, ◌≤◌, ◌<◌, ◌≡◌, refl, sym, ap, ◌∙◌, true, List, [], ◌∷◌, ◌++◌,
  Option, some, arith, length, take, drop, map, All, length-append, drop-drop, take_all,
}
use new_efp.Common.Memory.{Bytes, read_at, read_at-eq}
use new_efp.Receiver.State.{SuperFrame}
use new_efp.CApi.Embedded.{embedded_header}
use new_efp.CApi.EmbeddedSpec.{length-embedded_header}
use new_efp.CApi.Callbacks.{
  next, parse_on, parse_embedded, parse_frame, Call, embedded_call, receive_call, ReceiverCallbacks,
  has_embedded, parse_for, call_receive,
}
use new_efp.CApi.Extract.{behind_header}
use new_efp.CApi.CallbackSpec.{
  Block, BlockIsValid, is_last, embed, Fills, StandsAt, call_of, end_of, stands_rest, stands_round,
}

-- What the embedded data of a frame take up.
abbrev pub blocks_size : List Block → ℕ
blocks_size [] = 0
blocks_size (b ∷ bs) = 3 + length b.content + blocks_size bs

pub length-embed :
    (bs : List Block) (payload : Bytes)
    → length (embed bs payload) ≡ blocks_size bs + length payload
unfolding embed
length-embed [] payload = omega arith
length-embed (b ∷ bs) payload =
    let header : Bytes = embedded_header b.type (is_last bs) (length b.content) in
    omega (
      arith,
      length-embedded_header b.type (is_last bs) (length b.content),
      length-append header (b.content ++ embed bs payload),
      length-append b.content (embed bs payload),
      length-embed bs payload,
    )

last_stands :
    (fuel : ℕ) (f : SuperFrame) (offset : ℕ) (b : Block) (payload : Bytes)
    → StandsAt f offset b [] payload
    → parse_embedded (suc fuel) f offset ≡ some (call_of f b ∷ [], end_of offset b)
unfolding parse_embedded
last_stands fuel f offset b payload at_offset =
    rw (stands_round f offset b [] payload at_offset) refl

next_stands :
    (fuel : ℕ) (f : SuperFrame) (offset : ℕ) (b c : Block) (rest : List Block) (payload : Bytes)
    → StandsAt f offset b (c ∷ rest) payload
    → parse_embedded (suc fuel) f offset
      ≡ parse_on (next (call_of f b ∷ []) (end_of offset b)) (λ o. parse_embedded fuel f o)
unfolding parse_embedded
next_stands fuel f offset b c rest payload at_offset =
    rw (stands_round f offset b (c ∷ rest) payload at_offset) refl

-- The loop calls the callback for each block in order, and ends in front of the payload.
parse_embedded-blocks :
    (bs : List Block) (b : Block) (fuel : ℕ) (f : SuperFrame) (offset : ℕ) (payload : Bytes)
    → length bs < fuel
    → StandsAt f offset b bs payload
    → All BlockIsValid bs
    → parse_embedded fuel f offset ≡ some (map (call_of f) (b ∷ bs), offset + blocks_size (b ∷ bs))
parse_embedded-blocks bs b zero f offset payload enough at_offset valid = absurd (omega arith)
parse_embedded-blocks [] b (suc fuel) f offset payload enough at_offset valid =
    last_stands fuel f offset b payload at_offset
    ∙ ap (λ n. some (call_of f b ∷ [], n)) (omega arith)
parse_embedded-blocks (c ∷ rest) b (suc fuel) f offset payload enough at_offset valid =
    next_stands fuel f offset b c rest payload at_offset
    ∙ rw
        (parse_embedded-blocks rest c fuel f (end_of offset b) payload (omega arith)
          (record {
            fills = at_offset.fills;
            valid = valid.0;
            here = stands_rest f offset b (c ∷ rest) payload at_offset;
          })
          valid.1)
        (ap (λ n. some (call_of f b ∷ map (call_of f) (c ∷ rest), n)) (omega arith))

-- Blocks are not shorter than their number.
blocks_long : (bs : List Block) → length bs ≤ blocks_size bs
blocks_long [] = omega arith
blocks_long (b ∷ bs) = omega (arith, blocks_long bs)

-- A frame that holds a payload behind embedded data, all of it there.
pub record Carries (f : SuperFrame) (b : Block) (bs : List Block) (payload : Bytes) : Type 0 where
  pub valid : All BlockIsValid (b ∷ bs)
  pub memory : f.assembly.memory ≡ embed (b ∷ bs) payload
  pub fills : Fills f
  pub sized : f.assembly.size < 2 ^ 64
  pub flagged : has_embedded f ≡ true

module _ (f : SuperFrame) (b : Block) (bs : List Block) (payload : Bytes) where
  carried_size : Carries f b bs payload → f.assembly.size ≡ blocks_size (b ∷ bs) + length payload
  carried_size c = c.fills ∙ ap length c.memory ∙ length-embed (b ∷ bs) payload

  parse_frame-blocks :
      Carries f b bs payload → parse_frame f ≡ some (map (call_of f) (b ∷ bs), blocks_size (b ∷ bs))
  unfolding parse_frame
  parse_frame-blocks c =
      parse_embedded-blocks bs b (suc f.assembly.size) f 0 payload
        (omega (arith, carried_size c, blocks_long bs))
        (record { fills = c.fills; valid = c.valid.0; here = c.memory }) c.valid.1
      ∙ ap (λ n. some (map (call_of f) (b ∷ bs), n)) (omega arith)

drop-embed :
    (bs : List Block) (payload : Bytes) → drop (blocks_size bs) (embed bs payload) ≡ payload
unfolding embed
drop-embed [] payload = refl
drop-embed (b ∷ bs) payload =
    sym (drop-drop (3 + length b.content) (blocks_size bs) (embed (b ∷ bs) payload))
    ∙ ap (drop (blocks_size bs))
        (behind_header (embedded_header b.type (is_last bs) (length b.content)) b.content
          (embed bs payload) (length-embedded_header b.type (is_last bs) (length b.content))).1
    ∙ drop-embed bs payload

map-map :
    {A B C : Type 0} (g : B → C) (f : A → B) (xs : List A)
    → map g (map f xs) ≡ map (λ x. g (f x)) xs
map-map g f [] = refl
map-map g f (x ∷ xs) = ap (◌∷◌ (g (f x))) (map-map g f xs)

abbrev pub both_callbacks : ℕ → ℕ → ℕ → Option ℕ → ReceiverCallbacks
both_callbacks function embedded_function context nack_callback = record {
  callback = some function;
  embedded_callback = some embedded_function;
  nack_callback = nack_callback;
  context = context;
}

-- The wrapper's calls for a frame: one for each block, and one with the payload.
abbrev pub CallsEach : ℕ → ℕ → ℕ → Option ℕ → SuperFrame → List Block → Bytes → Type 0
CallsEach function embedded_function context nack_callback f blocks payload =
    (offset : ℕ) × (call_receive (both_callbacks function embedded_function context nack_callback) f
      ≡ some (
          map
            (λ block.
              embedded_call (record { function = embedded_function; context = context })
                (record { content = block.content; type = block.type; pts = f.pts }))
            blocks
          ++ (receive_call (record { function = function; context = context })
                (record { frame = f; offset = offset; size = length payload })
              ∷ [])))
    × (read_at f.assembly.memory offset (length payload) ≡ some payload)

-- A whole frame with embedded data, where both callbacks are set: the embedded callback is called
-- for each block, in order, with its content, its type and the frame's PTS, and then the receive
-- callback with a place and a size in the frame at which the payload stands.
pub call_receive-blocks :
    (function embedded_function context : ℕ) (nack_callback : Option ℕ) (f : SuperFrame) (b : Block)
    (bs : List Block) (payload : Bytes)
    → Carries f b bs payload
    → CallsEach function embedded_function context nack_callback f (b ∷ bs) payload
unfolding call_receive parse_for
call_receive-blocks function embedded_function context nack_callback f b bs payload c = (
  blocks_size (b ∷ bs),
  rw c.flagged (
      rw (parse_frame-blocks f b bs payload c) (
        rw sized_eq (
          ap (λ l. some (l ++ (main ∷ [])))
            (map-map
              (λ e. embedded_call (record { function = embedded_function; context = context }) e)
              (call_of f) (b ∷ bs))))),
  read_at-eq f.assembly.memory (blocks_size (b ∷ bs)) (length payload)
        (omega (arith, ap length c.memory, length-embed (b ∷ bs) payload))
      ∙ ap (λ l. some (take (length payload) (drop (blocks_size (b ∷ bs)) l))) c.memory
      ∙ ap (λ l. some (take (length payload) l)) (drop-embed (b ∷ bs) payload)
      ∙ ap some (take_all (length payload) payload (omega arith)),
)
  where
    sized_eq : (f.assembly.size + 2 ^ 64 - blocks_size (b ∷ bs)) % 2 ^ 64 ≡ length payload
    sized_eq = omega (arith, carried_size f b bs payload c, c.sized)

    main : Call
    main =
        receive_call (record { function = function; context = context })
          (record { frame = f; offset = blocks_size (b ∷ bs); size = length payload })
