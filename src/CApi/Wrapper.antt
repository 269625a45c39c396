-- ===== src/CApi/Wrapper.antt =====
-- The wrapper of the receive callback on any frame, and on the frames that are built with
-- efp_add_embedded_data.
use new_efp.Common.{
  All, ◌-◌, ℕ, zero, suc, ◌+◌, ◌*◌, ◌%◌, ◌^◌, ◌≤◌, ◌<◌, ◌≡◌, refl, ◌∙◌, List, [], ◌∷◌, ◌++◌, Option,
  none, some, leb, ◌==◌, ◌>>=◌, bit_and, arith, length, take, drop, Bool-cases, inl, inr, leb→le,
}
use new_efp.Common.Memory.{Bytes, zeros, length-zeros, read_at-eq}
use new_efp.Wire.Headers.{u8_at, u16_at}
use new_efp.Receiver.State.{SuperFrame}
use new_efp.CApi.Embedded.{embedded_calc_size, add_embedded_data}
use new_efp.CApi.EmbeddedSpec.{add_embedded_data-packet}
use new_efp.CApi.Callbacks.{
  Call, embedded_call, receive_call, embedded_calls_to, EmbeddedCall, embedded_calls, Round, ended,
  last, next, parse_header, parse_round, parse_on, parse_embedded, parse_frame, ReceiverCallbacks,
  has_embedded, parse_for, calls_for, call_function, call_receive,
}
use new_efp.CApi.CallbackSpec.{Block, is_last, embed}
use new_efp.CApi.CallbackRun.{blocks_size, length-embed}

-- A client puts the blocks in front of a payload, the last one first, each in a buffer of the size
-- that efp_embedded_calc_size gives.
unfoldable pub build : List Block → Bytes → Option Bytes
build [] payload = some payload
build (b ∷ bs) payload = do
  inner ← build bs payload
  (code, frame) ←
      add_embedded_data (some (zeros (embedded_calc_size (length b.content) (length inner))))
        (some b.content) (some inner) (length b.content) (length inner) b.type (is_last bs)
  frame

calculated :
    (content rest : Bytes)
    → 3 + length content + length rest < 2 ^ 64
    → length (zeros (embedded_calc_size (length content) (length rest)))
      ≡ 3 + length content + length rest
unfolding embedded_calc_size
calculated content rest h = length-zeros ((3 + length content + length rest) % 2 ^ 64) ∙ omega arith

-- What a client builds with efp_add_embedded_data and efp_embedded_calc_size, each block in front
-- of the one before and the first marked as the last, is the blocks in order and then the payload,
-- where all of it is shorter than 2^64 bytes.
pub build-embed :
    (bs : List Block) (payload : Bytes)
    → blocks_size bs + length payload < 2 ^ 64
    → build bs payload ≡ some (embed bs payload)
unfolding build embed
build-embed [] payload small = refl
build-embed (b ∷ bs) payload small =
    let inner = embed bs payload in
    let size = length-embed bs payload in
    rw (build-embed bs payload (omega arith)) (
      rw
        (add_embedded_data-packet (zeros (embedded_calc_size (length b.content) (length inner)))
          b.content inner b.type (is_last bs)
          (calculated b.content inner (omega (arith, size, small))))
        refl)

-- A round ends the loop, or goes on behind its header.
data RoundFrom (offset : ℕ) : Round → Type 0 where
  stops : RoundFrom offset ended
  stops_last : {calls : List EmbeddedCall} {o : ℕ} → RoundFrom offset (last calls o)
  goes_on : {calls : List EmbeddedCall} {o : ℕ} → offset + 3 ≤ o → RoundFrom offset (next calls o)

-- The same, of a header that lies inside the frame.
data RoundIn (offset size : ℕ) : Round → Type 0 where
  stops_in : RoundIn offset size ended
  stops_last_in : {calls : List EmbeddedCall} {o : ℕ} → RoundIn offset size (last calls o)
  goes_on_in :
      {calls : List EmbeddedCall} {o : ℕ}
      → offset + 3 ≤ size
      → offset + 3 ≤ o
      → RoundIn offset size (next calls o)

entered :
    {offset size : ℕ} {round : Round}
    → RoundFrom offset round
    → offset + 3 ≤ size
    → RoundIn offset size round
entered stops h = stops_in
entered stops_last h = stops_last_in
entered (goes_on g) h = goes_on_in h g

module _ (f : SuperFrame) (there : f.assembly.size ≤ length f.assembly.memory) where
  embedded_calls-returns :
      (offset type size : ℕ)
      → (calls : List EmbeddedCall) × (embedded_calls f offset type size ≡ some calls)
  unfolding embedded_calls
  embedded_calls-returns offset type size =
      elim (Bool-cases (leb (offset + 3 + size) f.assembly.size)) [
        | inl inside ↦ (
          record {
            content = take size (drop (offset + 3) f.assembly.memory);
            type = bit_and type 0x7F;
            pts = f.pts;
          }
              ∷ [],
          rw
              (
                inside,
                read_at-eq f.assembly.memory (offset + 3) size
                    (omega (arith, leb→le _ _ inside, there)),
              )
              refl,
        )
        | inr outside ↦ ([], rw outside refl)
      ]

  parse_header-returns :
      (offset : ℕ) (header : Bytes)
      → (round : Round) × (parse_header f offset header ≡ some round) × RoundFrom offset round
  unfolding parse_header
  parse_header-returns offset header = elim (Bool-cases (u8_at header 0 == 0)) [
    | inl none_left ↦ (ended, rw none_left refl, stops)
    | inr typed ↦
        let (calls, e) = embedded_calls-returns offset (u8_at header 0) (u16_at header 1) in
        elim (Bool-cases (bit_and (u8_at header 0) 0x80 == 0)) [
          | inl more ↦ (
            next calls (offset + 3 + u16_at header 1),
            rw (typed, e) (rw more refl),
            goes_on (omega arith),
          )
          | inr marked ↦ (
            last calls (offset + 3 + u16_at header 1),
            rw (typed, e) (rw marked refl),
            stops_last,
          )
        ]
  ]

  parse_round-returns :
      (offset : ℕ)
      → (round : Round) × (parse_round f offset ≡ some round) × RoundIn offset f.assembly.size round
  unfolding parse_round
  parse_round-returns offset = elim (Bool-cases (leb (offset + 3) f.assembly.size)) [
    | inl inside ↦
        let (round, e, from) =
          parse_header-returns offset (take 3 (drop offset f.assembly.memory)) in
        (
          round,
          rw
              (
                inside,
                read_at-eq f.assembly.memory offset 3 (omega (arith, leb→le _ _ inside, there)),
              )
              e,
          entered from (leb→le _ _ inside),
        )
    | inr outside ↦ (ended, rw outside refl, stops_in)
  ]

  abbrev Ends : Option (List EmbeddedCall × ℕ) → Type 0
  Ends o = (calls : List EmbeddedCall) × (offset : ℕ) × (o ≡ some (calls, offset))

  appended :
      (calls : List EmbeddedCall) (o : ℕ) (rest : ℕ → Option (List EmbeddedCall × ℕ))
      → Ends (rest o)
      → Ends (parse_on (next calls o) rest)
  appended calls o rest (more, payload, e) = (calls ++ more, payload, rw e refl)

  -- A round has passed three bytes of the frame, for which the fuel goes down by one.
  parse_on-Ends :
      (fuel offset : ℕ) (round : Round) (rest : ℕ → Option (List EmbeddedCall × ℕ))
      → RoundIn offset f.assembly.size round
      → f.assembly.size + 3 ≤ 3 * suc fuel + offset
      → ((o : ℕ) → 0 < fuel → f.assembly.size + 3 ≤ 3 * fuel + o → Ends (rest o))
      → Ends (parse_on round rest)
  parse_on-Ends fuel offset ended rest from enough go = ([], 0, refl)
  parse_on-Ends fuel offset (last calls o) rest from enough go = (calls, o, refl)
  parse_on-Ends fuel offset (next calls o) rest (goes_on_in room further) enough go =
      appended calls o rest (go o (omega arith) (omega arith))

  parse_embedded-Ends :
      (fuel offset : ℕ)
      → 0 < fuel
      → f.assembly.size + 3 ≤ 3 * fuel + offset
      → Ends (parse_embedded fuel f offset)
  unfolding parse_embedded
  parse_embedded-Ends zero offset positive enough = absurd (omega arith)
  parse_embedded-Ends (suc fuel) offset positive enough =
      let (round, e, from) = parse_round-returns offset in
      rw e (
        parse_on-Ends fuel offset round (λ o. parse_embedded fuel f o) from enough
          (λ o p q. parse_embedded-Ends fuel o p q))

  parse_for-Ends : (function : Option ℕ) → Ends (parse_for function f)
  unfolding parse_for parse_frame
  parse_for-Ends none = ([], 0, refl)
  parse_for-Ends (some function) = elim (Bool-cases (has_embedded f)) [
    | inl y ↦ rw y (parse_embedded-Ends (suc f.assembly.size) 0 (omega arith) (omega arith))
    | inr n ↦ ([], 0, rw n refl)
  ]

call_function-returns :
    (o : Option ℕ) (c : ReceiverCallbacks) (f : SuperFrame) (calls : List EmbeddedCall) (offset : ℕ)
    → parse_for c.embedded_callback f ≡ some (calls, offset)
    → call_function o c f ≡ some (calls_for o c f calls offset)
call_function-returns none c f calls offset e = refl
call_function-returns (some function) c f calls offset e = rw e refl

-- A call of the embedded callback that is set, under the context.
abbrev pub IsEmbeddedCall : Option ℕ → ℕ → Call → Type 0
IsEmbeddedCall o context (embedded_call callback e) =
    (o ≡ some callback.function) × (callback.context ≡ context)
IsEmbeddedCall o context other = ⊥

-- The calls for a frame: none where no receive callback is set; else calls of the embedded callback,
-- and behind them the one call of the receive callback, with the frame, under the context.
abbrev pub Wrapped : Option ℕ → ReceiverCallbacks → SuperFrame → List Call → Type 0
Wrapped none c f calls = calls ≡ []
Wrapped (some function) c f calls =
    (before : List Call) × (offset : ℕ) × (calls
      ≡ before
        ++ (receive_call (record { function = function; context = c.context })
              (record {
                frame = f;
                offset = offset;
                size = (f.assembly.size + 2 ^ 64 - offset) % 2 ^ 64;
              })
            ∷ []))
    × All (IsEmbeddedCall c.embedded_callback c.context) before

embedded_calls_to-All :
    (o : Option ℕ) (context : ℕ) (calls : List EmbeddedCall)
    → All (IsEmbeddedCall o context) (embedded_calls_to o context calls)
embedded_calls_to-All none context calls = tt
embedded_calls_to-All (some function) context [] = tt
embedded_calls_to-All (some function) context (e ∷ calls) =
    ((refl, refl), embedded_calls_to-All (some function) context calls)

calls_for-Wrapped :
    (o : Option ℕ) (c : ReceiverCallbacks) (f : SuperFrame) (calls : List EmbeddedCall) (offset : ℕ)
    → Wrapped o c f (calls_for o c f calls offset)
calls_for-Wrapped none c f calls offset = refl
calls_for-Wrapped (some function) c f calls offset = (
  embedded_calls_to c.embedded_callback c.context calls,
  offset,
  refl,
  embedded_calls_to-All c.embedded_callback c.context calls,
)

pub call_receive-calls_for :
    (c : ReceiverCallbacks) (f : SuperFrame)
    → f.assembly.size ≤ length f.assembly.memory
    → (calls : List EmbeddedCall) × (offset : ℕ) × (call_receive c f
        ≡ some (calls_for c.callback c f calls offset))
unfolding call_receive
call_receive-calls_for c f there =
    let (calls, offset, e) = parse_for-Ends f there c.embedded_callback in
    (calls, offset, call_function-returns c.callback c f calls offset e)

-- The wrapper comes to its end for every frame that lies in its memory, whatever its bytes: it reads
-- nothing outside the frame, and its loop ends. Where a receive callback is set, it is called once,
-- with the frame, behind calls of the embedded callback alone, of which there are none where that
-- is not set; where no receive callback is set, nothing is called.
pub call_receive-Returns :
    (c : ReceiverCallbacks) (f : SuperFrame)
    → f.assembly.size ≤ length f.assembly.memory
    → (calls : List Call) × (call_receive c f ≡ some calls) × Wrapped c.callback c f calls
call_receive-Returns c f there =
    let (calls, offset, e) = call_receive-calls_for c f there in
    (calls_for c.callback c f calls offset, e, calls_for-Wrapped c.callback c f calls offset)
