-- ===== src/NackExchange/Entries.antt =====
-- The entries of a NACK (`buildNack`): the stream and frame they name, and the fragments they ask for.
use new_efp.Common.{
  min, take, take-append-drop, length-take, if◌then◌else◌, ℕ, zero, suc, ◌+◌, ◌≤◌, ◌<◌, ◌≡◌, refl,
  ap, sym, subst, ◌∙◌, true, false, List, [], ◌∷◌, ◌++◌, ltb, ◌==◌, arith, Bool-cases, inl, inr,
  length, drop, All,
}
use mathlib.Core.List.{append-nil}
use new_efp.Wire.{uint16_max}
use new_efp.Wire.Headers.{NackEntry}
use new_efp.Receiver.State.{Bucket}
use new_efp.Receiver.Nack.{
  Scan, entry_of, emit_range, scan_round, scan, scan_start, nack_entries, nack_packet, build_nack,
}
use new_efp.Receiver.NackScan.{
  asked, asked-append, missing, IsScan, scan_round-IsScan, asked-nack_entries,
}

-- An entry of a NACK for a bucket, whose fragments have 16-bit numbers.
abbrev pub IsEntryOf : Bucket → NackEntry → Type 0
IsEntryOf b e =
    (start : ℕ) × (count : ℕ) × (e ≡ entry_of b start count)
    × (count ≤ 255)
    × (start + count < 65_535)

All-snoc :
    (P : NackEntry → Type 0) (es : List NackEntry) (e : NackEntry)
    → All P es
    → P e
    → All P (es ++ (e ∷ []))
All-snoc P [] e all p = (p, tt)
All-snoc P (f ∷ es) e all p = (all.0, All-snoc P es e all.1 p)

-- A range that was closed is an entry.
emitted-All :
    (b : Bucket) (i : ℕ) (s : Scan)
    → i ≤ uint16_max
    → (s.range_start == uint16_max) ≡ false
    → IsScan i s
    → All (IsEntryOf b) s.entries
    → All (IsEntryOf b) (emit_range b s)
emitted-All b i s h wide v all = elim v [
  | inl q ↦ absurd (ground (arith, wide, q))
  | inr q ↦
      All-snoc (IsEntryOf b) s.entries (entry_of b s.range_start s.range_count) all
        (s.range_start, s.range_count, refl, q.1, omega (arith, q.0, h))
]

scan_round-All :
    (b : Bucket) (i : ℕ) (s : Scan)
    → i ≤ uint16_max
    → IsScan i s
    → All (IsEntryOf b) s.entries
    → All (IsEntryOf b) (scan_round b i s).entries
unfolding scan_round
scan_round-All b i s h v all = elim (Bool-cases (s.range_start == uint16_max)) [
  | inl shut ↦ elim (Bool-cases (b.received i)) [
    | inl here ↦ rw (here, shut) all
    | inr gone ↦ rw (gone, shut) all
  ]
  | inr wide ↦ elim (Bool-cases (b.received i)) [
    | inl here ↦ rw (here, wide) (emitted-All b i s h wide v all)
    | inr gone ↦ elim (Bool-cases (ltb s.range_count 255)) [
      | inl more ↦ rw (gone, wide, more) all
      | inr full ↦ rw (gone, wide, full) (emitted-All b i s h wide v all)
    ]
  ]
]

scan-All :
    (count : ℕ) (b : Bucket) (i : ℕ) (s : Scan)
    → i + count ≤ uint16_max
    → IsScan i s
    → All (IsEntryOf b) s.entries
    → IsScan (i + count) (scan count b i s) × All (IsEntryOf b) (scan count b i s).entries
unfolding scan
scan-All zero b i s h v all = (subst (λ n. IsScan n s) (omega arith) v, all)
scan-All (suc count) b i s h v all =
    let (last, rest) =
      scan-All count b (i + 1) (scan_round b i s) (omega arith)
        (scan_round-IsScan b i s (omega arith) v) (scan_round-All b i s (omega arith) v all) in
    (subst (λ n. IsScan n (scan count b (i + 1) (scan_round b i s))) (omega arith) last, rest)

pub nack_entries-All :
    (b : Bucket) → b.of_fragment_no < uint16_max → All (IsEntryOf b) (nack_entries b)
unfolding nack_entries
nack_entries-All b h =
    let last = scan (b.of_fragment_no + 1) b 0 scan_start in
    let (v, all) = scan-All (b.of_fragment_no + 1) b 0 scan_start (omega arith) (inl refl) tt in
    elim (Bool-cases (last.range_start == uint16_max)) [
      | inl shut ↦ rw shut all
      | inr wide ↦
          rw wide (emitted-All b (0 + (b.of_fragment_no + 1)) last (omega arith) wide v all)
    ]

own_entries :
    (b : Bucket) (es : List NackEntry)
    → All (IsEntryOf b) es
    → All (λ e. (e.stream_id ≡ b.stream_id) × (e.super_frame_no ≡ b.saved_frame_no)) es
own_entries b [] all = tt
own_entries b (e ∷ es) ((start, count, same, small, fits), all) =
    ((ap (λ x. x.stream_id) same, ap (λ x. x.super_frame_no) same), own_entries b es all)

All-take : (P : NackEntry → Type 0) (n : ℕ) (es : List NackEntry) → All P es → All P (take n es)
All-take P zero es all = tt
All-take P (suc n) [] all = tt
All-take P (suc n) (e ∷ es) all = (all.0, All-take P n es all.1)

few_entries : (n : ℕ) → ltb 255 n ≡ false → n ≤ 255
few_entries n e = ground (arith, e)

many_entries : (n : ℕ) → ltb 255 n ≡ true → min 255 n ≡ 255
many_entries n e = ground (arith, e)

not_none : (n : ℕ) → ltb 255 n ≡ true → (n == 0) ≡ false
not_none n e = ground (arith, e)

-- What `buildNack` makes: nothing where nothing is missing, else a packet of 255 entries at most. Each
-- has the stream and the number of the frame, and together they ask for missing fragments of it,
-- each once and in ascending order, from the first one on: for all of them where the packet has
-- fewer than 255 entries. The frame has fewer than 65535 fragments.
pub build_nack-asked :
    (b : Bucket)
    → b.of_fragment_no < uint16_max
    → (es : List NackEntry) × (left : List ℕ) × (build_nack b
        ≡ (if length es == 0 then [] else nack_packet es))
      × (length es ≤ 255)
      × All (λ e. (e.stream_id ≡ b.stream_id) × (e.super_frame_no ≡ b.saved_frame_no)) es
      × (asked es ++ left ≡ missing (b.of_fragment_no + 1) b 0)
      × (length es < 255 → left ≡ [])
unfolding build_nack asked
build_nack-asked b h =
    let all = nack_entries b in
    let of_frame = own_entries b all (nack_entries-All b h) in
    elim (Bool-cases (ltb 255 (length all))) [
      | inr few ↦ (
        all,
        [],
        rw few refl,
        few_entries (length all) few,
        of_frame,
        append-nil (asked all) ∙ asked-nack_entries b h,
        λ less. refl,
      )
      | inl many ↦
          let first : length (take 255 all) ≡ 255 =
            length-take 255 all ∙ many_entries (length all) many in
          let some_first : (length (take 255 all) == 0) ≡ false = rw first refl in
          let some_all : (length all == 0) ≡ false = not_none (length all) many in
          (
            take 255 all,
            asked (drop 255 all),
            rw (many, some_first, some_all) refl,
            omega (arith, first),
            All-take _ 255 all of_frame,
            sym (asked-append (take 255 all) (drop 255 all))
                ∙ ap asked (take-append-drop 255 all)
                ∙ asked-nack_entries b h,
            λ less. absurd (omega (arith, first, less)),
          )
    ]
