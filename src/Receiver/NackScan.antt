-- ===== src/Receiver/NackScan.antt =====
-- The scan of `buildNack`: the entries of a NACK name the missing fragments.
use new_efp.Common.{
  ℕ, zero, suc, ◌+◌, ◌%◌, ◌≤◌, ◌<◌, ◌≡◌, refl, ap, sym, subst, ◌∙◌, Bool, true, false, List, [],
  ◌∷◌, ◌++◌, ltb, ◌==◌, if◌then◌else◌, arith, Bool-cases, inl, inr, ◌⊎◌,
}
use mathlib.Core.List.{append_assoc, append-nil}
use native.Mathlib.Nat.{mod-eq_of_lt}
use new_efp.Wire.{uint16_max}
use new_efp.Wire.Headers.{NackEntry}
use new_efp.Receiver.State.{Bucket}
use new_efp.Receiver.Nack.{Scan, entry_of, emit_range, scan_round, scan, scan_start, nack_entries}

-- `count` numbers from `start` on.
unfoldable pub run : ℕ → ℕ → List ℕ
run start zero = []
run start (suc count) = start ∷ run (start + 1) count

-- The fragments that an entry asks for: its first one, and `fragment_count` more.
abbrev pub asked_by : NackEntry → List ℕ
asked_by e = run e.fragment_no (suc e.fragment_count)

unfoldable pub asked : List NackEntry → List ℕ
asked [] = []
asked (e ∷ es) = asked_by e ++ asked es

-- The fragments that a bucket lacks, among `count` of them from `i` on.
unfoldable pub missing : ℕ → Bucket → ℕ → List ℕ
missing zero b i = []
missing (suc count) b i =
    let rest = missing count b (i + 1) in if b.received i then rest else i ∷ rest

run-snoc : (start count : ℕ) → run start (suc count) ≡ run start count ++ ((start + count) ∷ [])
unfolding run
run-snoc start zero = ap (λ n. n ∷ []) (omega arith)
run-snoc start (suc count) =
    let same : start + 1 + count ≡ start + suc count = omega arith in
    ap (◌∷◌ start) (run-snoc (start + 1) count ∙ ap (λ n. run (start + 1) count ++ (n ∷ [])) same)

pub asked-append : (es fs : List NackEntry) → asked (es ++ fs) ≡ asked es ++ asked fs
unfolding asked
asked-append [] fs = refl
asked-append (e ∷ es) fs =
    ap (λ l. asked_by e ++ l) (asked-append es fs) ∙ sym (append_assoc (asked_by e) _ _)

open_range : Scan → List ℕ
open_range s = if s.range_start == uint16_max then [] else run s.range_start (suc s.range_count)

-- What the scan has seen: its entries, and the range that is open.
seen : Scan → List ℕ
seen s = asked s.entries ++ open_range s

-- The open range ends before fragment `i`, and its length fits a byte.
abbrev pub IsScan : ℕ → Scan → Type 0
IsScan i s =
    (s.range_start ≡ uint16_max) ⊎ ((s.range_start + s.range_count + 1 ≡ i) × (s.range_count ≤ 255))

emitted :
    (b : Bucket) (s : Scan)
    → s.range_count ≤ 255
    → asked (emit_range b s) ≡ asked s.entries ++ run s.range_start (suc s.range_count)
unfolding asked
emitted b s h =
    let small : s.range_count % 256 ≡ s.range_count = mod-eq_of_lt (omega arith) in
    asked-append s.entries (entry_of b s.range_start s.range_count ∷ [])
    ∙ ap (λ l. asked s.entries ++ l) (append-nil _ ∙ ap (λ n. run s.range_start (suc n)) small)

-- One fragment.
abbrev one : Bool → ℕ → List ℕ
one true i = []
one false i = i ∷ []

longer :
    (s : Scan) (i : ℕ)
    → s.range_start + s.range_count + 1 ≡ i
    → run s.range_start (suc (s.range_count + 1))
      ≡ run s.range_start (suc s.range_count) ++ (i ∷ [])
longer s i e =
    let count : s.range_count + 1 ≡ suc s.range_count = omega arith in
    let last : s.range_start + (s.range_count + 1) ≡ i = omega (arith, e) in
    run-snoc s.range_start (s.range_count + 1)
    ∙ ap (λ n. run s.range_start n ++ ((s.range_start + (s.range_count + 1)) ∷ [])) count
    ∙ ap (λ n. run s.range_start (suc s.range_count) ++ (n ∷ [])) last

round_step :
    (b : Bucket) (i : ℕ) (s : Scan)
    → i < uint16_max
    → IsScan i s
    → IsScan (i + 1) (scan_round b i s) × (seen (scan_round b i s) ≡ seen s ++ one (b.received i) i)
unfolding scan_round seen open_range run
round_step b i s h v = elim (Bool-cases (b.received i)) [
  | inl here ↦ elim (Bool-cases (s.range_start == uint16_max)) [
    | inl shut ↦ rw (here, shut) (inl (ground (arith, shut)), simp shut (sym (append-nil _)))
    | inr wide ↦
        rw (here, wide) (inl refl, append-nil _ ∙ emitted b s (range wide).1 ∙ sym (append-nil _))
  ]
  | inr gone ↦ elim (Bool-cases (s.range_start == uint16_max)) [
    | inl shut ↦
        rw (gone, shut)
          (
            inr (omega arith, omega arith),
            simp other (ap (λ l. l ++ (i ∷ [])) (sym (append-nil _))),
          )
    | inr wide ↦ elim (Bool-cases (ltb s.range_count 255)) [
      | inl more ↦
          rw (gone, wide, more)
            (
              inr (omega (arith, (range wide).0), ground (arith, more)),
              simp wide (
                  ap (λ l. asked s.entries ++ l) (longer s i (range wide).0)
                  ∙ sym (append_assoc (asked s.entries) _ _)),
            )
      | inr full ↦
          rw (gone, wide, full)
            (
              inr (omega arith, omega arith),
              simp other (ap (λ l. l ++ (i ∷ [])) (emitted b s (range wide).1)),
            )
    ]
  ]
]
  where
    other : (i == uint16_max) ≡ false
    other = ground (arith, h)

    range :
        (s.range_start == uint16_max) ≡ false
        → (s.range_start + s.range_count + 1 ≡ i) × (s.range_count ≤ 255)
    range wide = elim v [ inl q ↦ absurd (ground (arith, wide, q)) | inr q ↦ q ]

-- A round keeps the range as it should be.
pub scan_round-IsScan :
    (b : Bucket) (i : ℕ) (s : Scan)
    → i < uint16_max
    → IsScan i s
    → IsScan (i + 1) (scan_round b i s)
scan_round-IsScan b i s h v = (round_step b i s h v).0

missing-suc :
    (count : ℕ) (b : Bucket) (i : ℕ)
    → missing (suc count) b i ≡ one (b.received i) i ++ missing count b (i + 1)
unfolding missing
missing-suc count b i = elim (Bool-cases (b.received i)) [ inl e ↦ rw e refl | inr e ↦ rw e refl ]

scan-seen :
    (count : ℕ) (b : Bucket) (i : ℕ) (s : Scan)
    → i + count ≤ uint16_max
    → IsScan i s
    → IsScan (i + count) (scan count b i s)
      × (seen (scan count b i s) ≡ seen s ++ missing count b i)
unfolding scan missing
scan-seen zero b i s h v =
    let same : i ≡ i + 0 = omega arith in
    (subst (λ n. IsScan n s) same v, sym (append-nil (seen s)))
scan-seen (suc count) b i s h v =
    let (valid, one_more) = round_step b i s (omega arith) v in
    let (last, rest) = scan-seen count b (i + 1) (scan_round b i s) (omega arith) valid in
    let same : i + 1 + count ≡ i + suc count = omega arith in
    (
      subst (λ n. IsScan n (scan count b (i + 1) (scan_round b i s))) same last,
      rest
          ∙ ap (λ l. l ++ missing count b (i + 1)) one_more
          ∙ append_assoc (seen s) _ _
          ∙ ap (λ l. seen s ++ l) (sym (missing-suc count b i)),
    )

finish :
    (b : Bucket) (i : ℕ) (s : Scan)
    → IsScan i s
    → asked (if s.range_start == uint16_max then s.entries else emit_range b s) ≡ seen s
unfolding seen open_range
finish b i s v = elim (Bool-cases (s.range_start == uint16_max)) [
  | inl shut ↦ rw shut (sym (append-nil _))
  | inr wide ↦ elim v [
    | inl q ↦ absurd (ground (arith, wide, q))
    | inr q ↦ rw wide (emitted b s q.1)
  ]
]

start-IsScan : IsScan 0 scan_start
start-IsScan = inl refl

seen-start : seen scan_start ≡ []
unfolding seen open_range asked
seen-start = refl

-- The entries of a NACK ask for the missing fragments of a frame of at most 65535 fragments: for
-- each of them once, in ascending order, and for no other.
pub asked-nack_entries :
    (b : Bucket)
    → b.of_fragment_no < uint16_max
    → asked (nack_entries b) ≡ missing (b.of_fragment_no + 1) b 0
unfolding nack_entries
asked-nack_entries b h =
    let (valid, all) = scan-seen (b.of_fragment_no + 1) b 0 scan_start (omega arith) start-IsScan in
    finish b _ _ valid ∙ all ∙ ap (λ l. l ++ missing (b.of_fragment_no + 1) b 0) seen-start
