-- ===== src/Driver/Tests.antt =====
-- A distributor with words of enabled bits, a processor with a log of completed interrupts, and a tree
-- with one node, on which the theorems on drivers are applied.
use queen.Base.{
  ℕ, zero, suc, ◌+◌, ◌*◌, ◌/◌, ◌%◌, ◌^◌, ◌<◌, ◌≡◌, refl, Bool, true, false, not, ◌&&◌, ◌||◌, ◌==◌,
  ltb, leb, if◌then◌else◌, bit_or, List, [], ◌∷◌, none, some, length, arith, inl, inr, String,
  Bool-cases,
}
use Prim.Native.Nat.{Ordering}
use Prim.Native.String.{compare}
use queen.Base.Bits.{bit, byte, bit-bit_or}
use queen.Driver.Gic.{Distributor, CpuInterface}
use queen.Driver.DeviceTree.{Fdt, RegRangeIter}

-- `a & !v`, in some number of bits.
unfoldable without : ℕ → ℕ → ℕ → ℕ
without zero a v = 0
without (suc n) a v = without n (a / 2) (v / 2) * 2 + (if bit v 0 then 0 else a % 2)

bit-without : (n a v k : ℕ) → k < n → bit (without n a v) k ≡ (bit a k && not (bit v k))
unfolding without
bit-without zero a v k h = absurd (omega arith)
bit-without (suc n) a v zero h = ground arith
bit-without (suc n) a v (suc k) h =
    let rest = without n (a / 2) (v / 2) in
    let half : (rest * 2 + (if bit v 0 then 0 else a % 2)) / 2 ≡ rest = ground arith in
    rw half (bit-without n (a / 2) (v / 2) k (omega arith))

record Words : Type 0 where
  enabled : ℕ → ℕ
  targets : ℕ → ℕ
  priorities : ℕ → ℕ

abbrev at_word : (ℕ → ℕ) → ℕ → ℕ → ℕ → ℕ
at_word f i v j = if j == i then v else f j

set_word :
    (f : ℕ → ℕ) (i v j k : ℕ)
    → bit (at_word f i (bit_or (f i) v) j) k ≡ (bit (f j) k || ((j == i) && bit v k))
set_word f i v j k = elim (Bool-cases (j == i)) [
  | inl same ↦ let e : j ≡ i = ground arith in rw (same, e) (bit-bit_or (f i) v k)
  | inr other ↦ rw other (ground arith)
]

clear_word :
    (f : ℕ → ℕ) (i v j k : ℕ)
    → k < 32
    → bit (at_word f i (without 32 (f i) v) j) k ≡ (bit (f j) k && not ((j == i) && bit v k))
clear_word f i v j k h = elim (Bool-cases (j == i)) [
  | inl same ↦ let e : j ≡ i = ground arith in rw (same, e) (bit-without 32 (f i) v k h)
  | inr other ↦ rw other (ground arith)
]

-- A word of targets or priorities after a write that may be to it.
kept_word :
    (f : ℕ → ℕ) (hit : ℕ → Bool) (v j k : ℕ)
    → byte (if hit j then v else f j) k ≡ (if hit j then byte v k else byte (f j) k)
kept_word f hit v j k = elim (Bool-cases (hit j)) [
  | inl here ↦ rw here refl
  | inr other ↦ rw other refl
]

abbrev is_target_word : ℕ → ℕ → Bool
is_target_word o j = leb 8 j && ltb j 64 && (o == 0x800 + j * 4)

abbrev is_priority_word : ℕ → ℕ → Bool
is_priority_word o j = ltb j 256 && (o == 0x400 + j * 4)

words_target :
    (f : ℕ → ℕ) (o v q : ℕ)
    → byte (if is_target_word o (q / 4) then v else f (q / 4)) (q % 4) ≡ (
        if leb 32 q && ltb q 256 && (o == 0x800 + q / 4 * 4)
        then byte v (q % 4)
        else byte (f (q / 4)) (q % 4))
words_target f o v q =
    let same : is_target_word o (q / 4) ≡ leb 32 q && ltb q 256 && (o == 0x800 + q / 4 * 4) =
      ground arith in
    rw (← same) (kept_word f (is_target_word o) v (q / 4) (q % 4))

words_priority :
    (f : ℕ → ℕ) (o v q : ℕ)
    → byte (if is_priority_word o (q / 4) then v else f (q / 4)) (q % 4) ≡ (
        if ltb q 1024 && (o == 0x400 + q / 4 * 4) then byte v (q % 4) else byte (f (q / 4)) (q % 4))
words_priority f o v q =
    let same : is_priority_word o (q / 4) ≡ ltb q 1024 && (o == 0x400 + q / 4 * 4) = ground arith in
    rw (← same) (kept_word f (is_priority_word o) v (q / 4) (q % 4))

abbrev words_distributor : Distributor Words
words_distributor = record {
  typer = λ d. 7;
  itargetsr0 = λ d. 0x01010101;
  isenabler = λ d i. d.enabled i;
  set_isenabler = λ d i v. record d { enabled = at_word d.enabled i (bit_or (d.enabled i) v) };
  set_icenabler = λ d i v. record d { enabled = at_word d.enabled i (without 32 (d.enabled i) v) };
  write_word = λ d o v. record d {
    targets = λ j. if is_target_word o j then v else d.targets j;
    priorities = λ j. if is_priority_word o j then v else d.priorities j;
  };
  set_ctlr = λ d v. d;
  is_enabled = λ d q. bit (d.enabled (q / 32)) (q % 32);
  target = λ d q. byte (d.targets (q / 4)) (q % 4);
  priority = λ d q. byte (d.priorities (q / 4)) (q % 4);
  priority_of = λ q b. b;
  bit-isenabler = λ d q. refl;
  is_enabled-set_isenabler = λ d i v q. set_word d.enabled i v (q / 32) (q % 32);
  is_enabled-set_icenabler = λ d i v q. clear_word d.enabled i v (q / 32) (q % 32) (omega arith);
  is_enabled-write_word = λ d o v q lo hi. refl;
  is_enabled-set_ctlr = λ d v q. refl;
  target-write_word = λ d o v q lo hi. words_target d.targets o v q;
  target-set_icenabler = λ d i v q. refl;
  target-set_ctlr = λ d v q. refl;
  priority-write_word = λ d o v q lo hi. words_priority d.priorities o v q;
  priority-set_icenabler = λ d i v q. refl;
  priority-set_ctlr = λ d v q. refl;
  typer-write_word = λ d o v lo hi. refl;
}

-- Interrupt 30 is enabled, and interrupt 40.
abbrev two_enabled : Words
two_enabled = record {
  enabled = λ i. if i == 0 then 2 ^ 30 else if i == 1 then 2 ^ 8 else 0;
  targets = λ i. 0;
  priorities = λ i. 0;
}

-- A processor that has acknowledged interrupt 33, with a log of what happens.
abbrev Log : Type 0
Log = List ℕ

abbrev logging : CpuInterface Log
logging = record {
  read_iar = λ w. (33, w);
  write_eoir = λ irq w. irq ∷ w;
  write_pmr = λ v w. w;
  write_ctlr = λ v w. w;
}

abbrev log_driver : ℕ → Log → Log
log_driver driver w = driver ∷ w

-- A node with two cells for a number and a `reg` of two ranges. A property is its name.
abbrev is_same : String → String → Bool
is_same a b = elim (compare a b) [ Ordering.eq ↦ true | _ ↦ false ]

abbrev one_node : Fdt ℕ String
one_node = record {
  nodes = some 0 ∷ [];
  root = none;
  props = λ node. some "#address-cells" ∷ some "#size-cells" ∷ some "reg" ∷ [];
  has_name = λ p name. some (is_same p name);
  has_str = λ p value. some false;
  length = λ p. 32;
  u32 = λ p i. some 2;
  u64 = λ p i. some (i * 0x1000 + 0x4000_0000);
}

abbrev two_ranges : RegRangeIter String
two_ranges = record { reg_prop = "reg"; cells = 2; curr_range = 0; range_count = 2 }
