-- ===== src/Stack/Push.antt =====
-- What a push leaves, and that it is popped.
use mathlib.Core.Path.{subst}
use megumi.Base.{
  ℕ, ◌+◌, ◌-◌, ◌/◌, ◌≤◌, ◌<◌, ◌≡◌, ◌≢◌, ap, sym, ◌∙◌, arith, Bool, true, false, u16, u32, ◌<<<◌,
  List, set, get_or, length, length-set, get_or-set_self, get_or-set_ne, ok, ◌⊎◌,
}
use megumi.Common.Laws.{bit_and_byte}
use megumi.Stack.{Machine, sram_start, set_sp, jump, slot, byte_of, push_pc, pop_pc}

-- Where an access that is defined goes.
slot_ok :
    (m : Machine) (k : ℕ) {i : ℕ}
    → slot m k ≡ ok i
    → (i ≡ m.cpu.sp - k - sram_start)
      × (sram_start + k ≤ m.cpu.sp)
      × (m.cpu.sp - k - sram_start < length m.sram)
unfolding slot
slot_ok m k e = ground arith

slot_defined :
    (m : Machine) (k : ℕ)
    → sram_start + k ≤ m.cpu.sp
    → m.cpu.sp - k - sram_start < length m.sram
    → slot m k ≡ ok (m.cpu.sp - k - sram_start)
unfolding slot
slot_defined m k low high = ground arith

-- The bytes of a return address, and the SP after it.
abbrev pub wide : Bool → ℕ
wide true = 2
wide false = 3

abbrev pub limit : Bool → ℕ
limit true = 65536
limit false = 16777216

abbrev pub stored : Bool → List ℕ → ℕ → ℕ → List ℕ
stored true s sp v =
    set (set s (sp - 0 - sram_start) (byte_of 0 (u16 v))) (sp - 1 - sram_start) (byte_of 1 (u16 v))
stored false s sp v =
    set
      (set (set s (sp - 0 - sram_start) (byte_of 0 (u32 v))) (sp - 1 - sram_start)
        (byte_of 1 (u32 v)))
      (sp - 2 - sram_start) (byte_of 2 (u32 v))

-- When a push is defined, and what it leaves.
pub push_inv :
    (small : Bool) (m : Machine) (v : ℕ) {m' : Machine}
    → push_pc small m v ≡ ok m'
    → (sram_start + wide small ≤ m.cpu.sp + 1)
      × (m.cpu.sp - sram_start < length m.sram)
      × (m'
          ≡ set_sp
              (record m { sram = stored small m.sram m.cpu.sp v })
              (u16 (m.cpu.sp + 65536 - wide small)))
unfolding push_pc slot
push_inv true m v e = ground arith
push_inv false m v e = ground arith

-- A memory that differs from another at most in the bytes that a push with this SP stores: those at SP
-- and below it, as many as a return address has.
abbrev pub OnlyPushed : Bool → ℕ → List ℕ → List ℕ → Type 0
OnlyPushed small sp s s' =
    (length s' ≡ length s)
    × ((i : ℕ)
        → (sp < sram_start + i) ⊎ (sram_start + i + wide small ≤ sp)
        → get_or s' i 0 ≡ get_or s i 0)

stored-OnlyPushed :
    (small : Bool) (s : List ℕ) (sp v : ℕ)
    → sram_start + wide small ≤ sp + 1
    → OnlyPushed small sp s (stored small s sp v)
stored-OnlyPushed true s sp v deep = (
  length-set _ _ _ ∙ length-set _ _ _,
  (λ i outside.
      get_or-set_ne _ (sp - 1 - sram_start) i _ 0 (λ e. ground (arith, e, outside))
      ∙ get_or-set_ne s (sp - 0 - sram_start) i _ 0 (λ e. ground (arith, e, outside))),
)
stored-OnlyPushed false s sp v deep = (
  length-set _ _ _ ∙ length-set _ _ _ ∙ length-set _ _ _,
  (λ i outside.
      get_or-set_ne _ (sp - 2 - sram_start) i _ 0 (λ e. ground (arith, e, outside))
      ∙ get_or-set_ne _ (sp - 1 - sram_start) i _ 0 (λ e. ground (arith, e, outside))
      ∙ get_or-set_ne s (sp - 0 - sram_start) i _ 0 (λ e. ground (arith, e, outside))),
)

-- The bytes that a push leaves as they were.
pub push_pc-OnlyPushed :
    (small : Bool) (m : Machine) (v : ℕ) {m' : Machine}
    → push_pc small m v ≡ ok m'
    → OnlyPushed small m.cpu.sp m.sram m'.sram
push_pc-OnlyPushed small m v pushed =
    let (deep, inside, left) = push_inv small m v pushed in
    subst (OnlyPushed small m.cpu.sp m.sram) (sym (ap (λ (q : Machine). q.sram) left))
      (stored-OnlyPushed small m.sram m.cpu.sp v deep)

-- Two and three bytes stored at different places.
two_stored :
    (s : List ℕ) (a b x y : ℕ)
    → a ≢ b
    → a < length s
    → b < length s
    → (get_or (set (set s a x) b y) a 0 ≡ x) × (get_or (set (set s a x) b y) b 0 ≡ y)
two_stored s a b x y ne ha hb = (
  get_or-set_ne (set s a x) b a y 0 (λ e. ne (sym e)) ∙ get_or-set_self s a x 0 ha,
  get_or-set_self (set s a x) b y 0 (omega (arith, length-set s a x, hb)),
)

three_stored :
    (s : List ℕ) (a b c x y z : ℕ)
    → a ≢ b
    → a ≢ c
    → b ≢ c
    → a < length s
    → b < length s
    → c < length s
    → let s' = set (set (set s a x) b y) c z in
      (get_or s' a 0 ≡ x) × (get_or s' b 0 ≡ y) × (get_or s' c 0 ≡ z)
three_stored s a b c x y z ab ac bc ha hb hc =
    let two = two_stored s a b x y ab ha hb in
    let t = set (set s a x) b y in
    let size : length t ≡ length s = length-set (set s a x) b y ∙ length-set s a x in
    (
      get_or-set_ne t c a z 0 (λ e. ac (sym e)) ∙ two.0,
      get_or-set_ne t c b z 0 (λ e. bc (sym e)) ∙ two.1,
      get_or-set_self t c z 0 (omega (arith, size, hc)),
    )

module _ (s : List ℕ) (sp v : ℕ) (high : sp - sram_start < length s) where
  read_small :
      sram_start + 1 ≤ sp
      → v < 65536
      → let s' = stored true s sp v in
        u16 (get_or s' (sp - 0 - sram_start) 0 + get_or s' (sp - 1 - sram_start) 0 <<< 8) ≡ v
  read_small deep fits =
      let bytes =
        two_stored s (sp - 0 - sram_start) (sp - 1 - sram_start) (byte_of 0 (u16 v))
          (byte_of 1 (u16 v)) (omega arith) (omega arith) (omega arith) in
      rw (bytes.0, bytes.1) (omega (arith, bit_and_byte (u16 v / 1), bit_and_byte (u16 v / 256)))

  read_large :
      sram_start + 2 ≤ sp
      → v < 16777216
      → let s' = stored false s sp v in
        u32 (
          get_or s' (sp - 0 - sram_start) 0
          + get_or s' (sp - 1 - sram_start) 0 <<< 8
          + get_or s' (sp - 2 - sram_start) 0 <<< 16)
        ≡ v
  read_large deep fits =
      let bytes =
        three_stored s (sp - 0 - sram_start) (sp - 1 - sram_start) (sp - 2 - sram_start)
          (byte_of 0 (u32 v)) (byte_of 1 (u32 v)) (byte_of 2 (u32 v)) (omega arith) (omega arith)
          (omega arith) (omega arith) (omega arith) (omega arith) in
      rw (bytes.0, bytes.1, bytes.2)
        (omega (
          arith,
          bit_and_byte (u32 v / 1),
          bit_and_byte (u32 v / 256),
          bit_and_byte (u32 v / 65536),
        ))

-- After a push, a machine with the stack as the push left it pops the address and the old SP.
pub popped :
    (small : Bool) (m n : Machine) (v : ℕ) {m' : Machine}
    → m.cpu.sp < 65536
    → v < limit small
    → push_pc small m v ≡ ok m'
    → n.cpu.sp ≡ m'.cpu.sp
    → n.sram ≡ m'.sram
    → pop_pc small n ≡ ok (jump (set_sp n m.cpu.sp) v)
unfolding pop_pc
popped true m n v {m'} hsp fits pushed sp_is sram_is =
    let inv = push_inv true m v pushed in
    let up = set_sp n m.cpu.sp in
    let back : u16 (n.cpu.sp + 2) ≡ m.cpu.sp = ground (arith, inv.0, inv.2) in
    let bytes : n.sram ≡ stored true m.sram m.cpu.sp v = ground (arith, inv.2) in
    let size : length n.sram ≡ length m.sram =
      ap length bytes ∙ length-set _ _ _ ∙ length-set _ _ _ in
    rw
      (
        back,
        slot_defined up 0 (omega (arith, inv.0)) (omega (arith, inv.1, size)),
        slot_defined up 1 (omega (arith, inv.0)) (omega (arith, inv.1, size)),
      )
      (ap (λ pc. ok (jump up pc))
        (rw bytes (read_small m.sram m.cpu.sp v inv.1 (omega (arith, inv.0)) fits)))
popped false m n v {m'} hsp fits pushed sp_is sram_is =
    let inv = push_inv false m v pushed in
    let up = set_sp n m.cpu.sp in
    let back : u16 (n.cpu.sp + 3) ≡ m.cpu.sp = ground (arith, inv.0, inv.2) in
    let bytes : n.sram ≡ stored false m.sram m.cpu.sp v = ground (arith, inv.2) in
    let size : length n.sram ≡ length m.sram =
      ap length bytes ∙ length-set _ _ _ ∙ length-set _ _ _ ∙ length-set _ _ _ in
    let at = λ (k : ℕ) (h : k ≤ 2).
      slot_defined up k (omega (arith, inv.0, h)) (omega (arith, inv.1, size)) in
    rw (back, at 0 (omega arith), at 1 (omega arith), at 2 (omega arith))
      (ap (λ pc. ok (jump up pc))
        (rw bytes (read_large m.sram m.cpu.sp v inv.1 (omega (arith, inv.0)) fits)))
