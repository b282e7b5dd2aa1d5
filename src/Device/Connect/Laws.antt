-- ===== src/Device/Connect/Laws.antt =====
-- connectBlock: the slots that it takes, and overlaps.
use megumi.Base.{
  ℕ, zero, suc, ◌+◌, ◌<◌, ◌≤◌, ◌≡◌, ◌≢◌, ◌⊎◌, inl, inr, refl, sym, ap, ◌∙◌, arith, if◌then◌else◌,
  ◌==◌, ltb, [], ◌∷◌, ◌++◌, length, Option, none, some, Result, Fault, ok, err, throws,
  ok_injective, Bool-cases, Nat-cases, Option-cases, Result-cases,
}
use megumi.Device.Connect.{claim, put, connect_block, iv_max_count}
use megumi.Device.Memory.{io_space}
use megumi.Device.{Device, Block}

-- What a loop of connectBlock that returns has done: the slots were free, and now hold the block.
pub record IsClaimed (i at count : ℕ) (slots slots' : ℕ → Option ℕ) : Type 0 where
  pub free : (k : ℕ) → at ≤ k → k < at + count → slots k ≡ none
  pub taken : (k : ℕ) → at ≤ k → k < at + count → slots' k ≡ some i
  pub kept : (k : ℕ) → (k < at) ⊎ (at + count ≤ k) → slots' k ≡ slots k

put_self : (at i : ℕ) (slots : ℕ → Option ℕ) → put at i slots at ≡ some i
put_self at i slots = ground arith

put_other : (at i k : ℕ) (slots : ℕ → Option ℕ) → k ≢ at → put at i slots k ≡ slots k
put_other at i k slots ne = ground (arith, ne)

-- One slot more before the others.
IsClaimed-more :
    (i at count : ℕ) (slots slots' : ℕ → Option ℕ)
    → slots at ≡ none
    → IsClaimed i (suc at) count (put at i slots) slots'
    → IsClaimed i at (suc count) slots slots'
IsClaimed-more i at count slots slots' clear rest = record {
  free = λ k low high. elim (Nat-cases k at) [
    | inl here ↦ ap slots here ∙ clear
    | inr ne ↦ sym (put_other at i k slots ne) ∙ rest.free k (omega (arith, ne)) (omega arith)
  ];
  taken = λ k low high. elim (Nat-cases k at) [
    | inl here ↦ ap slots' here ∙ rest.kept at (inl (omega arith)) ∙ put_self at i slots
    | inr ne ↦ rest.taken k (omega (arith, ne)) (omega arith)
  ];
  kept = λ k outside.
      let ne : k ≢ at =
        λ e. absurd (elim outside [ inl low ↦ omega arith | inr high ↦ omega arith ]) in
      rest.kept k (elim outside [ inl low ↦ inl (omega arith) | inr high ↦ inr (omega arith) ])
      ∙ put_other at i k slots ne;
}

pub claim_lem :
    (i at count : ℕ) (slots slots' : ℕ → Option ℕ)
    → claim i at count slots ≡ ok slots'
    → IsClaimed i at count slots slots'
unfolding claim
claim_lem i at zero slots slots' h = record {
  free = λ k low high. absurd (omega arith);
  taken = λ k low high. absurd (omega arith);
  kept = λ k outside. sym (ap (λ f. f k) (ok_injective h));
}
claim_lem i at (suc count) slots slots' h = elim (Option-cases (slots at)) [
  | inl clear ↦
      (let more : claim i (suc at) count (put at i slots) ≡ ok slots' = rw (clear, claim) at h in
        let rest = claim_lem i (suc at) count (put at i slots) slots' more in
        IsClaimed-more i at count slots slots' clear rest)
  | inr found ↦
      (let thrown : err throws ≡ ok slots' = rw (found.1, claim) at h in
        absurd (ground (arith, thrown)))
]

pub Range-cases :
    (k from count : ℕ) → ((from ≤ k) × (k < from + count)) ⊎ ((k < from) ⊎ (from + count ≤ k))
Range-cases k from count = elim (Bool-cases (ltb k from)) [
  | inl low ↦ inr (inl (ground (arith, low)))
  | inr above ↦ elim (Bool-cases (ltb k (from + count))) [
    | inl high ↦ inl (ground (arith, above), ground (arith, high))
    | inr beyond ↦ inr (inr (ground (arith, beyond)))
  ]
]

claim_taken :
    (i at count : ℕ) (slots : ℕ → Option ℕ) (k j : ℕ)
    → at ≤ k
    → k < at + count
    → slots k ≡ some j
    → claim i at count slots ≡ err throws
unfolding claim
claim_taken i at zero slots k j low high h = absurd (omega arith)
claim_taken i at (suc count) slots k j low high h = elim (Option-cases (slots at)) [
  | inl clear ↦
      (let ne : k ≢ at = λ e. absurd (ground (arith, sym h ∙ ap slots e ∙ clear)) in
        rw (clear, claim)
          (claim_taken i (suc at) count (put at i slots) k j (omega (arith, ne)) (omega arith)
            (put_other at i k slots ne ∙ h)))
  | inr found ↦ rw (found.1, claim) refl
]

-- The addresses and the vectors of a block.
abbrev pub InIo : ℕ → Block → Type 0
InIo k b = (b.io_addr ≤ k) × (k < b.io_addr + b.io_size)

abbrev pub InIv : ℕ → Block → Type 0
InIv k b = (b.iv_base ≢ 0) × ((b.iv_base ≤ k) × (k < b.iv_base + b.iv_count))

-- connectBlock fails in no other way.
claim_fails :
    (i at count : ℕ) (slots : ℕ → Option ℕ) (e : Fault)
    → claim i at count slots ≡ err e
    → e ≡ throws
unfolding claim
claim_fails i at zero slots e h = ground (arith, h)
claim_fails i at (suc count) slots e h = elim (Option-cases (slots at)) [
  | inl clear ↦ claim_fails i (suc at) count (put at i slots) e (rw (clear, claim) at h)
  | inr found ↦
      (let thrown : err throws ≡ err e = rw (found.1, claim) at h in ground (arith, thrown))
]

-- The vectors' part of connectBlock.
abbrev pub claim_iv : Device → Block → Result (ℕ → Option ℕ)
claim_iv d b =
    if b.iv_base == 0
    then ok d.iv_blocks
    else if ltb iv_max_count (b.iv_base + b.iv_count)
    then err throws
    else claim (length d.blocks) b.iv_base b.iv_count d.iv_blocks

claim_iv_taken :
    (d : Device) (b : Block) (k j : ℕ)
    → InIv k b
    → d.iv_blocks k ≡ some j
    → claim_iv d b ≡ err throws
claim_iv_taken d b k j (ne, inside) h =
    let taken =
      claim_taken (length d.blocks) b.iv_base b.iv_count d.iv_blocks k j inside.0 inside.1 h in
    elim (Bool-cases (ltb iv_max_count (b.iv_base + b.iv_count))) [
      | inl beyond ↦ ground (arith, ne, beyond)
      | inr fits ↦ ground (arith, ne, fits, taken)
    ]

-- connectBlock throws when another block has one of the block's addresses or of its vectors already.
connect_block_overlap :
    (d : Device) (b : Block) (k j : ℕ)
    → (InIo k b × (d.io_blocks k ≡ some j)) ⊎ (InIv k b × (d.iv_blocks k ≡ some j))
    → connect_block d b ≡ err throws
unfolding connect_block
connect_block_overlap d b k j overlap = elim (Bool-cases (ltb io_space (b.io_addr + b.io_size))) [
  | inl beyond ↦ rw (beyond, connect_block) refl
  | inr fits ↦ elim overlap [
    | inl io ↦
        rw
          (
            fits,
            claim_taken (length d.blocks) b.io_addr b.io_size d.io_blocks k j io.0.0 io.0.1 io.1,
            connect_block,
          )
          refl
    | inr iv ↦
        let vectors = claim_iv_taken d b k j iv.0 iv.1 in
        elim (Result-cases (claim (length d.blocks) b.io_addr b.io_size d.io_blocks)) [
          | inl claimed ↦ rw (fits, claimed.1, vectors, connect_block) refl
          | inr failed ↦
              rw
                (
                  fits,
                  failed.1,
                  claim_fails (length d.blocks) b.io_addr b.io_size d.io_blocks failed.0 failed.1,
                  connect_block,
                )
                refl
        ]
  ]
]

-- What connectBlock has done when it returns.
pub connect_block_ok :
    (d d' : Device) (b : Block)
    → connect_block d b ≡ ok d'
    → (io : ℕ → Option ℕ) × (iv : ℕ → Option ℕ) × (claim
          (length d.blocks)
          b.io_addr
          b.io_size
          d.io_blocks
        ≡ ok io)
      × (claim_iv d b ≡ ok iv)
      × (d' ≡ record d { io_blocks = io; iv_blocks = iv; blocks = d.blocks ++ (b ∷ []) })
unfolding connect_block
connect_block_ok d d' b h = elim (Bool-cases (ltb io_space (b.io_addr + b.io_size))) [
  | inl beyond ↦
      let thrown : err throws ≡ ok d' = rw (beyond, connect_block) at h in
      absurd (ground (arith, thrown))
  | inr fits ↦ elim (Result-cases (claim (length d.blocks) b.io_addr b.io_size d.io_blocks)) [
    | inr failed ↦
        let thrown : err (failed.0) ≡ ok d' = rw (fits, failed.1, connect_block) at h in
        absurd (ground (arith, thrown))
    | inl io ↦ elim (Result-cases (claim_iv d b)) [
      | inr failed ↦
          let thrown : err (failed.0) ≡ ok d' = rw (fits, io.1, failed.1, connect_block) at h in
          absurd (ground (arith, thrown))
      | inl iv ↦
          let made : ok
                (record d { io_blocks = io.0; iv_blocks = iv.0; blocks = d.blocks ++ (b ∷ []) })
              ≡ ok d' =
            rw (fits, io.1, iv.1, connect_block) at h in
          (io.0, iv.0, io.1, iv.1, sym (ok_injective made))
    ]
  ]
]
