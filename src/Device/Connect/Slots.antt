-- ===== src/Device/Connect/Slots.antt =====
-- The slots of a connected device: each names the block that has it, if there is one.
use megumi.Base.{
  get_elem?-append_cases, ==_iff, ℕ, ◌+◌, ◌<◌, ◌≤◌, ◌≡◌, inl, inr, sym, ap, ◌∙◌, arith, ◌==◌, ltb,
  List, [], ◌∷◌, ◌++◌, length, get_elem?, get_elem?-append, get_elem?-append_length, Option, none,
  some, ok, err, throws, ok_injective, Bool-cases, Result-cases,
}
use mathlib.Core.Path.{subst}
use megumi.Device.Connect.Laws.{claim_lem, Range-cases, InIo, InIv, claim_iv, connect_block_ok}
use megumi.Device.Connect.{
  claim, connect_block, connect_all, construct, members, unconnected, device_check, ModelConf,
  iv_max_count,
}
use megumi.Device.{Device, Block}

-- A slot names a block exactly when the block, at its place, has the slot.
pub record Placed (In : ℕ → Block → Type 0) (blocks : List Block) (slots : ℕ → Option ℕ)
    : Type 0 where
  pub named : (k i : ℕ) → slots k ≡ some i → (b : Block) × (get_elem? blocks i ≡ some b) × In k b
  pub owned : (k i : ℕ) (b : Block) → get_elem? blocks i ≡ some b → In k b → slots k ≡ some i

pub record IsConnected (d : Device) : Type 0 where
  pub io : Placed InIo d.blocks d.io_blocks
  pub iv : Placed InIv d.blocks d.iv_blocks

some_injective : {i j : ℕ} → some i ≡ some j → i ≡ j
some_injective e = ground (arith, e)

-- A block that has no slot.
Placed-kept :
    (In : ℕ → Block → Type 0) (blocks : List Block) (b : Block) (slots : ℕ → Option ℕ)
    → ((k : ℕ) → ¬ In k b)
    → Placed In blocks slots
    → Placed In (blocks ++ (b ∷ [])) slots
Placed-kept In blocks b slots nothing placed = record {
  named =
      λ k i e. let (c, at, in_c) = placed.named k i e in (c, get_elem?-append blocks b i at, in_c);
  owned = λ k i c at in_c. elim (get_elem?-append_cases blocks b i at) [
    | inl old ↦ placed.owned k i c old in_c
    | inr new ↦ absurd (nothing k (subst (In k) (sym (new.1)) in_c))
  ];
}

-- A block that has a range of slots.
Placed-claim :
    (In : ℕ → Block → Type 0) (blocks : List Block) (b : Block) (from count : ℕ)
    (slots slots' : ℕ → Option ℕ)
    → ((k : ℕ) → from ≤ k → k < from + count → In k b)
    → ((k : ℕ) → In k b → (from ≤ k) × (k < from + count))
    → claim (length blocks) from count slots ≡ ok slots'
    → Placed In blocks slots
    → Placed In (blocks ++ (b ∷ [])) slots'
Placed-claim In blocks b from count slots slots' within range h placed =
    let done = claim_lem (length blocks) from count slots slots' h in
    record {
      named = λ k i e. elim (Range-cases k from count) [
        | inl inside ↦
            let same : i ≡ length blocks =
              some_injective (sym e ∙ done.taken k inside.0 inside.1) in
            (
              b,
              ap (λ n. get_elem? (blocks ++ (b ∷ [])) n) same ∙ get_elem?-append_length blocks b,
              within k inside.0 inside.1,
            )
        | inr outside ↦
            let (c, at, in_c) = placed.named k i (sym (done.kept k outside) ∙ e) in
            (c, get_elem?-append blocks b i at, in_c)
      ];
      owned = λ k i c at in_c. elim (get_elem?-append_cases blocks b i at) [
        | inr new ↦
            let (low, high) = range k (subst (In k) (sym (new.1)) in_c) in
            done.taken k low high ∙ ap some (sym (new.0))
        | inl old ↦
            let before = placed.owned k i c old in_c in
            elim (Range-cases k from count) [
              | inl inside ↦ absurd (ground (arith, sym before ∙ done.free k inside.0 inside.1))
              | inr outside ↦ done.kept k outside ∙ before
            ]
      ];
    }

Placed-claim_iv :
    (d : Device) (b : Block) (iv : ℕ → Option ℕ)
    → Placed InIv d.blocks d.iv_blocks
    → claim_iv d b ≡ ok iv
    → Placed InIv (d.blocks ++ (b ∷ [])) iv
Placed-claim_iv d b iv placed h = elim (Bool-cases (b.iv_base == 0)) [
  | inl none_of ↦
      let kept : ok d.iv_blocks ≡ ok iv = rw none_of at h in
      subst (λ t. Placed InIv (d.blocks ++ (b ∷ [])) t) (ok_injective kept)
        (Placed-kept InIv d.blocks b d.iv_blocks (λ k has. has.0 ((==_iff _ _).0 none_of)) placed)
  | inr has ↦ elim (Bool-cases (ltb iv_max_count (b.iv_base + b.iv_count))) [
    | inl beyond ↦
        let thrown : err throws ≡ ok iv = rw (has, beyond) at h in absurd (ground (arith, thrown))
    | inr fits ↦
        Placed-claim InIv d.blocks b b.iv_base b.iv_count d.iv_blocks iv
          (λ k low high. (ground (arith, has), (low, high))) (λ k has. (has.1))
          (rw (has, fits) at h) placed
  ]
]

-- connectBlock keeps the slots in agreement with the blocks.
pub connect_block-IsConnected :
    (d d' : Device) (b : Block) → IsConnected d → connect_block d b ≡ ok d' → IsConnected d'
connect_block-IsConnected d d' b connected h =
    let (io, iv, io_done, iv_done, made) = connect_block_ok d d' b h in
    subst IsConnected (sym made) (record {
      io =
          Placed-claim InIo d.blocks b b.io_addr b.io_size d.io_blocks io
            (λ k low high. (low, high)) (λ k has. has) io_done connected.io;
      iv = Placed-claim_iv d b iv connected.iv iv_done;
    })

connect_all-IsConnected :
    (bs : List Block) (d d' : Device) → IsConnected d → connect_all bs d ≡ ok d' → IsConnected d'
unfolding connect_all
connect_all-IsConnected [] d d' connected h = subst IsConnected (ok_injective h) connected
connect_all-IsConnected (b ∷ bs) d d' connected h = elim (Result-cases (connect_block d b)) [
  | inl next ↦
      connect_all-IsConnected bs (next.0) d'
        (connect_block-IsConnected d (next.0) b connected (next.1)) (rw (next.1, connect_all) at h)
  | inr failed ↦
      let thrown : err (failed.0) ≡ ok d' = rw (failed.1, connect_all) at h in
      absurd (ground (arith, thrown))
]

Placed-empty : (In : ℕ → Block → Type 0) → Placed In [] (λ k. none)
Placed-empty In = record {
  named = λ k i e. absurd (ground (arith, e));
  owned = λ k i b at in_b. absurd (ground (arith, at));
}

-- The slots agree with the blocks after the constructor of Device.
pub construct-IsConnected :
    (m : ModelConf) (raw d : Device) → construct m raw ≡ ok d → IsConnected d
unfolding construct
construct-IsConnected m raw d h = elim (Bool-cases (device_check m)) [
  | inl checked ↦
      connect_all-IsConnected members (unconnected m raw) d
        (record { io = Placed-empty InIo; iv = Placed-empty InIv }) (rw (checked, construct) at h)
  | inr failed ↦
      let thrown : err throws ≡ ok d = rw (failed, construct) at h in
      absurd (ground (arith, thrown))
]
