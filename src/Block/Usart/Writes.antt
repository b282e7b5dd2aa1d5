-- ===== src/Block/Usart/Writes.antt =====
-- What a write to a register and a reset do to the serial port's pacing and its time of a frame, and
-- when they return.
use megumi.Base.{
  ℕ, ◌+◌, ◌*◌, ◌≡◌, refl, Bool, true, false, ◌==◌, u32, ◌&&&◌, ◌||◌, ◌∷◌, Bool-cases, inl, inr,
  if◌then◌else◌, List, [], Result, ok, err, throws, ◌>>=◌, IfOk, IfOk-if,
}
use megumi.Block.Request.{Request, schedule, unschedule}
use megumi.Block.Usart.{
  Usart, dreif, set_io, reset, configure, databits, parity, parity_bits, stopbits, bit_ticks, clk2x,
  txen, rxen, txb_write, status_write, ctrla_write, ctrlb_write, ctrlc_write, baudctrla_write,
  baudctrlb_write,
}

-- The time of a frame is the one that the registers ask for.
abbrev pub IsConfigured : Usart → Type 0
IsConfigured t =
    t.frame_sys_ticks ≡ u32 ((1 + databits t + parity_bits (parity t) + stopbits t) * bit_ticks t)

-- What the write of one register does to the pacing and to the time of a frame.
abbrev pub Kept : Usart → Usart → Type 0
Kept t u =
    (u.next_send_tick ≡ t.next_send_tick)
    × (u.next_recv_tick ≡ t.next_recv_tick)
    × (IsConfigured t → clk2x u ≡ clk2x t → IsConfigured u)

-- What returns keeps them.
abbrev pub KeptIfOk : Usart → Result (Usart × List Request) → Type 0
KeptIfOk t r = IfOk (λ u. Kept t u.0) r

if-Kept :
    (t : Usart) (b : Bool) (x y : Usart × List Request)
    → Kept t x.0
    → Kept t y.0
    → Kept t (if b then x else y).0
if-Kept t true x y hx hy = hx
if-Kept t false x y hx hy = hy

txb_write-Kept : (t : Usart) (v : ℕ) → Kept t (txb_write t v)
unfolding txb_write
txb_write-Kept t v = elim (Bool-cases (dreif t)) [
  | inl empty ↦ rw empty (refl, refl, λ c k. c)
  | inr full ↦ rw full (refl, refl, λ c k. c)
]

status_write-Kept : (t : Usart) (v : ℕ) → Kept t (status_write t v)
unfolding status_write
status_write-Kept t v = (refl, refl, λ c k. c)

ctrla_write-Kept : (t : Usart) (v : ℕ) → Kept t (ctrla_write t v).0
unfolding ctrla_write
ctrla_write-Kept t v = (refl, refl, λ c k. c)

ctrlb_write-Kept : (t : Usart) (v : ℕ) → Kept t (ctrlb_write t v).0
unfolding ctrlb_write
ctrlb_write-Kept t v =
    let set = record t { ctrlb = v &&& 0x1f } in
    let on = txen set || rxen set in
    if-Kept t t.event_scheduled _ _
      (if-Kept t on (set, []) (record set { event_scheduled = false }, unschedule ∷ [])
        (refl, refl, λ c k. rw k c) (refl, refl, λ c k. rw k c))
      (if-Kept t on (record set { event_scheduled = true }, schedule 1 ∷ []) (set, [])
        (refl, refl, λ c k. rw k c) (refl, refl, λ c k. rw k c))

ctrlc_write-Kept : (t : Usart) (v : ℕ) → IfOk (Kept t) (ctrlc_write t v)
unfolding ctrlc_write configure
ctrlc_write-Kept t v = elim (Bool-cases (t.link_accepts t.link_calls)) [
  | inl accepts ↦ rw (accepts, ctrlc_write) (refl, refl, λ c k. refl)
  | inr refuses ↦ rw (refuses, ctrlc_write) _
]

baudctrla_write-Kept : (t : Usart) (v : ℕ) → IfOk (Kept t) (baudctrla_write t v)
unfolding baudctrla_write configure
baudctrla_write-Kept t v = elim (Bool-cases (t.link_accepts t.link_calls)) [
  | inl accepts ↦ rw (accepts, baudctrla_write) (refl, refl, λ c k. refl)
  | inr refuses ↦ rw (refuses, baudctrla_write) _
]

baudctrlb_write-Kept : (t : Usart) (v : ℕ) → IfOk (Kept t) (baudctrlb_write t v)
unfolding baudctrlb_write configure
baudctrlb_write-Kept t v = elim (Bool-cases (t.link_accepts t.link_calls)) [
  | inl accepts ↦ rw (accepts, baudctrlb_write) (refl, refl, λ c k. refl)
  | inr refuses ↦ rw (refuses, baudctrlb_write) _
]

configured-Kept :
    (t : Usart) (r : Result Usart) → IfOk (Kept t) r → KeptIfOk t (r >>= λ u. ok (u, []))
configured-Kept t (ok u) kept = kept
configured-Kept t (err e) kept = _

pub set_io-Kept : (t : Usart) (addr v : ℕ) → KeptIfOk t (set_io t addr v)
unfolding set_io
set_io-Kept t addr v =
    let P = λ (u : Usart × List Request). Kept t u.0 in
    IfOk-if P (addr == 0x00) _ _ (txb_write-Kept t v) (
      IfOk-if P (addr == 0x01) _ _ (status_write-Kept t v) (
        IfOk-if P (addr == 0x03) _ _ (ctrla_write-Kept t v) (
          IfOk-if P (addr == 0x04) _ _ (ctrlb_write-Kept t v) (
            IfOk-if P (addr == 0x05) _ _
              (configured-Kept t (ctrlc_write t v) (ctrlc_write-Kept t v))
              (IfOk-if P (addr == 0x06) _ _
                (configured-Kept t (baudctrla_write t v) (baudctrla_write-Kept t v))
                (IfOk-if P (addr == 0x07) _ _
                  (configured-Kept t (baudctrlb_write t v) (baudctrlb_write-Kept t v))
                  (refl, refl, λ c k. c)))))))

pub reset-IsConfigured : (u : Usart) → IfOk IsConfigured (reset u)
unfolding reset configure
reset-IsConfigured u = elim (Bool-cases (u.link_accepts u.link_calls)) [
  | inl accepts ↦ rw (accepts, reset) refl
  | inr refuses ↦ rw (refuses, reset) _
]

-- A result that is a value.
abbrev Returns : {A : Type 0} → Result A → Type 0
Returns {A} r = (a : A) × (r ≡ ok a)

Returns-if :
    {A : Type 0} (b : Bool) (x y : Result A) → Returns x → Returns y → Returns (if b then x else y)
Returns-if true x y hx hy = hx
Returns-if false x y hx hy = hy

Returns-chosen :
    {A : Type 0} (b : Bool) (a : A) → b ≡ true → Returns (if b then ok a else err throws)
Returns-chosen b a h = (a, rw h refl)

Returns-bind : {A B : Type 0} (r : Result A) (f : A → B) → Returns r → Returns (r >>= λ a. ok (f a))
Returns-bind r f (a, e) = (f a, rw e refl)

-- A write to a register and a reset return when the link's next configure() does.
set_io-Returns :
    (t : Usart) (addr v : ℕ)
    → t.link_accepts t.link_calls ≡ true
    → Returns (set_io t addr v) × Returns (reset t)
unfolding set_io ctrlc_write baudctrla_write baudctrlb_write reset configure
set_io-Returns t addr v accepts = (
  Returns-if (addr == 0x00) _ _ (_, refl)
      (Returns-if (addr == 0x01) _ _ (_, refl)
        (Returns-if (addr == 0x03) _ _ (_, refl)
          (Returns-if (addr == 0x04) _ _ (_, refl)
            (Returns-if (addr == 0x05) _ _
              (Returns-bind (ctrlc_write t v) (λ u. (u, [])) (Returns-chosen _ _ accepts))
              (Returns-if (addr == 0x06) _ _
                (Returns-bind (baudctrla_write t v) (λ u. (u, [])) (Returns-chosen _ _ accepts))
                (Returns-if (addr == 0x07) _ _
                  (Returns-bind (baudctrlb_write t v) (λ u. (u, [])) (Returns-chosen _ _ accepts))
                  (_, refl))))))),
  Returns-bind _ _ (Returns-chosen _ _ accepts),
)
