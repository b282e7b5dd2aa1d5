-- ===== src/Block/Usart/Laws.antt =====
-- The serial port: the frame time follows the configuration, frames are paced, and an unread frame
-- stays.
use mathlib.Core.Path.{subst}
use megumi.Base.{
  ℕ, ◌+◌, ◌*◌, ◌^◌, ◌≤◌, ◌<◌, ◌≡◌, refl, sym, ap, arith, ◌∙◌, true, false, Option, none, some, List,
  [], ok, IfOk, IfOk-if, IfOk-bind, IfOk-holds, IfOk-any, bind_ok, ok_injective,
}
use megumi.Block.Request.{Request}
use megumi.Block.Usart.{
  Usart, Link, get_io, set_io, execute_iv, reset, on_event, take_frame, give_frame, clk2x, may_send,
  may_receive, receive, transmit,
}
use megumi.Block.Usart.Writes.{IsConfigured, Kept, set_io-Kept, reset-IsConfigured}

-- A write to a register that returns and keeps CLK2X leaves the time of a frame the one that the registers
-- ask for, if it was before; and a reset that returns brings it about.
pub set_io-IsConfigured :
    (t t' u u' : Usart) (addr v : ℕ) (rs : List Request)
    → IsConfigured t
    → set_io t addr v ≡ ok (t', rs)
    → clk2x t' ≡ clk2x t
    → reset u ≡ ok u'
    → IsConfigured t' × IsConfigured u'
set_io-IsConfigured t t' u u' addr v rs before written kept restarted = (
  (IfOk-holds (λ (u : Usart × List Request). Kept t u.0) (set_io t addr v) (set_io-Kept t addr v)
        written).2
      before kept,
  IfOk-holds IsConfigured (reset u) (reset-IsConfigured u) restarted,
)

-- What can happen to the port before a tick.
pub data Step (limit : ℕ) : Usart → Usart → Type 0 where
  read : (t : Usart) (addr : ℕ) → Step limit t (get_io t addr).1
  write :
      (t u : Usart) (addr v : ℕ) (rs : List Request) → set_io t addr v ≡ ok (u, rs) → Step limit t u
  vector : (t : Usart) (iv : ℕ) → Step limit t (execute_iv t iv)
  event :
      (t u : Usart) (tick per_scale : ℕ) (link : Link) (rs : List Request)
      → tick < limit
      → on_event t tick per_scale link ≡ ok (u, rs)
      → Step limit t u

pub data Reach (limit : ℕ) (s : Usart) : Usart → Type 0 where
  here : Reach limit s s
  next : {t u : Usart} → Reach limit s t → Step limit t u → Reach limit s u

get_io_paced : (t : Usart) (addr : ℕ) → (get_io t addr).1.next_send_tick ≡ t.next_send_tick
unfolding get_io
get_io_paced t addr = ground arith

execute_iv_paced : (t : Usart) (iv : ℕ) → (execute_iv t iv).next_send_tick ≡ t.next_send_tick
unfolding execute_iv
execute_iv_paced t iv = ground arith

-- A reception changes neither the pacing of what is sent nor the time of a frame.
abbrev SendsAs : Usart → Usart × List Request → Type 0
SendsAs t r = (r.0.next_send_tick ≡ t.next_send_tick) × (r.0.frame_sys_ticks ≡ t.frame_sys_ticks)

receive-SendsAs :
    (t : Usart) (tick per_scale : ℕ) (r : Option ℕ) → SendsAs t (receive t tick per_scale r)
unfolding receive
receive-SendsAs t tick per_scale none = (refl, refl)
receive-SendsAs t tick per_scale (some frame) = (ground arith, ground arith)

take_frame-SendsAs :
    (t : Usart) (tick per_scale : ℕ) (link : Link)
    → IfOk (SendsAs t) (take_frame t tick per_scale link)
unfolding take_frame
take_frame-SendsAs t tick per_scale link =
    IfOk-if (SendsAs t) (may_receive t tick) _ (ok (t, []))
      (IfOk-bind (λ r. Unit) (SendsAs t) link.recv _ (IfOk-any link.recv)
        (λ r u. receive-SendsAs t tick per_scale r))
      (refl, refl)

-- The parts of an event that returns.
on_event_parts :
    (t u : Usart) (tick per_scale : ℕ) (link : Link) (rs : List Request)
    → on_event t tick per_scale link ≡ ok (u, rs)
    → (w : Usart) × (first second : List Request) × (take_frame t tick per_scale link
        ≡ ok (w, first))
      × (give_frame w tick per_scale link ≡ ok (u, second))
      × SendsAs t (w, first)
unfolding on_event
on_event_parts t u tick per_scale link rs ran =
    let (first, taken, more) = bind_ok (take_frame t tick per_scale link) _ ran in
    let (second, given, ends) = bind_ok (give_frame (first.0) tick per_scale link) _ more in
    let same : second.0 ≡ u = ap (λ (r : Usart × List Request). r.0) (ok_injective ends) in
    (
      first.0,
      first.1,
      second.1,
      taken,
      subst (λ (u : Usart). give_frame (first.0) tick per_scale link ≡ ok (u, second.1)) same given,
      IfOk-holds (SendsAs t) (take_frame t tick per_scale link)
          (take_frame-SendsAs t tick per_scale link) taken,
    )

-- No frame is sent before its time.
on_event_paced :
    (t u : Usart) (tick per_scale : ℕ) (link : Link) (rs : List Request)
    → tick < t.next_send_tick
    → on_event t tick per_scale link ≡ ok (u, rs)
    → u.next_send_tick ≡ t.next_send_tick
unfolding give_frame
on_event_paced t u tick per_scale link rs early ran =
    let (w, first, second, taken, given, kept) = on_event_parts t u tick per_scale link rs ran in
    let late : may_send w tick ≡ false = ground (arith, kept) in
    let none_sent : ok (w, []) ≡ ok (u, second) = rw (late, give_frame) at given in
    ap (λ (r : Usart × List Request). r.0.next_send_tick) (sym (ok_injective none_sent)) ∙ kept.0

Step-paced :
    {limit : ℕ} {t u : Usart}
    → Step limit t u
    → limit ≤ t.next_send_tick
    → u.next_send_tick ≡ t.next_send_tick
Step-paced (read t addr) h = get_io_paced t addr
Step-paced (write t u addr v rs written) h =
    (IfOk-holds (λ (u : Usart × List Request). Kept t u.0) (set_io t addr v) (set_io-Kept t addr v)
      written).0
Step-paced (vector t iv) h = execute_iv_paced t iv
Step-paced (event t u tick per_scale link rs early ran) h =
    on_event_paced t u tick per_scale link rs (omega arith) ran

Reach_paced :
    {limit : ℕ} {s t : Usart}
    → Reach limit s t
    → limit ≤ s.next_send_tick
    → t.next_send_tick ≡ s.next_send_tick
Reach_paced here h = refl
Reach_paced (next r st) h =
    let before = Reach_paced r h in Step-paced st (omega (arith, before)) ∙ before

sends_due :
    (t w u : Usart) (tick per_scale : ℕ) (link : Link) (first rs : List Request)
    → take_frame t tick per_scale link ≡ ok (w, first)
    → may_send w tick ≡ true
    → link.send ≡ ok true
    → on_event t tick per_scale link ≡ ok (u, rs)
    → tick + t.frame_sys_ticks * per_scale < 2 ^ 32
    → u.next_send_tick ≡ tick + t.frame_sys_ticks * per_scale
unfolding give_frame transmit
sends_due t w u tick per_scale link first rs taken able sent ran fits =
    let (w', first', second, taken', given, kept) = on_event_parts t u tick per_scale link rs ran in
    let same : w' ≡ w =
      ap (λ (r : Usart × List Request). r.0) (ok_injective (sym taken' ∙ taken)) in
    let able' : may_send w' tick ≡ true = ap (λ w. may_send w tick) same ∙ able in
    let gives : ok (transmit w' tick per_scale true) ≡ ok (u, second) =
      rw (able', sent, give_frame) at given in
    ap (λ (r : Usart × List Request). r.0.next_send_tick) (sym (ok_injective gives))
    ∙ rw (kept.1) (omega arith)

-- When an event that returns sends a frame, no event before the ticks of the frame are over sends another,
-- whatever the program reads and writes meanwhile. The times are assumed to fit 32 bits.
pub on_event_sends_once :
    (t w s u : Usart) (tick later per_scale : ℕ) (link : Link) (first rs : List Request)
    → take_frame t tick per_scale link ≡ ok (w, first)
    → may_send w tick ≡ true
    → link.send ≡ ok true
    → on_event t tick per_scale link ≡ ok (s, rs)
    → tick + t.frame_sys_ticks * per_scale < 2 ^ 32
    → Reach (tick + t.frame_sys_ticks * per_scale) s u
    → later < tick + t.frame_sys_ticks * per_scale
    → may_send u later ≡ false
on_event_sends_once t w s u tick later per_scale link first rs taken able sent ran fits reached
      early =
    let due = sends_due t w s tick per_scale link first rs taken able sent ran fits in
    let kept = Reach_paced reached (omega (arith, due)) in ground (arith, kept, due)
