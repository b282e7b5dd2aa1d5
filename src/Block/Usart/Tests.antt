-- ===== src/Block/Usart/Tests.antt =====
-- Runs of the serial port.
use megumi.Base.{Result, ok, err, throws, List, false, ◌≡◌, refl, arith, true, [], ◌∷◌, some, none}
use megumi.Block.Request.{Request, schedule, set_iv_lvl}
use megumi.Block.Usart.Writes.{IsConfigured}
use megumi.Block.Usart.Laws.{set_io-IsConfigured, on_event_sends_once, Reach, Step}
use megumi.Block.Usart.{
  Usart, Link, get_io, set_io, execute_iv, reset, on_event, take_frame, give_frame, txb_write,
  receive, transmit, configure, bauds, may_send, ctrlb_write, baudctrla_write,
}
use megumi.Common.{IntLvl, lo, none}

abbrev port : Usart
port = record {
  status = 0x20;
  rxc_intlvl = lo;
  dre_intlvl = IntLvl.none;
  txc_intlvl = IntLvl.none;
  ctrlb = 0x18;
  ctrlc = 0x03;
  baudrate = 0;
  baudscale = 0;
  rxb = 0;
  txb = 0;
  event_scheduled = true;
  frame_sys_ticks = 160;
  link_accepts = λ n. true;
  link_calls = 0;
  next_recv_tick = 0;
  next_send_tick = 0;
}

abbrev quiet : Link
quiet = record { recv = ok none; send = ok true }

-- What a handler returns, and the port itself when it throws.
abbrev the : Result (Usart × List Request) → Usart × List Request
the (ok r) = r
the (err e) = (port, [])

abbrev faster : Usart
faster = record port { baudrate = 0x0c; frame_sys_ticks = 2080; link_calls = 1 }

abbrev restarted : Usart
restarted = record port {
  status = 0x20;
  rxc_intlvl = IntLvl.none;
  ctrlb = 0;
  ctrlc = 0;
  frame_sys_ticks = 112;
  link_calls = 1;
}

written : set_io port 0x06 0x0c ≡ ok (faster, [])
unfolding set_io baudctrla_write configure
written = refl

port_restarts : reset port ≡ ok restarted
unfolding reset configure
port_restarts = refl

set_io-IsConfigured_example : IsConfigured faster × IsConfigured restarted
set_io-IsConfigured_example =
    set_io-IsConfigured port faster port restarted 0x06 0x0c [] refl written refl port_restarts

-- A byte is written to the port and sent at tick 10; the next byte waits until tick 170.
abbrev loaded : Usart
loaded = record port { txb = 0x41; status = 0x00 }

abbrev sent : Usart
sent = record loaded { status = 0x60; next_send_tick = 170 }

abbrev loaded_again : Usart
loaded_again = record sent { txb = 0x42; status = 0x40 }

abbrev asked : List Request
asked = set_iv_lvl 1 IntLvl.none ∷ set_iv_lvl 2 IntLvl.none ∷ []

loaded_sends : on_event loaded 10 1 quiet ≡ ok (sent, asked)
unfolding on_event take_frame give_frame receive transmit
loaded_sends = refl

loaded_takes : take_frame loaded 10 1 quiet ≡ ok (loaded, [])
unfolding take_frame receive
loaded_takes = refl

sent_reloads : set_io sent 0x00 0x42 ≡ ok (loaded_again, [])
unfolding set_io txb_write
sent_reloads = refl

on_event_sends_once_example : may_send loaded_again 169 ≡ false
on_event_sends_once_example =
    on_event_sends_once loaded loaded sent loaded_again 10 169 1 quiet [] asked loaded_takes refl
      refl loaded_sends (omega arith)
      (Reach.next Reach.here (Step.write sent loaded_again 0x00 0x42 [] sent_reloads)) (omega arith)

-- 9600 bauds at 2 MHz, a reception, an overflow, a vector, and a link that throws.
runs :
    (bauds faster 2000000 ≡ 9615)
    × (on_event port 10 1 (record { recv = ok (some 0x41); send = ok true })
        ≡ ok
            (record port { rxb = 0x41; status = 0xa0; next_recv_tick = 170 }, set_iv_lvl 0 lo ∷ []))
    × ((the (
          on_event
            (record port { status = 0xa0 })
            10
            1
            (record { recv = ok (some 0x41); send = ok true }))).0.status
        ≡ 0xa8)
    × (on_event port 10 1 (record { recv = err throws; send = ok true }) ≡ err throws)
    × (set_io (record port { link_accepts = λ n. false }) 0x06 12 ≡ err throws)
    × ((execute_iv (record port { status = 0x60 }) 2).status ≡ 0x20)
    × (get_io (record port { status = 0xa8; rxb = 7 }) 0x00
        ≡ (7, record port { status = 0x20; rxb = 7 }))
    × ((the (set_io (record port { event_scheduled = false }) 0x04 0x08)).1 ≡ schedule 1 ∷ [])
unfolding bauds set_io baudctrla_write configure on_event take_frame give_frame receive transmit
    execute_iv get_io ctrlb_write
runs = (refl, refl, refl, refl, refl, refl, refl, refl)
