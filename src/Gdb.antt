-- ===== src/Gdb.antt =====
-- gdbserver.h and gdbserver.cpp: the server of the GDB remote protocol. The sockets are an environment:
-- what recv() brings is a list of pieces, and what is sent is the result.
pub mod Codec
pub mod Packet
pub mod Exec
pub mod Memory
pub mod Command
pub mod Process
pub mod Serve
pub mod Sample
mod Tests
use megumi.Base.{ℕ, List, Result, Fault, ok, err, throws, undefined, ◌≡◌, refl, ap, arith}
use megumi.Device.{Device}

-- A text, by the codes of its characters.
abbrev pub Text : Type 0
Text = List ℕ

-- device_ and breakpoints_, a multiset.
pub record Server : Type 0 where
  pub device : Device
  pub breakpoints : List ℕ

-- How a command ends: with a value; by a GdbServerError, which processPacket catches, in the state
-- that it leaves; by another exception or undefined behaviour; or not within the steps given.
pub data Outcome (A : Type 0) : Type 0 where
  done : A → Outcome A
  refuses : Server → Outcome A
  fails : Fault → Outcome A
  goes_on : Outcome A

infixl 5 ◌>>=◌
abbrev pub ◌>>=◌ : {A B : Type 0} → Outcome A → (A → Outcome B) → Outcome B
done a >>= f = f a
refuses s >>= f = refuses s
fails e >>= f = fails e
goes_on >>= f = goes_on

-- A parser, which throws GdbServerError.
abbrev pub parsed : {A : Type 0} → Server → Result A → Outcome A
parsed s (ok a) = done a
parsed s (err throws) = refuses s
parsed s (err undefined) = fails undefined

-- A call of the device, whose exceptions are others.
abbrev pub called : {A : Type 0} → Result A → Outcome A
called (ok a) = done a
called (err e) = fails e

abbrev result_or : {A : Type 0} → A → Outcome A → A
result_or other (done a) = a
result_or other (refuses s) = other
result_or other (fails e) = other
result_or other goes_on = other

pub done_injective : {A : Type 0} {a b : A} → Outcome.done a ≡ done b → a ≡ b
done_injective {a = a} h = ap (result_or a) h

-- A chain that ends well, taken apart.
pub bind_done :
    {A B : Type 0} {last : B} (m : Outcome A) (f : A → Outcome B)
    → m >>= f ≡ done last
    → (a : A) × (m ≡ done a) × (f a ≡ done last)
bind_done (done a) f h = (a, refl, h)
bind_done (refuses s) f h = absurd (ground (arith, h))
bind_done (fails e) f h = absurd (ground (arith, h))
bind_done goes_on f h = absurd (ground (arith, h))
