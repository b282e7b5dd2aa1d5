-- ===== src/Block/Tc/Laws.antt =====
-- The 16-bit registers of the timer through TEMP.
use megumi.Base.{
  ℕ, ◌+◌, ◌*◌, ◌/◌, ◌<◌, ◌≡◌, refl, arith, bit_or_shift, ok, Result, ◌>>=◌, ◌|||◌, ◌<<<◌, ◌&&&◌,
  ◌>>>◌,
}
use megumi.Block.Tc.{Tc, get_io, set_io, value_write, read_value}
use megumi.Common.Laws.{bit_and_byte}

-- The register addresses of the words: CNT, PER, CCA to CCD.
pub data Word : Type 0 where
  cnt per cca ccb ccc ccd : Word

abbrev pub address : Word → ℕ
address cnt = 0x20
address per = 0x26
address cca = 0x28
address ccb = 0x2a
address ccc = 0x2c
address ccd = 0x2e

abbrev pub held : Word → Tc → ℕ
held cnt t = t.cnt
held per t = t.value.per
held cca t = t.value.cca
held ccb t = t.value.ccb
held ccc t = t.value.ccc
held ccd t = t.value.ccd

-- The program's access to a word: the low byte, then the high byte.
abbrev pub write_word : Word → ℕ → ℕ → Tc → Result Tc
write_word w low high t = do
  (t', _) ← set_io t (address w) low
  (t'', _) ← set_io t' (address w + 1) high
  ok t''

abbrev pub read_word : Word → Tc → Result ((ℕ × ℕ) × Tc)
read_word w t = do
  (low, t') ← get_io t (address w)
  (high, t'') ← get_io t' (address w + 1)
  ok ((low, high), t'')

joined : (low high : ℕ) → low < 256 → (low ||| (high <<< 8)) ≡ low + high * 256
joined low high h = bit_or_shift 8 low high h

low_of : (low high : ℕ) → low < 256 → ((low ||| (high <<< 8)) &&& 0xff) ≡ low
low_of low high h = rw (joined low high h, bit_and_byte (low + high * 256)) (omega arith)

high_of : (low high : ℕ) → low < 256 → high < 256 → (((low ||| (high <<< 8)) >>> 8) &&& 0xff) ≡ high
high_of low high h k = rw (joined low high h, bit_and_byte ((low + high * 256) / 256)) (omega arith)

-- A word of CNT, PER or CCA to CCD that is written low byte first, as two bytes, holds both bytes,
-- and the two bytes are read back low byte first.
pub read_word-write_word :
    (w : Word) (low high : ℕ) (t : Tc)
    → low < 256
    → high < 256
    → (t' : Tc) × (write_word w low high t ≡ ok t')
      × (held w t' ≡ low + high * 256)
      × (t'' : Tc) × (read_word w t' ≡ ok ((low, high), t''))
unfolding set_io get_io value_write read_value
read_word-write_word cnt low high t h k = (
  record t { temp = low; cnt = low ||| (high <<< 8) },
  refl,
  joined low high h,
  record t { temp = ((low ||| (high <<< 8)) >>> 8) &&& 0xff; cnt = low ||| (high <<< 8) },
  rw (low_of low high h, high_of low high h k) refl,
)
read_word-write_word per low high t h k = (
  record t { temp = low; value = record (t.value) { per = low ||| (high <<< 8) } },
  refl,
  joined low high h,
  record t {
    temp = ((low ||| (high <<< 8)) >>> 8) &&& 0xff;
    value = record (t.value) { per = low ||| (high <<< 8) };
  },
  rw (low_of low high h, high_of low high h k) refl,
)
read_word-write_word cca low high t h k = (
  record t { temp = low; value = record (t.value) { cca = low ||| (high <<< 8) } },
  refl,
  joined low high h,
  record t {
    temp = ((low ||| (high <<< 8)) >>> 8) &&& 0xff;
    value = record (t.value) { cca = low ||| (high <<< 8) };
  },
  rw (low_of low high h, high_of low high h k) refl,
)
read_word-write_word ccb low high t h k = (
  record t { temp = low; value = record (t.value) { ccb = low ||| (high <<< 8) } },
  refl,
  joined low high h,
  record t {
    temp = ((low ||| (high <<< 8)) >>> 8) &&& 0xff;
    value = record (t.value) { ccb = low ||| (high <<< 8) };
  },
  rw (low_of low high h, high_of low high h k) refl,
)
read_word-write_word ccc low high t h k = (
  record t { temp = low; value = record (t.value) { ccc = low ||| (high <<< 8) } },
  refl,
  joined low high h,
  record t {
    temp = ((low ||| (high <<< 8)) >>> 8) &&& 0xff;
    value = record (t.value) { ccc = low ||| (high <<< 8) };
  },
  rw (low_of low high h, high_of low high h k) refl,
)
read_word-write_word ccd low high t h k = (
  record t { temp = low; value = record (t.value) { ccd = low ||| (high <<< 8) } },
  refl,
  joined low high h,
  record t {
    temp = ((low ||| (high <<< 8)) >>> 8) &&& 0xff;
    value = record (t.value) { ccd = low ||| (high <<< 8) };
  },
  rw (low_of low high h, high_of low high h k) refl,
)
