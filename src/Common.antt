-- ===== src/Common.antt =====
-- common.h: interrupt levels, bit fields, little-endian registers and signed conversions.
pub mod Laws
use megumi.Base.{
  ℕ, ◌+◌, ◌-◌, ◌*◌, ◌/◌, ◌^◌, Bool, true, false, List, set, get_or, if◌then◌else◌, nonzero, u8, u16,
  ◌<<<◌, ◌>>>◌, ◌&&&◌, ◌|||◌,
}

-- enum IntLvl.
pub data IntLvl : Type 0 where
  none lo med hi nmi : IntLvl

-- The number of a level in the enumeration.
abbrev pub lvl_code : IntLvl → ℕ
lvl_code none = 0
lvl_code lo = 1
lvl_code med = 2
lvl_code hi = 3
lvl_code nmi = 8

-- static_cast<IntLvl> of a two-bit field.
abbrev pub lvl_of : ℕ → IntLvl
lvl_of n =
    if nonzero (n &&& 2)
    then (if nonzero (n &&& 1) then hi else med)
    else (if nonzero (n &&& 1) then lo else none)

abbrev pub to_ℕ : Bool → ℕ
to_ℕ true = 1
to_ℕ false = 0

-- What a one-bit BitField stores when it is assigned a number: the argument of operator= is an
-- uint8_t, and the field keeps `!!v`.
abbrev pub flag : ℕ → Bool
flag v = nonzero (u8 v)

-- BitField<B,N>::operator T.
abbrev pub field : ℕ → ℕ → ℕ → ℕ
field b n x = (x >>> b) &&& (2 ^ n - 1)

-- BitField<B,N>::operator=, over the byte `x`; `~` is taken within the byte.
abbrev pub set_field : ℕ → ℕ → ℕ → ℕ → ℕ
set_field b n x v = (x &&& (255 - (2 ^ n - 1) <<< b)) ||| ((v &&& (2 ^ n - 1)) <<< b)

-- The same with N = 1, where the stored bit is `!!v`.
abbrev pub set_bit : ℕ → ℕ → Bool → ℕ
set_bit b x v = (x &&& (255 - 1 <<< b)) ||| (to_ℕ v <<< b)

-- BitField<B>, read as a condition.
abbrev pub has_bit : ℕ → ℕ → Bool
has_bit b x = nonzero ((x >>> b) &&& 1)

-- register_get<16> and register_set<16> at an index of a byte array.
unfoldable pub register_get_16 : List ℕ → ℕ → ℕ
register_get_16 p i = u16 (get_or p i 0 + get_or p (i + 1) 0 <<< 8)

unfoldable pub register_set_16 : List ℕ → ℕ → ℕ → List ℕ
register_set_16 p i v = set (set p i (v &&& 0xff)) (i + 1) ((v >>> 8) &&& 0xff)

-- unsigned_to_signed: the value of the low `nbits` bits in two's complement, as a word of `w` bits.
abbrev pub unsigned_to_signed : ℕ → ℕ → ℕ → ℕ
unsigned_to_signed w nbits v = if nonzero (v &&& 2 ^ (nbits - 1)) then v + 2 ^ w - 2 ^ nbits else v
