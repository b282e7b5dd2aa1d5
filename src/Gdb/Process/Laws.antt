-- ===== src/Gdb/Process/Laws.antt =====
-- The breakpoints that GDB sets and clears.
use megumi.Base.{
  inl, ℕ, ◌/◌, ◌≡◌, refl, arith, true, false, List, [], ◌∷◌, ◌++◌, All, ◌<◌, ok, some,
}
use megumi.Gdb.Codec.{parse_hex_be_until}
use megumi.Gdb.Codec.Laws.{
  digits, value_from, IsDelimiter, parse_hex_be_until-digits, parse_hex_be_until-all_digits,
}
use megumi.Gdb.Command.{reply_ok, reply_error}
use megumi.Gdb.Exec.{Links, has_breakpoint}
use megumi.Gdb.Process.{
  breakpoint_of, insert_breakpoint, remove_breakpoint, command, process_packet, erase_one,
}
use megumi.Gdb.{Text, Server, done}

-- A breakpoint command that is read: its type and address do not depend on the breakpoints set.
breakpoint_of_same :
    (s : Server) (bs : List ℕ) (args : Text) (r : ℕ × ℕ)
    → breakpoint_of s args ≡ done r
    → breakpoint_of (record s { breakpoints = bs }) args ≡ done r
unfolding breakpoint_of
breakpoint_of_same s bs args r h = ground (arith, h)

-- The arguments of Z and z for a software breakpoint: `0,address,length`.
abbrev pub breakpoint_text : List ℕ → List ℕ → Text
breakpoint_text ds ks = digits (0 ∷ []) ++ (44 ∷ (digits ds ++ (44 ∷ digits ks)))

comma-IsDelimiter : IsDelimiter 44
comma-IsDelimiter = inl (omega arith)

breakpoint_of-parsed :
    (s : Server) (args args1 args2 args3 : Text) (kind addr len : ℕ)
    → parse_hex_be_until 44 args ≡ ok (kind, args1)
    → parse_hex_be_until 44 args1 ≡ ok (addr, args2)
    → parse_hex_be_until 0 args2 ≡ ok (len, args3)
    → breakpoint_of s args ≡ done (kind, addr)
unfolding breakpoint_of
breakpoint_of-parsed s args args1 args2 args3 kind addr len h k l = rw (h, k, l, breakpoint_of) refl

breakpoint_of-text :
    (s : Server) (ds ks : List ℕ)
    → All (λ d. d < 16) ds
    → All (λ d. d < 16) ks
    → breakpoint_of s (breakpoint_text ds ks) ≡ done (0, value_from 0 ds)
breakpoint_of-text s ds ks small short =
    breakpoint_of-parsed s (breakpoint_text ds ks) (digits ds ++ (44 ∷ digits ks)) (digits ks) [] 0
      (value_from 0 ds) (value_from 0 ks)
      (parse_hex_be_until-digits 44 (0 ∷ []) (digits ds ++ (44 ∷ digits ks)) comma-IsDelimiter
        (omega arith, _))
      (parse_hex_be_until-digits 44 ds (digits ks) comma-IsDelimiter small)
      (parse_hex_be_until-all_digits ks short)

has_breakpoint-first : (b : ℕ) (bs : List ℕ) → has_breakpoint (b ∷ bs) b ≡ true
has_breakpoint-first b bs = ground arith

erase_one-first : (b : ℕ) (bs : List ℕ) → erase_one b (b ∷ bs) ≡ bs
erase_one-first b bs = ground arith

insert_then_remove :
    (links : Links) (fuel : ℕ) (s : Server) (args : Text) (addr : ℕ)
    → breakpoint_of s args ≡ done (0, addr)
    → (t : Server) × (process_packet links fuel s (90 ∷ args) ≡ done (t, some reply_ok))
      × (t ≡ record s { breakpoints = addr / 2 ∷ s.breakpoints })
      × (process_packet links fuel t (122 ∷ args) ≡ done (s, some reply_ok))
unfolding process_packet command insert_breakpoint remove_breakpoint
insert_then_remove links fuel s args addr h =
    let set = addr / 2 ∷ s.breakpoints in
    (
      record s { breakpoints = set },
      rw (h, insert_breakpoint) refl,
      refl,
      rw
          (
            breakpoint_of_same s set args (0, addr) h,
            has_breakpoint-first (addr / 2) s.breakpoints,
            erase_one-first (addr / 2) s.breakpoints,
            remove_breakpoint,
          )
          refl,
    )

-- `Z0,address,length` adds half of the address, a word address, to the breakpoints and answers OK, and
-- `z0,address,length` then brings back the state before it and answers OK, whatever digits the address
-- and the length are written with.
pub process_packet_breakpoint :
    (links : Links) (fuel : ℕ) (s : Server) (ds ks : List ℕ)
    → All (λ d. d < 16) ds
    → All (λ d. d < 16) ks
    → (t : Server) × (process_packet links fuel s (90 ∷ breakpoint_text ds ks)
        ≡ done (t, some reply_ok))
      × (t ≡ record s { breakpoints = value_from 0 ds / 2 ∷ s.breakpoints })
      × (process_packet links fuel t (122 ∷ breakpoint_text ds ks) ≡ done (s, some reply_ok))
process_packet_breakpoint links fuel s ds ks small short =
    insert_then_remove links fuel s (breakpoint_text ds ks) (value_from 0 ds)
      (breakpoint_of-text s ds ks small short)

-- `z0,address,length` without a breakpoint at the address is answered by E00, and changes nothing.
process_packet_no_breakpoint :
    (links : Links) (fuel : ℕ) (s : Server) (ds ks : List ℕ)
    → All (λ d. d < 16) ds
    → All (λ d. d < 16) ks
    → has_breakpoint s.breakpoints (value_from 0 ds / 2) ≡ false
    → process_packet links fuel s (122 ∷ breakpoint_text ds ks) ≡ done (s, some reply_error)
unfolding process_packet command remove_breakpoint
process_packet_no_breakpoint links fuel s ds ks small short missing =
    rw (breakpoint_of-text s ds ks small short, missing, remove_breakpoint) refl
