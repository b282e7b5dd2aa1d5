-- ===== src/Gdb/Command/Laws.antt =====
-- The registers that GDB writes.
use megumi.Base.{
  ℕ, zero, suc, ◌+◌, ◌-◌, ◌*◌, ◌≤◌, ◌≡◌, ◌≢◌, ◌⊎◌, inl, inr, refl, ap, ◌∙◌, arith, not,
  if◌then◌else◌, ◌==◌, [], ◌∷◌, length, some, Result, ok, err, throws, undefined, Nat-cases,
}
use megumi.Device.Memory.{set_sp}
use megumi.Gdb.Codec.{parse_hex_le}
use megumi.Gdb.Codec.Reading.{le_from_defined, le_from_throws}
use megumi.Gdb.Command.{
  on_device, store_reg, store_sreg, reply_error, write_registers, write_special, write_regs,
  rest_of,
}
use megumi.Gdb.Exec.{Links, pc_of}
use megumi.Gdb.Process.{command, process_packet, answer}
use megumi.Gdb.{Text, Server, Outcome, done, refuses, ◌>>=◌, parsed}

abbrev Settles : Server → Outcome ℕ → Type 0
Settles s r = ((v : ℕ) × (r ≡ done v)) ⊎ (r ≡ refuses s)

parsed-Settles : (s : Server) (r : Result ℕ) → r ≢ err undefined → Settles s (parsed s r)
parsed-Settles s (ok v) h = inl (v, refl)
parsed-Settles s (err throws) h = inr refl
parsed-Settles s (err undefined) h = absurd (h refl)

parse_hex_le-Settles :
    (s : Server) (bytes : ℕ) (buf : Text)
    → 2 * bytes ≤ length buf + 2
    → Settles s (parsed s (parse_hex_le bytes buf))
unfolding parse_hex_le
parse_hex_le-Settles s bytes buf h =
    parsed-Settles s (parse_hex_le bytes buf)
      (le_from_defined (8 * bytes) bytes 0 buf 0 (omega arith))

-- The breakpoints and PC have stayed.
abbrev Kept : Server → Server → Type 0
Kept s t = (t.breakpoints ≡ s.breakpoints) × (pc_of t.device ≡ pc_of s.device)

-- A command that ends in an error.
abbrev Refuses : {A : Type 0} → Server → Outcome A → Type 0
Refuses s r = (t : Server) × (r ≡ refuses t) × Kept s t

length-rest_of : (k : ℕ) (args : Text) → length (rest_of k args) ≡ length args - k
length-rest_of zero args = omega arith
length-rest_of (suc k) [] = omega arith
length-rest_of (suc k) (c ∷ args) = omega (arith, length-rest_of k args)

write_regs-settles :
    (n k : ℕ) (s : Server) (args : Text)
    → n ≤ length args
    → ((t : Server) × (write_regs n k s args ≡ done t) × Kept s t)
      ⊎ Refuses s (write_regs n k s args)
unfolding write_regs
write_regs-settles zero k s args h = inl (s, refl, (refl, refl))
write_regs-settles (suc n) k s args h = elim (parse_hex_le-Settles s 1 args (omega arith)) [
  | inl (v, read) ↦
      let t = on_device s (store_reg s.device k v) in
      rw (read, write_regs)
        (write_regs-settles n (suc k) t (rest_of 1 args) (omega (arith, length-rest_of 1 args)))
  | inr refused ↦ inr (s, rw (refused, write_regs) refl, (refl, refl))
]

-- Four bytes are never read from the last four characters.
pc_refused : (s : Server) (buf : Text) → length buf ≡ 4 → parsed s (parse_hex_le 4 buf) ≡ refuses s
unfolding parse_hex_le
pc_refused s buf h =
    rw (le_from_throws 32 4 0 buf 0 2 (omega arith) (omega arith), parse_hex_le) refl

set_sp-Kept : (s : Server) (sp : ℕ) → Kept s (on_device s (set_sp s.device sp))
unfolding set_sp
set_sp-Kept s sp = (refl, ground arith)

write_special-Refuses :
    (t : Server) (args : Text) → length args ≡ 7 → Refuses t (write_special t args)
unfolding write_special
write_special-Refuses t args h = elim (parse_hex_le-Settles t 1 args (omega arith)) [
  | inr refused ↦ (t, rw (refused, write_special) refl, (refl, refl))
  | inl (status, read) ↦
      let u = on_device t (store_sreg t.device status) in
      elim (parse_hex_le-Settles u 2 (rest_of 1 args) (omega (arith, length-rest_of 1 args))) [
        | inr refused ↦ (u, rw (read, refused, write_special) refl, (refl, refl))
        | inl (sp, read_sp) ↦
            let v = on_device u (set_sp u.device sp) in
            let refused = pc_refused v (rest_of 3 args) (omega (arith, length-rest_of 3 args)) in
            (v, rw (read, read_sp, refused, write_special) refl, set_sp-Kept u sp)
      ]
]

of_length :
    (reply : Outcome (Server × Text)) (s : Server) (args : Text)
    → length args ≡ 39
    → (if not (length args == 39) then refuses s else reply) ≡ reply
of_length reply s args e = ground (arith, e)

not_of_length :
    (reply : Outcome (Server × Text)) (s : Server) (args : Text)
    → length args ≢ 39
    → (if not (length args == 39) then refuses s else reply) ≡ refuses s
not_of_length reply s args ne = ground (arith, ne)

abbrev then_special : Text → Outcome Server → Outcome (Server × Text)
then_special args m = m >>= λ t. write_special t (rest_of 32 args)

write_registers-Refuses : (s : Server) (args : Text) → Refuses s (write_registers s args)
unfolding write_registers
write_registers-Refuses s args = elim (Nat-cases (length args) 39) [
  | inr ne ↦ (s, not_of_length (then_special args (write_regs 32 0 s args)) s args ne, (refl, refl))
  | inl e ↦
      let all = of_length (then_special args (write_regs 32 0 s args)) s args e in
      elim (write_regs-settles 32 0 s args (omega arith)) [
        | inr (t, refused, kept) ↦ (t, all ∙ ap (then_special args) refused, kept)
        | inl (t, written, kept) ↦
            let (u, refused, still) =
              write_special-Refuses t (rest_of 32 args) (omega (arith, length-rest_of 32 args)) in
            (
              u,
              all ∙ ap (then_special args) written ∙ refused,
              (still.0 ∙ kept.0, still.1 ∙ kept.1),
            )
      ]
]

-- `G` is never carried out: whatever follows it, the reply is E00, and PC and the breakpoints stay. (Of the
-- 39 characters that it wants, PC takes the last four, which hold two bytes and not four.)
pub process_packet_no_registers :
    (links : Links) (fuel : ℕ) (s : Server) (args : Text)
    → (t : Server) × (process_packet links fuel s (71 ∷ args) ≡ done (t, some reply_error))
      × (t.breakpoints ≡ s.breakpoints)
      × (pc_of t.device ≡ pc_of s.device)
unfolding process_packet command
process_packet_no_registers links fuel s args =
    let (t, refused, kept) = write_registers-Refuses s args in
    (t, ap answer refused, kept.0, kept.1)
