-- ===== src/Cpu/Delay.antt =====
-- The load delay and the branch delay, as two instructions in a row show them.
use cpp_station.Prelude.{
  ℕ, ◌+◌, ◌%◌, ◌^◌, ◌≡◌, ◌≢◌, refl, false, ◌==◌, ==_true, if◌then◌else◌, arith,
}
use cpp_station.Outcome.{ok}
use cpp_station.Bus.Access
use cpp_station.Cpu.State.{Cpu, Machine, reg, set_reg}
use cpp_station.Cpu.Instruction.{function, t}
use cpp_station.Cpu.Memory.{is_isolated, address, delay_load, op_lw}
use cpp_station.Cpu.Alu.{op_sll}
use cpp_station.Cpu.Decode.{lw, sll, decode, decode_and_execute, execute}
use cpp_station.Cpu.Step.{advance, retire, run_next_instruction}

-- An instruction reads the registers as they were, while the pending load is in its output registers.
pub advance_lem :
    (c : Cpu) (k : ℕ)
    → ((advance c).pc ≡ c.next_pc)
      × ((advance c).next_pc ≡ (c.next_pc + 4) % 2 ^ 32)
      × (reg (advance c) k ≡ reg c k)
      × ((advance c).out_regs k
          ≡ (if k == 0 then 0 else if c.load_reg_idx == k then c.load_reg else c.out_regs k))
      × ((advance c).load_reg_idx ≡ 0)
      × ((advance c).delay_slot ≡ c.branch)
      × ((advance c).branch ≡ false)
unfolding advance set_reg
advance_lem c k = (refl, refl, refl, ground arith, refl, refl, refl)

decode-lw : (i : ℕ) → function i ≡ 0b100011 → decode i ≡ lw
unfolding decode
decode-lw i h = ground arith

decode-nop : decode 0 ≡ sll
unfolding decode
decode-nop = refl

-- A step whose instruction ends normally.
pub run_next_instruction-ok :
    (fuel : ℕ) (m m' : Machine) (i : ℕ)
    → m.cpu.pc % 4 ≡ 0
    → Access.load32 m.bus m.cpu.pc ≡ ok i
    → execute fuel
        (decode i)
        (record m { cpu = advance (record (m.cpu) { current_pc = m.cpu.pc }) })
        i
      ≡ ok m'
    → run_next_instruction fuel m ≡ ok (record m' { cpu = retire m'.cpu })
unfolding run_next_instruction decode_and_execute
run_next_instruction-ok fuel m m' i al fetch run = rw (==_true (m.cpu.pc % 4) 0 al, fetch, run) refl

execute-lw :
    (fuel : ℕ) (m : Machine) (i v : ℕ)
    → is_isolated m.cpu ≡ false
    → Access.load32 m.bus (address m.cpu i) ≡ ok v
    → execute fuel lw m i ≡ ok (record m { cpu = delay_load m.cpu (t i) v })
unfolding execute op_lw
execute-lw fuel m i v live e = rw (live, e) refl

-- LW with a NOP after it, both fetched at aligned addresses, with no other load pending on the
-- register and the cache not isolated: after the LW the register has its old value, and after the
-- NOP the loaded one.
pub lw_delay :
    (fuel : ℕ) (m : Machine) (i v : ℕ)
    → m.cpu.pc % 4 ≡ 0
    → m.cpu.next_pc % 4 ≡ 0
    → Access.load32 m.bus m.cpu.pc ≡ ok i
    → function i ≡ 0b100011
    → t i ≢ 0
    → is_isolated m.cpu ≡ false
    → m.cpu.load_reg_idx ≢ t i
    → Access.load32 m.bus (address m.cpu i) ≡ ok v
    → Access.load32 m.bus m.cpu.next_pc ≡ ok 0
    → (m1 : Machine) × (m2 : Machine) × (run_next_instruction fuel m ≡ ok m1)
      × (reg m1.cpu (t i) ≡ m.cpu.out_regs (t i))
      × (run_next_instruction fuel m1 ≡ ok m2)
      × (reg m2.cpu (t i) ≡ v)
      × (m2.cpu.pc ≡ (m.cpu.next_pc + 4) % 2 ^ 32)
unfolding advance retire delay_load set_reg
lw_delay fuel m i v al al' fetch op ne live idle load next =
    let c0 : Cpu = record (m.cpu) { current_pc = m.cpu.pc } in
    let ready : Machine = record m { cpu = advance c0 } in
    let loaded : Machine = record ready { cpu = delay_load (advance c0) (t i) v } in
    let m1 : Machine = record loaded { cpu = retire loaded.cpu } in
    let first : run_next_instruction fuel m ≡ ok m1 =
      run_next_instruction-ok fuel m loaded i al fetch
        (rw (decode-lw i op) (execute-lw fuel ready i v live load)) in
    let c1 : Cpu = record (m1.cpu) { current_pc = m1.cpu.pc } in
    let done : Machine = record m1 { cpu = op_sll (advance c1) 0 } in
    let m2 : Machine = record done { cpu = retire done.cpu } in
    let second : run_next_instruction fuel m1 ≡ ok m2 =
      run_next_instruction-ok fuel m1 done 0 al' next (unfold execute in rw decode-nop refl) in
    (m1, m2, first, ground arith, second, (unfold op_sll in ground arith), (unfold op_sll in refl))
