-- ===== src/Examples/Processor.antt =====
-- Concrete instructions at which the theorems on the processor apply.
use cpp_station.Prelude.{◌≡◌, ◌≢◌, refl, true, ◌==◌, if◌then◌else◌, arith}
use cpp_station.Prelude.Int.{pos, ◌≤ℤ◌}
use cpp_station.Word.{signed32}
use cpp_station.Outcome.{ok, Ensures}
use cpp_station.Memory.Map.{mask_region}
use cpp_station.Memory.Ram.{IsBytes}
use cpp_station.Cpu.State.{Machine, reg, sys_call}
use cpp_station.Cpu.Decode.{decode, jal, subu, syscall}
use cpp_station.Cpu.Assembly.{Fields, Fit, assemble, HasFields, decode-assemble}
use cpp_station.Cpu.Arithmetic.{difference, three_registers, subu_row, signed16}
use cpp_station.Cpu.Arithmetic.Fetched.{Retires, run_next_instruction-Retires}
use cpp_station.Cpu.Step.{run_next_instruction, run_instructions}
use cpp_station.Bus.Access
use cpp_station.Memory.Ram
use cpp_station.Memory.Bytes.{join32}
use cpp_station.Cpu.Branch.{op_beq, op_bne, op_bgtz, op_blez, op_bxx}
use cpp_station.Cpu.Jumps.{direct_linked, jal_row, HasJumped, run_next_instruction-HasJumped}
use cpp_station.Cpu.Jumps.DelaySlot.{LandsAfterSlot, run_instructions-LandsAfterSlot}
use cpp_station.Cpu.Traps.{syscall_row, HasTrapped, run_next_instruction-HasTrapped}
use cpp_station.Cpu.Targets.{BranchesIf, HasSign, branches_lem}
use cpp_station.Cpu.Memory.{op_lb, op_lbu, op_lh, op_lhu, op_lw, op_sw, op_sh, op_sb}
use cpp_station.Cpu.Unaligned.{op_swl, op_swr}
use cpp_station.Cpu.Loads.{Loads, signed8, load_values_lem, KeepsBus, stores_isolated}
use cpp_station.Cpu.Stores.{Stores, store_values_lem}
use cpp_station.Examples.Runs.{machine}

-- `subu r3, r1, r2`
abbrev fields : Fields
fields = record { rs = 1; rt = 2; rd = 3; amount = 0; low = 0 }

fields-Fit : Fit fields
fields-Fit = record {
  rs_fits = omega arith;
  rt_fits = omega arith;
  rd_fits = omega arith;
  amount_fits = omega arith;
  low_fits = omega arith;
}

decode-assemble_example :
    (decode (assemble subu fields) ≡ subu) × HasFields (assemble subu fields) 0 fields 0x23
decode-assemble_example = decode-assemble subu fields fields-Fit (ground arith)

-- The same instruction at 0, with 7 in R1 and 9 in R2.
abbrev fetching : Machine
fetching = record machine {
  cpu = record machine.cpu { regs = λ k. if k == 1 then 7 else if k == 2 then 9 else 0 };
  bus = record machine.bus {
    ram = record {
      cells = λ k. if k == 0 then 0x23 else if k == 1 then 0x18 else if k == 2 then 0x22 else 0;
    };
  };
}

fetched_word : Access.load32 fetching.bus 0 ≡ ok (assemble subu fields)
unfolding Access.load32 mask_region Ram.load32 join32 assemble
fetched_word = refl

run_next_instruction-Retires_example :
    (m' : Machine) × (run_next_instruction 1 fetching ≡ ok m')
    × Retires difference three_registers fetching (assemble subu fields) m'
run_next_instruction-Retires_example =
    run_next_instruction-Retires subu_row 1 fetching fields fields-Fit (omega arith) fetched_word
      (omega arith) (omega arith)

-- `jal` at 0.
abbrev jumping : Machine
jumping = record machine {
  bus = record machine.bus {
    ram = record {
      cells = λ k. if k == 1 then 0x18 else if k == 2 then 0x22 else if k == 3 then 0x0c else 0;
    };
  };
}

jal_word : Access.load32 jumping.bus 0 ≡ ok (assemble jal fields)
unfolding Access.load32 mask_region Ram.load32 join32 assemble
jal_word = refl

run_next_instruction-HasJumped_example :
    (m' : Machine) × (run_next_instruction 1 jumping ≡ ok m')
    × HasJumped direct_linked jumping (assemble jal fields) m'
run_next_instruction-HasJumped_example =
    run_next_instruction-HasJumped jal_row 1 jumping fields fields-Fit (omega arith) jal_word

run_instructions-LandsAfterSlot_example :
    Ensures
      (LandsAfterSlot direct_linked jumping (assemble jal fields))
      (run_instructions 1 2 jumping)
run_instructions-LandsAfterSlot_example =
    run_instructions-LandsAfterSlot jal_row 1 jumping fields fields-Fit (omega arith) (omega arith)
      refl jal_word

-- `syscall` at 0.
abbrev calling : Machine
calling = record machine {
  bus = record machine.bus { ram = record { cells = λ k. if k == 0 then 0x0c else 0 } };
}

syscall_word : Access.load32 calling.bus 0 ≡ ok 0x0c
unfolding Access.load32 mask_region Ram.load32 join32
syscall_word = refl

decode_syscall : decode 0x0c ≡ syscall
unfolding decode
decode_syscall = refl

run_next_instruction-HasTrapped_example :
    (m' : Machine) × (run_next_instruction 1 calling ≡ ok m') × HasTrapped sys_call calling m'
run_next_instruction-HasTrapped_example =
    run_next_instruction-HasTrapped syscall_row 1 calling 0x0c (omega arith) syscall_word
      decode_syscall

branches_lem_example :
    BranchesIf
      (reg machine.cpu 0 ≡ reg machine.cpu 1)
      machine.cpu
      0x10010004
      (op_beq machine.cpu 0x10010004)
    × BranchesIf
        (reg machine.cpu 0 ≢ reg machine.cpu 1)
        machine.cpu
        0x10010004
        (op_bne machine.cpu 0x10010004)
    × BranchesIf (pos 1 ≤ℤ signed32 0) machine.cpu 0x10010004 (op_bgtz machine.cpu 0x10010004)
    × BranchesIf (signed32 0 ≤ℤ pos 0) machine.cpu 0x10010004 (op_blez machine.cpu 0x10010004)
    × BranchesIf (HasSign true 0) machine.cpu 0x10010004 (op_bxx machine.cpu 0x10010004)
branches_lem_example = branches_lem machine.cpu 0x10010004 (omega arith) (omega arith)

machine-IsBytes : IsBytes machine.bus.ram
machine-IsBytes i = ground arith

-- `lw r4, 16(r0)`: the RAM has the byte 0x2a there and zeroes after it.
load_values_lem_example :
    Loads machine 0x8c040010 (λ v. signed32 v ≡ signed8 0x2a) (op_lb machine 0x8c040010)
    × Loads machine 0x8c040010 (λ v. v ≡ 0x2a) (op_lbu machine 0x8c040010)
    × Loads machine 0x8c040010 (λ v. signed32 v ≡ signed16 0x2a) (op_lh machine 0x8c040010)
    × Loads machine 0x8c040010 (λ v. v ≡ 0x2a) (op_lhu machine 0x8c040010)
    × Loads machine 0x8c040010 (λ v. v ≡ 0x2a) (op_lw machine 0x8c040010)
unfolding mask_region
load_values_lem_example =
    load_values_lem machine 0x8c040010 16 refl refl (omega arith) refl machine-IsBytes

-- Bit 16 of the status register is set.
abbrev isolated : Machine
isolated = record machine { cpu = record machine.cpu { sr = 0x10000 } }

stores_isolated_example :
    KeepsBus isolated (op_sw 1 isolated 0xac040010)
    × KeepsBus isolated (op_sh isolated 0xac040010)
    × KeepsBus isolated (op_sb isolated 0xac040010)
    × KeepsBus isolated (op_swl 1 isolated 0xac040010)
    × KeepsBus isolated (op_swr 1 isolated 0xac040010)
stores_isolated_example = stores_isolated 1 isolated 0xac040010 refl

-- `sw r1, 16(r0)`, with 7 in R1.
store_values_lem_example :
    Stores fetching 16 4 7 (op_sw 1 fetching 0xac010010)
    × Stores fetching 16 2 7 (op_sh fetching 0xac010010)
    × Stores fetching 16 1 7 (op_sb fetching 0xac010010)
unfolding mask_region
store_values_lem_example = store_values_lem 1 fetching 0xac010010 16 refl refl (omega arith) refl
