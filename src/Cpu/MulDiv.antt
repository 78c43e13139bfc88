-- ===== src/Cpu/MulDiv.antt =====
-- Multiplication, division, and the registers HI and LO.
use cpp_station.Prelude.{ℕ, ◌-◌, ◌*◌, ◌/◌, ◌%◌, ◌^◌, ◌&&◌, ltb, ◌==◌, if◌then◌else◌}
use cpp_station.Prelude.Int.{ℤ, pos, negsuc, ◌*ℤ◌}
use cpp_station.Word.{shr, u32, signed32}
use cpp_station.Cpu.Instruction.{s, t, d}
use cpp_station.Cpu.State.{Cpu, reg, set_reg}

-- The absolute value of an `int32_t`, and a number with its sign changed, on the bits.
abbrev pub magnitude : ℕ → ℕ
magnitude x = if ltb x (2 ^ 31) then x else 2 ^ 32 - x

abbrev pub negate32 : ℕ → ℕ
negate32 x = (2 ^ 32 - x) % 2 ^ 32

-- `n / d` and `n % d` of `int32_t`, on the bits: C++ truncates towards zero, and the remainder has
-- the sign of the dividend.
unfoldable pub quotient32 : ℕ → ℕ → ℕ
quotient32 n d =
    let q = magnitude n / magnitude d in
    if ltb n (2 ^ 31)
    then if ltb d (2 ^ 31) then q else negate32 q
    else if ltb d (2 ^ 31)
    then negate32 q
    else q

unfoldable pub remainder32 : ℕ → ℕ → ℕ
remainder32 n d = let r = magnitude n % magnitude d in if ltb n (2 ^ 31) then r else negate32 r

unfoldable pub op_div : Cpu → ℕ → Cpu
unfolding quotient32 remainder32
op_div c i =
    let n = reg c (s i) in
    let d = reg c (t i) in
    if d == 0
    then record c { hi = n; lo = if ltb n (2 ^ 31) then 0xffffffff else 1 }
    else if n == 0x80000000 && d == 0xffffffff
    then record c { hi = 0; lo = 0x80000000 }
    else record c { hi = remainder32 n d; lo = quotient32 n d }

unfoldable pub op_divu : Cpu → ℕ → Cpu
op_divu c i =
    let n = reg c (s i) in
    let d = reg c (t i) in
    if d == 0 then record c { hi = n; lo = 0xffffffff } else record c { hi = n % d; lo = n / d }

unfoldable pub op_mflo : Cpu → ℕ → Cpu
op_mflo c i = set_reg c (d i) c.lo

unfoldable pub op_mfhi : Cpu → ℕ → Cpu
op_mfhi c i = set_reg c (d i) c.hi

unfoldable pub op_mtlo : Cpu → ℕ → Cpu
op_mtlo c i = record c { lo = reg c (s i) }

unfoldable pub op_mthi : Cpu → ℕ → Cpu
op_mthi c i = record c { hi = reg c (s i) }

-- The product of two `uint64_t`.
unfoldable pub op_multu : Cpu → ℕ → Cpu
op_multu c i =
    let v = reg c (s i) * reg c (t i) % 2 ^ 64 in record c { hi = u32 (shr v 32); lo = u32 v }

-- The bits of an `int64_t`.
abbrev pub to_u64 : ℤ → ℕ
to_u64 (pos n) = n % 2 ^ 64
to_u64 (negsuc n) = 2 ^ 64 - 1 - n % 2 ^ 64

unfoldable pub op_mult : Cpu → ℕ → Cpu
op_mult c i =
    let a = signed32 (reg c (s i)) in
    let b = signed32 (reg c (t i)) in
    let v = to_u64 (a *ℤ b) in record c { hi = u32 (shr v 32); lo = u32 v }
