-- ===== src/Cpu/Memory.antt =====
-- Loads and stores of aligned data. A load is put off: it fills `load_reg`, and the register itself
-- changes one instruction later.
use cpp_station.Prelude.{ℕ, ◌%◌, Bool, ◌==◌, if◌then◌else◌}
use cpp_station.Word.{add32, test_bit, u8, u16, sign_extend8, sign_extend16}
use cpp_station.Outcome.{Outcome, ok, ◌>>=◌}
use cpp_station.Bus.Access
use cpp_station.Cpu.Instruction.{s, t, imm_se}
use cpp_station.Cpu.State.{Cpu, Machine, reg, exception, load_address_error, store_address_error}

-- Bit 16 of the status register: the cache is isolated, and stores are dropped.
abbrev pub is_isolated : Cpu → Bool
is_isolated c = test_bit c.sr 16

-- `reg(s) + imm_se`
abbrev pub address : Cpu → ℕ → ℕ
address c i = add32 (reg c (s i)) (imm_se i)

abbrev pub with_cpu : Machine → Cpu → Machine
with_cpu m c = record m { cpu = c }

unfoldable pub store32 : ℕ → Machine → ℕ → ℕ → Outcome Machine
store32 fuel m addr val =
    if is_isolated m.cpu
    then ok m
    else (Access.store32 fuel m.bus addr val >>= λ b. ok (record m { bus = b }))

unfoldable pub store16 : Machine → ℕ → ℕ → Outcome Machine
store16 m addr val =
    if is_isolated m.cpu
    then ok m
    else (Access.store16 m.bus addr val >>= λ b. ok (record m { bus = b }))

unfoldable pub store8 : Machine → ℕ → ℕ → Outcome Machine
store8 m addr val =
    if is_isolated m.cpu
    then ok m
    else (Access.store8 m.bus addr val >>= λ b. ok (record m { bus = b }))

-- `mLoadRegIdx.val = t.val; mLoadReg = v;`
unfoldable pub delay_load : Cpu → ℕ → ℕ → Cpu
delay_load c index v = record c { load_reg_idx = index; load_reg = v }

unfoldable pub op_sw : ℕ → Machine → ℕ → Outcome Machine
op_sw fuel m i =
    let c = m.cpu in
    if is_isolated c
    then ok m
    else if address c i % 4 == 0
    then store32 fuel m (address c i) (reg c (t i))
    else ok (with_cpu m (exception c store_address_error))

unfoldable pub op_sh : Machine → ℕ → Outcome Machine
op_sh m i =
    let c = m.cpu in
    if address c i % 2 == 0
    then store16 m (address c i) (u16 (reg c (t i)))
    else ok (with_cpu m (exception c store_address_error))

unfoldable pub op_sb : Machine → ℕ → Outcome Machine
op_sb m i = let c = m.cpu in store8 m (address c i) (u8 (reg c (t i)))

-- There is no test of the alignment.
unfoldable pub op_lw : Machine → ℕ → Outcome Machine
op_lw m i =
    let c = m.cpu in
    if is_isolated c
    then ok m
    else (Access.load32 m.bus (address c i) >>= λ v. ok (with_cpu m (delay_load c (t i) v)))

unfoldable pub op_lb : Machine → ℕ → Outcome Machine
op_lb m i =
    let c = m.cpu in
    Access.load8 m.bus (address c i) >>= λ v. ok (with_cpu m (delay_load c (t i) (sign_extend8 v)))

unfoldable pub op_lbu : Machine → ℕ → Outcome Machine
op_lbu m i =
    let c = m.cpu in
    Access.load8 m.bus (address c i) >>= λ v. ok (with_cpu m (delay_load c (t i) v))

unfoldable pub op_lhu : Machine → ℕ → Outcome Machine
op_lhu m i =
    let c = m.cpu in
    if address c i % 2 == 0
    then (Access.load16 m.bus (address c i) >>= λ v. ok (with_cpu m (delay_load c (t i) v)))
    else ok (with_cpu m (exception c load_address_error))

-- There is no test of the alignment.
unfoldable pub op_lh : Machine → ℕ → Outcome Machine
op_lh m i =
    let c = m.cpu in
    Access.load16 m.bus (address c i) >>= λ v.
    ok (with_cpu m (delay_load c (t i) (sign_extend16 v)))
