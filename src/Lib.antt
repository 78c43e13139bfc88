-- ===== src/Lib.antt =====
-- CppStation, an emulator of the PlayStation: the processor, the bus with its memories and DMA
-- transfers, the DMA controller's registers, the graphics processor, its window and shaders, the keys and
-- the mouse, and the stack trace of a crash.
--
-- How the parts interact: `main` installs the handler of crashes (Backtrace.Handler) and runs
-- instructions (Cpu.Step). An instruction reads and writes the registers of the processor and calls
-- the bus (Bus.Access), which takes the address to a region (Memory.Map) and from there to the RAM,
-- the BIOS, the DMA registers or the GPU. A write to a DMA register may start a transfer
-- (Bus.Transfer), which moves words between the RAM and the GP0 port of the GPU. GP0 commands put
-- vertices in the renderer's queue (Gpu.Renderer). Once, at the start, the renderer opens the window
-- and loads the shaders (Gpu.Opengl.Setup), and `main` asks after every million instructions whether
-- to close (MainLoop).
--
-- Files and sources, all below CppStation/ (headers below CppStation/include/):
--   Word, Word/*          uint8_t, uint16_t and uint32_t as native numbers, and lemmas on masks
--   Outcome               normal end, `panic` of helpers.hpp, undefined behaviour, lack of fuel
--   Memory/Ram, Bytes     memory/ram.cpp: loads and stores, `new_ram` is the constructor
--   Memory/Bios           memory/bios.cpp: `load_from_file` is loadFromFile, over a file as a value
--   Memory/Map            memory/map.cpp: `memory_map` is Map::Map, `mask_region` is maskRegion
--   Dma/Channel           memory/dma.cpp, class Channel
--   Dma/Controller        memory/dma.cpp, class Dma
--   Gpu/State, Status     gpu/gpu.cpp: the registers, the command buffer, status and read
--   Gpu/Gp0, Gp0/Commands gpu/gpu.cpp: gp0 and the gp0… methods
--   Gpu/Gp1               gpu/gpu.cpp: gp1 and the gp1… methods
--   Gpu/Renderer          gpu/opengl/renderer.cpp: pushVertex to display
--   Gpu/Gp0/Interpreter   what the GP0 port does for whole commands, to which gp0 is compared
--   Gpu/Opengl/Shader, Program, Window
--                         gpu/opengl/shader.cpp, shaderProgram.cpp and window.cpp
--   Gpu/Opengl/Setup      gpu/opengl/renderer.cpp: the constructor, init and the destructor
--   Gpu/Opengl/Calls      the calls of OpenGL and GLFW as a history, their answers as a parameter
--   Ui/Input              ui/input.cpp
--   Backtrace             backtrace.cpp: the frames in the report of crit_err_hdlr
--   Backtrace/Handler     backtrace.cpp: crit_err_hdlr and setupSigAct, over the calls of the system
--   Helpers               helpers.hpp: readFile
--   MainLoop              main.cpp: the outer loop of main
--   MainLoop/Program      main.cpp: main to the end of its loop, with Bus::Bus
--   Bus/State, Access     bus.cpp: load32 … store8
--   Bus/Registers         bus.cpp: dmaReg and setDmaReg
--   Bus/Transfer          bus.cpp: doDma, doDmaLinkedList and doDmaBlock
--   Cpu/State             cpu/cpu.cpp: the registers, reg, setReg and exception
--   Cpu/Alu … Coprocessor cpu/cpu.cpp: the op… methods, `op_sw` for opSw and so on
--   Cpu/Decode, Step      cpu/cpu.cpp: decodeAndExecute and runNextInstruction; main.cpp: the loop
-- Of the files that prove, Bus/Ports, Bus/DisplayList, Bus/Blocks, Bus/DmaWindow and Bus/Widths
-- compose the bus with the GPU and the RAM, Gpu/Gp0/Interpreter/Draws has the vertices that commands
-- draw, Bus/Invariant and Bus/Sizes have the invariant of the bus, Cpu/Invariant and the files below
-- it that of the machine, Cpu/Flow and Cpu/Delay the order of the instructions, Gpu/Opengl/Answers,
-- Live, Handles and Lifecycle what OpenGL answers and what it holds. MainLoop/Closing has the
-- end of the loop by the answers of GLFW. Cpu/Assembly puts instruction
-- words together, to which the decoder is compared; Cpu/Arithmetic has a table of what the
-- instructions that compute mean, and below it the comparison; Cpu/Targets, Cpu/Jumps, Cpu/Traps,
-- Cpu/Loads and Cpu/Stores have the branches, the jumps, the exceptions and the accesses to memory. A
-- field or a method keeps its C++ name in lower case with underscores, without the leading m. Examples
-- has concrete inputs.
--
-- State is passed explicitly. A buffer is a function from the index to the byte, and an access outside
-- its size is the outcome `fault`; so are a write past the command buffer or the vertex buffer, an upload of more
-- vertices than the vertex buffer holds, and an overflow of `int` in transferSize. A word is a native number; a w-bit result keeps its `% 2 ^ w`.
-- `Safe P m` says that the outcome `m` is a result with `P` or a panic, and `Ensures P m` that a
-- result, if there is one, has `P`.
--
-- Fuel: the `while (true)` of doDmaLinkedList takes one unit for each packet header, and the `do … while`
-- of main one for each round; both end in `timeout` without it. Every other loop
-- is structural.
--
-- The calls of OpenGL for the set-up and those for drawing are two histories, Gpu.Opengl.Calls and the
-- events of Gpu.Renderer, since neither depends on the other.
--
-- Not modelled: messages on standard output; the arguments of the OpenGL calls that only say how to draw;
-- println of helpers.hpp; result.hpp, a copy of another library; an allocation that fails.
pub mod Prelude
pub mod Word
pub mod Outcome
pub mod Helpers
pub mod MainLoop
pub mod Memory
pub mod Dma
pub mod Gpu
pub mod Bus
pub mod Cpu
pub mod Backtrace
pub mod Ui
pub mod Examples
