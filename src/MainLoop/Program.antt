-- ===== src/MainLoop/Program.antt =====
-- The whole of `main`, main.cpp, to the end of its loop: the handler of crashes, the constructors of
-- the bus and the GPU, and the loop.
use cpp_station.Prelude.{
  ℕ, ◌*◌, ◌<◌, ◌≡◌, refl, ap, ◌∙◌, false, suc, Bool-cases, inl, inr, Option, some, List, ◌==◌,
}
use cpp_station.Outcome.{Outcome, ok, ◌>>=◌, Ensures}
use cpp_station.Backtrace.{Bytes}
use cpp_station.Backtrace.Handler.{System, Installation, installed, not_installed, setup_sig_act}
use cpp_station.Memory.Bios.{File, boot_image, Bios, bios_size, load_from_file, new_bios}
use cpp_station.Memory.Ram.{new_ram}
use cpp_station.Dma.Controller.{new_dma}
use cpp_station.Gpu.State.{new_gpu}
use cpp_station.Gpu.Renderer.{Renderer, Vertex, new_renderer}
use cpp_station.Gpu.Opengl.Calls.{Driver}
use cpp_station.Gpu.Opengl.Shader.{Shader}
use cpp_station.Gpu.Opengl.Window.{Window, new_window}
use cpp_station.Gpu.Opengl.Setup.{Graphics, new_graphics, init}
use cpp_station.Bus.State.{Bus, new_bus}
use cpp_station.Cpu.State.{Machine, new_cpu}
use cpp_station.Cpu.Step.{run_instructions}
use cpp_station.Cpu.Invariant.MemoryOps.{IsMachine}
use cpp_station.Cpu.Invariant.Boot.{boot-IsMachine}
use cpp_station.MainLoop.{main_loop, main_loop-run_instructions}
use cpp_station.MainLoop.Closing.{AsksIn, AsksIn-ClosesAfter, init-should_close}

-- What the program finds at its start: the system, the file of the BIOS with `errno`, the paths of the
-- shaders, and the memory that is not initialised.
pub record World : Type 0 where
  pub system : System
  pub driver : Driver
  pub bios_file : Option File
  pub errno : ℕ
  pub vertex_file : List ℕ
  pub fragment_file : List ℕ
  pub bios_buffer : ℕ → ℕ
  pub local_shader : Shader
  pub window : Window
  pub vao : ℕ
  pub vbo : ℕ
  pub vertex : Vertex

-- What the constructors of the renderer and of its window leave.
abbrev pub constructed : World → Graphics
constructed w = new_graphics w.window w.vao w.vbo

-- `Bus::Bus` with the members before its body: the constructors of the renderer and of its window, the
-- constructor of the GPU, which calls `init`, and then the image of the BIOS is read.
unfoldable pub start : World → Outcome (Machine × Graphics)
start w = init w.driver w.local_shader w.vertex_file w.fragment_file (constructed w) >>= λ g.
    new_bus w.bios_file w.errno w.bios_buffer (new_renderer w.vertex) >>= λ b.
    ok (record { cpu = new_cpu; bus = b }, g)

-- Without the handler the program does not start: the signal, and its name.
pub data Ending : Type 0 where
  not_started : ℕ → Bytes → Ending
  ran : Outcome Machine → Ending

run_from : World → ℕ → ℕ → Installation → Ending
unfolding start
run_from w rounds fuel (not_installed signal name) = not_started signal name
run_from w rounds fuel installed =
    ran (start w >>= λ s. main_loop rounds fuel w.driver s.1.window s.1.calls s.0)

unfoldable pub run_main : World → ℕ → ℕ → Ending
unfolding run_from
run_main w rounds fuel = run_from w rounds fuel (setup_sig_act w.system)

constructed-should_close : (w : World) → (constructed w).window.should_close ≡ false
unfolding new_graphics new_window
constructed-should_close w = refl

boot_image-ok :
    (f : File) (errno : ℕ) (b : Bios)
    → boot_image (some f) errno b ≡ ok (load_from_file (some f) errno b).1
unfolding boot_image load_from_file
boot_image-ok f errno b = elim (Bool-cases (f.size == bios_size)) [
  | inl e ↦ rw e refl
  | inr e ↦ rw e refl
]

new_bus-ok :
    (f : File) (errno : ℕ) (garbage : ℕ → ℕ) (r : Renderer)
    → (b : Bus) × (new_bus (some f) errno garbage r ≡ ok b)
unfolding new_bus
new_bus-ok f errno garbage r = (
  record {
    ram = new_ram;
    bios = (load_from_file (some f) errno (new_bios garbage)).1;
    dma = new_dma;
    gpu = new_gpu r;
  },
  rw (boot_image-ok f errno (new_bios garbage)) refl,
)

-- The whole of main to the end of its loop, where the handler of crashes is installed, the
-- renderer is set up, the file of the BIOS can be opened and its bytes and those of the buffer
-- for it are bytes: the constructors end normally; whatever the memory of the window held before
-- its constructor, if GLFW first answers in round n, counted from 0, that the window is to close,
-- or in round 0 if there is no window, then the loop ends with that round, given fuel for more
-- than n rounds, and the outcome of the program is that of (n + 1) * 1000000 instructions from
-- the machine that the constructors leave. If they end normally the machine is well-formed.
pub run_main-run_instructions :
    (w : World) (n rounds fuel : ℕ) (f : File) (g : Graphics)
    → setup_sig_act w.system ≡ installed
    → w.bios_file ≡ some f
    → ((i : ℕ) → f.bytes i < 256)
    → ((i : ℕ) → w.bios_buffer i < 256)
    → init w.driver w.local_shader w.vertex_file w.fragment_file (constructed w) ≡ ok g
    → n < rounds
    → AsksIn n w.driver g.window.native_window g.calls
    → (b : Bus) × (new_bus w.bios_file w.errno w.bios_buffer (new_renderer w.vertex) ≡ ok b)
      × (run_main w rounds fuel
          ≡ ran (run_instructions fuel (suc n * 1000000) (record { cpu = new_cpu; bus = b })))
      × Ensures IsMachine
          (run_instructions fuel (suc n * 1000000) (record { cpu = new_cpu; bus = b }))
unfolding run_main run_from start
run_main-run_instructions w n rounds fuel f g handler file bytes buffer opened enough asked =
    let (b, built) = new_bus-ok f w.errno w.bios_buffer (new_renderer w.vertex) in
    let m : Machine = record { cpu = new_cpu; bus = b } in
    let flag =
      init-should_close w.driver w.local_shader w.vertex_file w.fragment_file (constructed w) in
    let closes =
      AsksIn-ClosesAfter n w.driver g.window g.calls
        ((rw opened at flag) ∙ constructed-should_close w) asked in
    let run = main_loop-run_instructions n rounds fuel w.driver g.window g.calls m enough closes in
    let valid =
      boot-IsMachine f w.errno w.bios_buffer w.vertex fuel (suc n * 1000000) bytes buffer in
    (b, rw file built, rw (handler, opened, file, built) (ap ran run), rw built at valid)
