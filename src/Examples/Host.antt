-- ===== src/Examples/Host.antt =====
-- Concrete inputs for the theorems on the window, the shaders, the keys and the stack trace.
use cpp_station.Prelude.{
  ℕ, ◌≡◌, refl, Bool, true, false, List, [], ◌∷◌, none, some, ◌==◌, if◌then◌else◌, arith,
}
use cpp_station.Prelude.Int.{pos, negsuc}
use cpp_station.Gpu.Opengl.Calls.{Call, Driver, live, poll_events, init_library, load_functions}
use cpp_station.Gpu.Opengl.Shader.{Shader, ShaderType, to_gl_shader_type, vertex, fragment}
use cpp_station.Gpu.Opengl.Program.{compile_and_link}
use cpp_station.Gpu.Opengl.Window.{Window, should_close, install_main_callbacks}
use cpp_station.Gpu.Opengl.Setup.{
  Graphics, new_graphics, init, open_window, load_program, make_buffers,
}
use cpp_station.Gpu.Opengl.Answers.{fragment_failed, verdict}
use cpp_station.Gpu.Opengl.Handles.{IsDriver, IsFresh, IsMade, Ends, compile_and_link-Leak}
use cpp_station.Cpu.Step.{run_instructions}
use cpp_station.MainLoop.Closing.{AsksIn}
use cpp_station.MainLoop.Program.{World, constructed, ran, run_main, run_main-run_instructions}
use cpp_station.Outcome.{ok, Ensures}
use cpp_station.Memory.Bios.{File}
use cpp_station.Gpu.Renderer.{new_renderer}
use cpp_station.Gpu.Opengl.Window
use cpp_station.Bus.State.{Bus, new_bus}
use cpp_station.Cpu.State.{new_cpu}
use cpp_station.Cpu.Invariant.MemoryOps.{IsMachine}
use cpp_station.Backtrace.Handler.{System, header, blank, frame, crit_err_hdlr, setup_sig_act}
use cpp_station.Backtrace.Reports.{IsSymbol, texts, crit_err_hdlr-named_frames}
use cpp_station.Backtrace.{Symbol, mangled}
use cpp_station.Ui.Input.{
  Glfw, Event, key_event, mouse_event, handle_all, initial, is_key_down, is_mouse_button_down,
}
use cpp_station.Ui.Input.Latest.{is_key_down-handle_all}

-- The constants of OpenGL, shaders that compile and link, a window of the name 9 that is asked to
-- close after three polls, and the first names that are free at the start.
abbrev driver : Driver
driver = record {
  vertex_shader = 0x8b31;
  fragment_shader = 0x8b30;
  invalid_enum = 0x0500;
  open_file = λ path. some (b'v' ∷ []);
  new_program = λ h. 1;
  new_shader = λ h kind. if kind == 0x8b31 then 2 else 3;
  is_compiled = λ h s. true;
  is_linked = λ h p. true;
  num_uniforms = λ h p. pos 1;
  max_char_length = λ h p. pos 8;
  new_window = λ h width height. some 9;
  window_should_close = λ h w. closes h;
  loads_functions = λ h. true;
  new_vertex_array = λ h. 1;
  new_buffer = λ h. 1;
}
  where
    closes : List Call → Bool
    closes (poll_events ∷ poll_events ∷ poll_events ∷ h) = true
    closes h = false

driver-types : (kind : ShaderType) → (to_gl_shader_type driver kind == 0x0500) ≡ false
driver-types vertex = refl
driver-types fragment = refl

driver-IsFresh :
    (h h' : List Call) (kind : ShaderType)
    → live h ≡ []
    → IsMade driver h kind (live h')
    → IsFresh h' (driver.new_shader h' (to_gl_shader_type driver kind))
driver-IsFresh h h' vertex e e' = record {
  unused = rw (e', e) refl;
  not_none = refl;
  not_zero = refl;
}
driver-IsFresh h h' fragment e e' = record {
  unused = rw (e', e) refl;
  not_none = refl;
  not_zero = refl;
}

driver-IsDriver : (h : List Call) → live h ≡ [] → IsDriver driver h
driver-IsDriver h e = record {
  shader_types = driver-types;
  program-Fresh = record { unused = rw e refl; not_none = refl; not_zero = refl };
  shader-Fresh = λ kind h' e'. driver-IsFresh h h' kind e e';
}

abbrev shader : Shader
shader = record { file_path = []; shader_id = 77; shader_type = vertex }

-- The same, but no shader compiles except that of the name 2, the vertex shader.
abbrev refusing : Driver
refusing = record driver { is_compiled = λ h s. s == 2 }

refusing-IsDriver : (h : List Call) → live h ≡ [] → IsDriver refusing h
refusing-IsDriver h e = record {
  shader_types = (driver-IsDriver h e).shader_types;
  program-Fresh = (driver-IsDriver h e).program-Fresh;
  shader-Fresh = (driver-IsDriver h e).shader-Fresh;
}

compile_and_link-Leak_example :
    Ends fragment_failed 1 2 0 [] (compile_and_link refusing shader (b'a' ∷ []) (b'b' ∷ []) 0 [])
unfolding verdict
compile_and_link-Leak_example =
    compile_and_link-Leak refusing shader (b'a' ∷ []) (b'b' ∷ []) 0 [] (refusing-IsDriver [] refl)

abbrev window : Window
window = record { native_window = some 9; width = 1024; height = 512; should_close = false }

abbrev graphics : Graphics
graphics = record { window = window; basic_shader = 0; vao = 0; vbo = 0; calls = [] }

abbrev glfw : Glfw
glfw = record { key_last = 348; mouse_button_last = 7; press = 1 }

abbrev events : List (Event ℕ)
events = key_event (pos 65) 1 ∷ mouse_event 3 4 ∷ key_event (negsuc 0) 0 ∷ []

is_key_down-handle_all_example :
    let s = handle_all glfw (λ x. x) events (initial 0) in
    (is_key_down glfw (pos 65) s ≡ true) × (is_mouse_button_down glfw (pos 65) s ≡ false)
is_key_down-handle_all_example = is_key_down-handle_all glfw (λ x. x) (pos 65) events 0

abbrev symbol : Symbol
symbol = record {
  file = b'a' ∷ [];
  name = b'f' ∷ b'o' ∷ [];
  offset = b'1' ∷ [];
  address = b'[' ∷ b']' ∷ [];
}

symbol-IsSymbol : IsSymbol symbol
symbol-IsSymbol = record {
  file_open = ground arith;
  name_open = ground arith;
  name_single = ground arith;
  offset_open = ground arith;
  offset_single = ground arith;
  offset_plus = ground arith;
  file_text = ground arith;
  name_text = ground arith;
  offset_text = ground arith;
  address_text = ground arith;
}

abbrev system : System
system = record {
  strsignal = λ signal. b'S' ∷ [];
  backtrace = λ n. 1 ∷ 2 ∷ 3 ∷ [];
  backtrace_symbols = λ array. some (texts (λ a. symbol) array);
  demangle = λ name. none;
  sigaction = λ signal flags. 0;
  sigsegv = 11;
  sa_restart = 0x10000000;
  sa_siginfo = 4;
}

crit_err_hdlr-named_frames_example :
    crit_err_hdlr system (record { sig_num = 11; si_addr = 0; ip = 7 })
    ≡ header 11 (b'S' ∷ []) 0 7
      ∷ blank
      ∷ frame (mangled 1 symbol)
      ∷ frame (mangled 2 symbol)
      ∷ blank
      ∷ []
crit_err_hdlr-named_frames_example =
    crit_err_hdlr-named_frames system (record { sig_num = 11; si_addr = 0; ip = 7 }) (λ a. symbol) 1
      2 (3 ∷ []) (λ a. symbol-IsSymbol) (λ array. refl) refl

abbrev bios_file : File
bios_file = record { size = 524288; bytes = λ _. 0 }

abbrev world : World
world = record {
  system = system;
  driver = driver;
  bios_file = some bios_file;
  errno = 0;
  vertex_file = b'a' ∷ [];
  fragment_file = b'b' ∷ [];
  bios_buffer = λ _. 7;
  local_shader = shader;
  window = record { native_window = some 4; width = 5; height = 6; should_close = true };
  vao = 7;
  vbo = 8;
  vertex = record { pos = record { x = 1; y = 2 }; color = record { r = 255; g = 0; b = 0 } };
}

-- The window after `open_window`, and the graphics after `init`.
abbrev opened : Graphics
opened =
    let w = Window.init driver 1024 512 false (constructed world).window (init_library ∷ []) in
    record (constructed world) {
      window = w.0;
      calls = load_functions ∷ install_main_callbacks w.0 w.1;
    }

abbrev set_up : Graphics
set_up = make_buffers driver (load_program driver shader (b'a' ∷ []) (b'b' ∷ []) opened)

set_up-init : init driver shader (b'a' ∷ []) (b'b' ∷ []) (constructed world) ≡ ok set_up
unfolding init open_window new_graphics
set_up-init = refl

set_up-AsksIn : AsksIn 2 driver set_up.window.native_window set_up.calls
unfolding make_buffers load_program Window.init Window.take_window should_close new_graphics
    Window.new_window
set_up-AsksIn = (refl, (refl, refl))

run_main-run_instructions_example :
    (b : Bus) × (new_bus (some bios_file) 0 (λ _. 7) (new_renderer world.vertex) ≡ ok b)
    × (run_main world 5 1 ≡ ran (run_instructions 1 3000000 (record { cpu = new_cpu; bus = b })))
    × Ensures IsMachine (run_instructions 1 3000000 (record { cpu = new_cpu; bus = b }))
unfolding setup_sig_act
run_main-run_instructions_example =
    run_main-run_instructions world 2 5 1 bios_file set_up refl refl (λ i. omega arith)
      (λ i. omega arith) set_up-init (omega arith) set_up-AsksIn
