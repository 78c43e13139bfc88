-- ===== src/Gpu/Opengl/Setup.antt =====
-- The constructor's `init` and the destructor of Renderer, gpu/opengl/renderer.cpp, and its static
-- shader program.
use cpp_station.Prelude.{ℕ, ◌+◌, ◌*◌, false, List, [], ◌∷◌, if◌then◌else◌}
use cpp_station.Outcome.{Outcome, ok, panic, glad_not_loaded, ◌>>=◌}
use cpp_station.Gpu.Renderer.{vertex_buffer_len}
use cpp_station.Gpu.Opengl.Calls.{
  Call, Driver, init_library, terminate_library, load_functions, make_context_current, viewport,
  gen_vertex_array, bind_vertex_array, delete_vertex_array, gen_buffer, bind_buffer, delete_buffer,
  buffer_data, enable_attribute, disable_attribute, attribute_pointer,
}
use cpp_station.Gpu.Opengl.Shader.{Shader}
use cpp_station.Gpu.Opengl.Program
use cpp_station.Gpu.Opengl.Window.{Window, new_window, install_main_callbacks, delete_window}
use cpp_station.Gpu.Opengl.Window

abbrev pub window_width : ℕ
window_width = 1024

abbrev pub window_height : ℕ
window_height = 512

-- `sizeof(Vertex)`: two `int16_t` and three floats of 4 bytes.
abbrev pub vertex_size : ℕ
vertex_size = 2 * 2 + 3 * 4

-- What `init` sets up, `basic_shader` for the id of the static program, and the calls so far.
pub record Graphics : Type 0 where
  pub window : Window
  pub basic_shader : ℕ
  pub vao : ℕ
  pub vbo : ℕ
  pub calls : List Call

-- Before `init`: the constructors of the renderer and of its window, in memory that held `garbage`, a
-- vertex array and a buffer, and the static program, whose storage is zeroes.
unfoldable pub new_graphics : Window → ℕ → ℕ → Graphics
unfolding new_window
new_graphics garbage vao vbo = record {
  window = new_window garbage;
  basic_shader = 0;
  vao = vao;
  vbo = vbo;
  calls = [];
}

-- The window and the functions of OpenGL: `init` up to `gladLoadGLLoader`.
unfoldable pub open_window : Driver → Graphics → Outcome Graphics
unfolding Window.init install_main_callbacks
open_window d g =
    let w = Window.init d window_width window_height false g.window (init_library ∷ g.calls) in
    let calls1 = load_functions ∷ install_main_callbacks w.0 w.1 in
    if d.loads_functions calls1
    then ok (record g { window = w.0; calls = calls1 })
    else panic glad_not_loaded

-- The program: the files and the uninitialised shaders are arguments of `compileAndLink`.
unfoldable pub load_program : Driver → Shader → List ℕ → List ℕ → Graphics → Graphics
unfolding Program.compile_and_link Program.destroy Program.bind
load_program d local vertex_file fragment_file g =
    let calls1 =
      viewport window_width window_height ∷ make_context_current g.window.native_window ∷ g.calls in
    let p = Program.compile_and_link d local vertex_file fragment_file g.basic_shader calls1 in
    let q = if p.0 then (p.1, p.2) else Program.destroy p.1 p.2 in
    record g { basic_shader = q.0; calls = Program.bind q.0 q.1 }

-- The vertex array, the buffer and the two attributes: the position as two shorts at 0, the colour as
-- three floats at 4.
unfoldable pub make_buffers : Driver → Graphics → Graphics
make_buffers d g =
    let vao = d.new_vertex_array g.calls in
    let calls1 = bind_vertex_array vao ∷ gen_vertex_array vao ∷ g.calls in
    let vbo = d.new_buffer calls1 in
    record g {
      vao = vao;
      vbo = vbo;
      calls =
          attribute_pointer 1 3 vertex_size 4
          ∷ enable_attribute 1
          ∷ attribute_pointer 0 2 vertex_size 0
          ∷ enable_attribute 0
          ∷ buffer_data (vertex_size * vertex_buffer_len)
          ∷ bind_buffer vbo
          ∷ gen_buffer vbo
          ∷ calls1;
    }

unfoldable pub init : Driver → Shader → List ℕ → List ℕ → Graphics → Outcome Graphics
unfolding open_window load_program make_buffers
init d local vertex_file fragment_file g = open_window d g >>= λ g1.
    ok (make_buffers d (load_program d local vertex_file fragment_file g1))

-- What the destructor does after it has destroyed the program.
abbrev pub release : Graphics → List Call → List Call
release g calls =
    terminate_library
    ∷ delete_vertex_array g.vao
    ∷ delete_buffer g.vbo
    ∷ disable_attribute 1
    ∷ disable_attribute 0
    ∷ calls

-- The destructor, with that of the window after it.
unfoldable pub delete_renderer : Graphics → Graphics
unfolding Program.destroy delete_window
delete_renderer g =
    let p = Program.destroy g.basic_shader g.calls in
    record g { basic_shader = p.0; calls = delete_window g.window (release g p.1) }
