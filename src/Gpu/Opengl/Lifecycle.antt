-- ===== src/Gpu/Opengl/Lifecycle.antt =====
-- The renderer from its initialisation to its end: what OpenGL still holds afterwards.
use cpp_station.Prelude.{ℕ, ◌≡◌, if◌then◌else◌, false, List, ◌∷◌, Bool}
use cpp_station.Gpu.Opengl.Calls.{
  Call, Driver, Handle, live, no_id, init_library, load_functions, viewport, make_context_current,
}
use cpp_station.Gpu.Opengl.Shader.{Shader}
use cpp_station.Gpu.Opengl.Program
use cpp_station.Gpu.Opengl.Window.{Window, install_main_callbacks}
use cpp_station.Gpu.Opengl.Window
use cpp_station.Gpu.Opengl.Setup.{Graphics, init, delete_renderer}
use cpp_station.Gpu.Opengl.Answers.{Verdict, succeeds, leaked, remaining}

-- The calls before those of compileAndLink.
abbrev pub setup_calls : Driver → Graphics → List Call
setup_calls d g =
    let w = Window.init d 1024 512 false g.window (init_library ∷ g.calls) in
    viewport 1024 512
    ∷ make_context_current w.0.native_window
    ∷ load_functions
    ∷ install_main_callbacks w.0 w.1

-- The program that init binds, if the answers are those of the verdict: `p`, or none.
abbrev pub program_after : Verdict → ℕ → ℕ
program_after e p = if succeeds e then p else no_id

-- The id and the calls after the result of compileAndLink and the call of `destroy` on its failure.
abbrev settled : Bool × ℕ × List Call → ℕ × List Call
settled r = if r.0 then (r.1, r.2) else Program.destroy r.1 r.2

IsSettled : Verdict → ℕ → ℕ → List Handle → ℕ × List Call → Type 0
IsSettled e p v l q = (q.0 ≡ program_after e p) × (live q.1 ≡ remaining e p v l)

-- The window is opened: nothing is made, and the shaders are loaded next.
abbrev IsOpened : Driver → Graphics → Graphics → Type 0
IsOpened d g g1 =
    (g1.basic_shader ≡ g.basic_shader)
    × (live g1.calls ≡ live g.calls)
    × ((viewport 1024 512 ∷ make_context_current g1.window.native_window ∷ g1.calls)
        ≡ setup_calls d g)

-- The program that is bound, and what is live after the destructor.
abbrev pub IsReleased : Verdict → ℕ → ℕ → List Handle → Graphics → Type 0
IsReleased e p v before g =
    (g.basic_shader ≡ program_after e p) × (live (delete_renderer g).calls ≡ leaked e p v before)
