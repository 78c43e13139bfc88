-- ===== src/Gpu/Opengl/Answers.antt =====
-- How compileAndLink ends, by the answers of OpenGL alone.
use cpp_station.Prelude.{ℕ, Bool, true, false, List, ◌∷◌, if◌then◌else◌}
use cpp_station.Helpers.{read_file}
use cpp_station.Gpu.Opengl.Calls.{
  Call, Driver, Handle, shader_object, no_id, create_program, link_program, attach_shader,
  compile_shader, shader_source, create_shader,
}
use cpp_station.Gpu.Opengl.Shader.{ShaderType, vertex, fragment, to_gl_shader_type}

-- The calls of a compilation up to the question whether it succeeded.
abbrev pub compile_calls : Driver → ShaderType → List ℕ → List Call → List Call
compile_calls d kind path calls =
    let gl_kind = to_gl_shader_type d kind in
    let id = d.new_shader calls gl_kind in
    compile_shader id
    ∷ shader_source id (read_file (d.open_file path))
    ∷ create_shader gl_kind id
    ∷ calls

-- The first of the three answers that is a refusal, if any.
pub data Verdict : Type 0 where
  vertex_failed fragment_failed link_failed accepted : Verdict

unfoldable pub verdict : Driver → List ℕ → List ℕ → List Call → Verdict
verdict d vertex_file fragment_file calls =
    let p = d.new_program calls in
    let made = create_program p ∷ calls in
    let v = d.new_shader made d.vertex_shader in
    let after_v = compile_calls d vertex vertex_file made in
    let f = d.new_shader after_v d.fragment_shader in
    let after_f = compile_calls d fragment fragment_file after_v in
    if d.is_compiled after_v v
    then if d.is_compiled after_f f
      then if d.is_linked (link_program p ∷ attach_shader p f ∷ attach_shader p v ∷ after_f) p
        then accepted
        else link_failed
      else fragment_failed
    else vertex_failed

abbrev pub succeeds : Verdict → Bool
succeeds accepted = true
succeeds vertex_failed = false
succeeds fragment_failed = false
succeeds link_failed = false

-- The field `mProgramId`, which held `before`, for the program `p`.
abbrev pub stored : Verdict → ℕ → ℕ → ℕ
stored accepted p before = p
stored link_failed p before = no_id
stored vertex_failed p before = before
stored fragment_failed p before = before

-- What a refusal leaves of the program `p` and of the vertex shader `v`.
abbrev pub leaked : Verdict → ℕ → ℕ → List Handle → List Handle
leaked accepted p v before = before
leaked link_failed p v before = before
leaked vertex_failed p v before = shader_object p ∷ before
leaked fragment_failed p v before = shader_object v ∷ shader_object p ∷ before

-- What is left with the program itself.
abbrev pub remaining : Verdict → ℕ → ℕ → List Handle → List Handle
remaining accepted p v before = shader_object p ∷ before
remaining link_failed p v before = before
remaining vertex_failed p v before = shader_object p ∷ before
remaining fragment_failed p v before = shader_object v ∷ shader_object p ∷ before
