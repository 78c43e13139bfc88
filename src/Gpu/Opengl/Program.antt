-- ===== src/Gpu/Opengl/Program.antt =====
-- ShaderProgram of gpu/opengl/shaderProgram.cpp. The log of a failed link, which is printed, and the
-- names of the uniforms, which are only looked up, are left out.
use cpp_station.Prelude.{ℕ, zero, suc, Bool, true, false, ◌&&◌, List, ◌∷◌, ◌==◌, ltb, if◌then◌else◌}
use cpp_station.Prelude.Int.{pos_part}
use cpp_station.Gpu.Opengl.Calls.{
  Call, Driver, create_program, delete_program, link_program, use_program, attach_shader,
  detach_shader, get_active_uniform, no_id,
}
use cpp_station.Gpu.Opengl.Shader.{Shader, vertex, fragment, compile}
use cpp_station.Gpu.Opengl.Shader

-- `glGetActiveUniform` for each of the first `n` uniforms.
abbrev pub query_uniforms : ℕ → ℕ → List Call → List Call
query_uniforms program zero calls = calls
query_uniforms program (suc n) calls = get_active_uniform program n ∷ query_uniforms program n calls

-- `numUniforms > 0 && maxCharLength > 0`, and the loop.
unfoldable pub read_uniforms : Driver → ℕ → List Call → List Call
read_uniforms d program calls =
    let n = pos_part (d.num_uniforms calls program) in
    let length = pos_part (d.max_char_length calls program) in
    if ltb 0 n && ltb 0 length then query_uniforms program n calls else calls

-- From the attachment of two compiled shaders on.
unfoldable pub link : Driver → ℕ → Shader → Shader → List Call → Bool × ℕ × List Call
unfolding Shader.destroy read_uniforms
link d program vertex_shader fragment_shader calls =
    let calls1 =
      link_program program
      ∷ attach_shader program fragment_shader.shader_id
      ∷ attach_shader program vertex_shader.shader_id
      ∷ calls in
    let on_failure =
      Shader.destroy fragment_shader
        (Shader.destroy vertex_shader (delete_program program ∷ calls1)).1 in
    let detached =
      detach_shader program fragment_shader.shader_id
      ∷ detach_shader program vertex_shader.shader_id
      ∷ calls1 in
    let on_success = Shader.destroy fragment_shader (Shader.destroy vertex_shader detached).1 in
    if d.is_linked calls1 program
    then (true, program, read_uniforms d program on_success.1)
    else (false, no_id, on_failure.1)

-- The result of the method, the field `mProgramId` and the calls after it. The two local shaders are
-- not initialised: `local` stands for what they hold.
unfoldable pub compile_and_link :
    Driver → Shader → List ℕ → List ℕ → ℕ → List Call → Bool × ℕ × List Call
unfolding compile Shader.destroy link
compile_and_link d local vertex_file fragment_file program_id calls =
    let program = d.new_program calls in
    let v = compile d vertex vertex_file local (create_program program ∷ calls) in
    let f = compile d fragment fragment_file local v.2 in
    if v.0
    then if f.0 then link d program v.1 f.1 f.2 else (false, program_id, (Shader.destroy f.1 f.2).1)
    else (false, program_id, (Shader.destroy v.1 v.2).1)

unfoldable pub destroy : ℕ → List Call → ℕ × List Call
destroy program_id calls =
    if program_id == no_id then (program_id, calls) else (no_id, delete_program program_id ∷ calls)

unfoldable pub bind : ℕ → List Call → List Call
bind program_id calls = use_program program_id ∷ calls

unfoldable pub unbind : List Call → List Call
unbind calls = use_program 0 ∷ calls
