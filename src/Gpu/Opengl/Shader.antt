-- ===== src/Gpu/Opengl/Shader.antt =====
-- Shader of gpu/opengl/shader.cpp. The log of a failed compilation, which is printed, is left out.
use cpp_station.Prelude.{ℕ, Bool, true, false, List, ◌∷◌, ◌==◌, if◌then◌else◌}
use cpp_station.Helpers.{read_file}
use cpp_station.Gpu.Opengl.Calls.{
  Call, Driver, create_shader, shader_source, compile_shader, delete_shader, no_id,
}

pub data ShaderType : Type 0 where
  vertex fragment : ShaderType

pub record Shader : Type 0 where
  pub file_path : List ℕ
  pub shader_id : ℕ
  pub shader_type : ShaderType

abbrev pub to_gl_shader_type : Driver → ShaderType → ℕ
to_gl_shader_type d vertex = d.vertex_shader
to_gl_shader_type d fragment = d.fragment_shader

-- The result of the method, the shader and the calls after it.
unfoldable pub compile :
    Driver → ShaderType → List ℕ → Shader → List Call → Bool × Shader × List Call
unfolding read_file
compile d kind path shader calls =
    let s1 = record shader { file_path = path } in
    let source = read_file (d.open_file path) in
    let gl_kind = to_gl_shader_type d kind in
    let id = d.new_shader calls gl_kind in
    let calls' = compile_shader id ∷ shader_source id source ∷ create_shader gl_kind id ∷ calls in
    if gl_kind == d.invalid_enum
    then (false, s1, calls)
    else if d.is_compiled calls' id
    then (true, record s1 { shader_id = id }, calls')
    else (false, record s1 { shader_id = no_id }, delete_shader id ∷ calls')

unfoldable pub destroy : Shader → List Call → Shader × List Call
destroy shader calls =
    if shader.shader_id == no_id
    then (shader, calls)
    else (record shader { shader_id = no_id }, delete_shader shader.shader_id ∷ calls)
