-- ===== src/Gpu/Opengl/Live.antt =====
-- What each step of compileAndLink, gpu/opengl/shaderProgram.cpp and shader.cpp, does to the handles
-- that OpenGL holds.
use cpp_station.Prelude.{
  ℕ, zero, suc, ◌≡◌, refl, ap, ◌∙◌, true, false, ◌&&◌, List, ◌∷◌, ◌==◌, ltb, Bool-cases, ==_true,
  inl, inr, arith,
}
use cpp_station.Prelude.Int.{pos_part}
use cpp_station.Gpu.Opengl.Calls.{
  Call, Driver, Handle, shader_object, live, remove, no_id, detach_shader, delete_program,
  link_program, attach_shader,
}
use cpp_station.Gpu.Opengl.Shader.{ShaderType, vertex, fragment, Shader, to_gl_shader_type, compile}
use cpp_station.Gpu.Opengl.Shader
use cpp_station.Gpu.Opengl.Answers.{compile_calls}
use cpp_station.Gpu.Opengl.Program.{link, query_uniforms, read_uniforms}

live-query_uniforms : (p n : ℕ) (calls : List Call) → live (query_uniforms p n calls) ≡ live calls
live-query_uniforms p zero calls = refl
live-query_uniforms p (suc n) calls = live-query_uniforms p n calls

live-read_uniforms :
    (d : Driver) (p : ℕ) (calls : List Call) → live (read_uniforms d p calls) ≡ live calls
unfolding read_uniforms
live-read_uniforms d p calls =
    elim (Bool-cases
      (ltb 0 (pos_part (d.num_uniforms calls p)) && ltb 0 (pos_part (d.max_char_length calls p)))) [
        | inl e ↦ rw e (live-query_uniforms p (pos_part (d.num_uniforms calls p)) calls)
        | inr e ↦ rw e refl
      ]

-- A compilation that succeeds leaves its shader, and one that fails nothing.
pub compile-makes :
    (d : Driver) (kind : ShaderType) (path : List ℕ) (shader : Shader) (calls : List Call)
    → (to_gl_shader_type d kind == d.invalid_enum) ≡ false
    → let r = compile d kind path shader calls in
      let s = d.new_shader calls (to_gl_shader_type d kind) in
      let asked = compile_calls d kind path calls in
      d.is_compiled asked s ≡ true → (r.0 ≡ true) × (r.1.shader_id ≡ s) × (r.2 ≡ asked)
unfolding compile
compile-makes d kind path shader calls h e = rw (h, e) (refl, refl, refl)

pub compile-fails :
    (d : Driver) (kind : ShaderType) (path : List ℕ) (shader : Shader) (calls : List Call)
    → (to_gl_shader_type d kind == d.invalid_enum) ≡ false
    → let r = compile d kind path shader calls in
      let s = d.new_shader calls (to_gl_shader_type d kind) in
      d.is_compiled (compile_calls d kind path calls) s ≡ false
      → (r.0 ≡ false) × (r.1.shader_id ≡ no_id) × (live r.2 ≡ live calls)
unfolding compile
compile-fails d kind path shader calls h e =
    let s = d.new_shader calls (to_gl_shader_type d kind) in
    rw (h, e) (refl, refl, rw (==_true s s refl) refl)

live-destroy :
    (s : Shader) (calls : List Call)
    → (s.shader_id == no_id) ≡ false
    → live (Shader.destroy s calls).1 ≡ remove (shader_object s.shader_id) (live calls)
unfolding Shader.destroy
live-destroy s calls h = rw h refl

-- The three names in use after two compilations, the latest first.
pub record AreDistinct (p v f : ℕ) : Type 0 where
  pub vertex-program : (v == p) ≡ false
  pub fragment-program : (f == p) ≡ false
  pub fragment-vertex : (f == v) ≡ false
  pub vertex-id : (v == no_id) ≡ false
  pub fragment-id : (f == no_id) ≡ false

==_comm_false : (a b : ℕ) → (a == b) ≡ false → (b == a) ≡ false
==_comm_false a b h = ground (arith, h)

pub remove_here : (a : ℕ) (l : List Handle) → remove (shader_object a) (shader_object a ∷ l) ≡ l
remove_here a l = rw (==_true a a refl) refl

remove_there :
    (a b : ℕ) (l : List Handle)
    → (a == b) ≡ false
    → remove (shader_object a) (shader_object b ∷ l) ≡ shader_object b ∷ remove (shader_object a) l
remove_there a b l h = rw h refl

-- The two shaders are destroyed, the vertex shader first.
live-destroy_both :
    (p : ℕ) (v f : Shader) (calls : List Call) (l : List Handle)
    → AreDistinct p v.shader_id f.shader_id
    → live calls ≡ shader_object f.shader_id ∷ shader_object v.shader_id ∷ l
    → live (Shader.destroy f (Shader.destroy v calls).1).1 ≡ l
live-destroy_both p v f calls l a e =
    live-destroy f (Shader.destroy v calls).1 a.fragment-id
    ∙ ap (remove (shader_object f.shader_id))
        (live-destroy v calls a.vertex-id ∙ ap (remove (shader_object v.shader_id)) e)
    ∙ ap (remove (shader_object f.shader_id)) (
        remove_there v.shader_id f.shader_id (shader_object v.shader_id ∷ l)
          (==_comm_false f.shader_id v.shader_id a.fragment-vertex)
        ∙ ap (◌∷◌ (shader_object f.shader_id)) (remove_here v.shader_id l))
    ∙ remove_here f.shader_id l

abbrev pub link_calls : ℕ → Shader → Shader → List Call → List Call
link_calls p v f calls =
    link_program p ∷ attach_shader p f.shader_id ∷ attach_shader p v.shader_id ∷ calls

pub live-linked :
    (d : Driver) (p : ℕ) (v f : Shader) (calls : List Call) (l : List Handle)
    → AreDistinct p v.shader_id f.shader_id
    → live calls ≡ shader_object f.shader_id ∷ shader_object v.shader_id ∷ shader_object p ∷ l
    → d.is_linked (link_calls p v f calls) p ≡ true
    → let r = link d p v f calls in (r.0 ≡ true) × (r.1 ≡ p) × (live r.2 ≡ shader_object p ∷ l)
unfolding link
live-linked d p v f calls l a e t =
    let detached =
      detach_shader p f.shader_id ∷ detach_shader p v.shader_id ∷ link_calls p v f calls in
    rw t (
      refl,
      refl,
      live-read_uniforms d p (Shader.destroy f (Shader.destroy v detached).1).1
          ∙ live-destroy_both p v f detached (shader_object p ∷ l) a e,
    )

pub live-not_linked :
    (d : Driver) (p : ℕ) (v f : Shader) (calls : List Call) (l : List Handle)
    → AreDistinct p v.shader_id f.shader_id
    → live calls ≡ shader_object f.shader_id ∷ shader_object v.shader_id ∷ shader_object p ∷ l
    → d.is_linked (link_calls p v f calls) p ≡ false
    → let r = link d p v f calls in (r.0 ≡ false) × (r.1 ≡ no_id) × (live r.2 ≡ l)
unfolding link
live-not_linked d p v f calls l a e t = rw t (
  refl,
  refl,
  live-destroy_both p v f (delete_program p ∷ link_calls p v f calls) l a (
      ap (remove (shader_object p)) e
      ∙ remove_there p f.shader_id (shader_object v.shader_id ∷ shader_object p ∷ l)
          (==_comm_false f.shader_id p a.fragment-program)
      ∙ ap (◌∷◌ (shader_object f.shader_id)) (
          remove_there p v.shader_id (shader_object p ∷ l)
            (==_comm_false v.shader_id p a.vertex-program)
          ∙ ap (◌∷◌ (shader_object v.shader_id)) (remove_here p l))),
)

pub live-destroy_none :
    (s : Shader) (calls : List Call) → s.shader_id ≡ no_id → (Shader.destroy s calls).1 ≡ calls
unfolding Shader.destroy
live-destroy_none s calls h = rw h refl
