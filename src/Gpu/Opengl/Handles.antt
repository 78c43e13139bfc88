-- ===== src/Gpu/Opengl/Handles.antt =====
-- compileAndLink, gpu/opengl/shaderProgram.cpp, by its verdict: which shaders and programs are left.
use cpp_station.Prelude.{
  ℕ, ◌≡◌, refl, sym, ap, ◌∙◌, Bool, true, false, ◌||◌, List, [], ◌∷◌, ◌==◌, if◌then◌else◌,
  Bool-cases, inl, inr, arith,
}
use cpp_station.Gpu.Opengl.Calls.{
  Call, Driver, Handle, shader_object, live, same_handle, no_id, create_program, link_program,
  attach_shader,
}
use cpp_station.Gpu.Opengl.Shader.{ShaderType, vertex, fragment, Shader, to_gl_shader_type, compile}
use cpp_station.Gpu.Opengl.Shader
use cpp_station.Gpu.Opengl.Live.{
  compile-makes, compile-fails, AreDistinct, live-linked, live-not_linked, live-destroy_none,
}
use cpp_station.Gpu.Opengl.Answers.{
  compile_calls, Verdict, accepted, link_failed, fragment_failed, vertex_failed, verdict, succeeds,
  stored, remaining,
}
use cpp_station.Gpu.Opengl.Program.{link, compile_and_link}

abbrev pub holds : List Handle → Handle → Bool
holds [] a = false
holds (b ∷ l) a = same_handle a b || holds l a

pub record IsFresh (h : List Call) (name : ℕ) : Type 0 where
  pub unused : holds (live h) (shader_object name) ≡ false
  pub not_none : (name == no_id) ≡ false
  pub not_zero : (0 == name) ≡ false

-- What OpenGL holds when a shader is made for a program that is made after `calls`.
abbrev pub IsMade : Driver → List Call → ShaderType → List Handle → Type 0
IsMade d calls vertex l = l ≡ shader_object (d.new_program calls) ∷ live calls
IsMade d calls fragment l =
    let p = d.new_program calls in
    l
    ≡ shader_object (d.new_shader (create_program p ∷ calls) d.vertex_shader)
      ∷ shader_object p
      ∷ live calls

-- The types of shaders are no error code, and the three names that OpenGL gives after `calls` are
-- none of those in use, nor 0 or `UINT32_MAX`.
pub record IsDriver (d : Driver) (calls : List Call) : Type 0 where
  pub shader_types : (kind : ShaderType) → (to_gl_shader_type d kind == d.invalid_enum) ≡ false
  pub program-Fresh : IsFresh calls (d.new_program calls)
  pub shader-Fresh :
      (kind : ShaderType) (h : List Call)
      → IsMade d calls kind (live h)
      → IsFresh h (d.new_shader h (to_gl_shader_type d kind))

pub ||_false : (x y : Bool) → (x || y) ≡ false → (x ≡ false) × (y ≡ false)
||_false true y e = (e, ground (arith, e))
||_false false y e = (refl, e)

-- The shaders of two compilations, the second after the first.
compiled-AreDistinct :
    (d : Driver) (v f : ℕ) (calls calls' : List Call)
    → IsDriver d calls
    → let p = d.new_program calls in
      let made = create_program p ∷ calls in
      v ≡ d.new_shader made d.vertex_shader
      → live calls' ≡ shader_object v ∷ live made
      → f ≡ d.new_shader calls' d.fragment_shader
      → AreDistinct p v f
compiled-AreDistinct d v f calls calls' h i e i' =
    let p = d.new_program calls in
    let made = create_program p ∷ calls in
    let a = h.shader-Fresh vertex made refl in
    let b = h.shader-Fresh fragment calls' (e ∙ ap (λ x. shader_object x ∷ live made) i) in
    let c =
      ap (λ x. holds x (shader_object f)) (sym e)
      ∙ ap (λ x. holds (live calls') (shader_object x)) i'
      ∙ b.unused in
    let c' = ||_false (f == v) (holds (live made) (shader_object f)) c in
    record {
      vertex-program =
          (||_false (v == p) (holds (live calls) (shader_object v))
            (ap (λ x. holds (live made) (shader_object x)) i ∙ a.unused)).0;
      fragment-program = (||_false (f == p) (holds (live calls) (shader_object f)) c'.1).0;
      fragment-vertex = c'.0;
      vertex-id = rw i a.not_none;
      fragment-id = rw i' b.not_none;
    }

-- The result, the stored name and what is live after a verdict.
abbrev pub Ends : Verdict → ℕ → ℕ → ℕ → List Handle → Bool × ℕ × List Call → Type 0
Ends e p v program_id before r =
    (r.0 ≡ succeeds e) × (r.1 ≡ stored e p program_id) × (live r.2 ≡ remaining e p v before)

-- The two shaders are compiled, with the names `v_id` and `f_id`.
link-Ends :
    (d : Driver) (p v_id f_id program_id : ℕ) (v f : Shader) (calls asked : List Call)
    (l : List Handle)
    → v.shader_id ≡ v_id
    → f.shader_id ≡ f_id
    → calls ≡ asked
    → AreDistinct p v_id f_id
    → live asked ≡ shader_object f_id ∷ shader_object v_id ∷ shader_object p ∷ l
    → Ends
        (if d.is_linked (link_program p ∷ attach_shader p f_id ∷ attach_shader p v_id ∷ asked) p
          then accepted
          else link_failed)
        p
        v_id
        program_id
        l
        (link d p v f calls)
link-Ends d p v_id f_id program_id v f calls asked l i i' c distinct all =
    let distinct' : AreDistinct p v.shader_id f.shader_id = rw (i, i') distinct in
    let all' : live calls
        ≡ shader_object f.shader_id ∷ shader_object v.shader_id ∷ shader_object p ∷ l =
      rw (c, i, i') all in
    let asked_link = link_program p ∷ attach_shader p f_id ∷ attach_shader p v_id ∷ asked in
    elim (Bool-cases (d.is_linked asked_link p)) [
      | inr e ↦ rw e (live-not_linked d p v f calls l distinct' all' (rw (c, i, i') e))
      | inl e ↦ rw e (live-linked d p v f calls l distinct' all' (rw (c, i, i') e))
    ]

-- The verdict and the run with both shaders compiled, and with the vertex shader alone.
compiled-run :
    (d : Driver) (local : Shader) (vertex_file fragment_file : List ℕ) (program_id : ℕ)
    (calls : List Call)
    → IsDriver d calls
    → let p = d.new_program calls in
      let made = create_program p ∷ calls in
      let v = d.new_shader made d.vertex_shader in
      let after_v = compile_calls d vertex vertex_file made in
      let f = d.new_shader after_v d.fragment_shader in
      let after_f = compile_calls d fragment fragment_file after_v in
      let cv = compile d vertex vertex_file local made in
      let cf = compile d fragment fragment_file local after_v in
      d.is_compiled after_v v ≡ true
      → d.is_compiled after_f f ≡ true
      → (verdict d vertex_file fragment_file calls ≡ (
          if d.is_linked (link_program p ∷ attach_shader p f ∷ attach_shader p v ∷ after_f) p
          then accepted
          else link_failed))
        × (compile_and_link d local vertex_file fragment_file program_id calls
            ≡ link d p cv.1 cf.1 cf.2)
unfolding verdict compile_and_link
compiled-run d local vertex_file fragment_file program_id calls h e e' =
    let p = d.new_program calls in
    let made = create_program p ∷ calls in
    let after_v = compile_calls d vertex vertex_file made in
    let (compiled, i, c) =
      compile-makes d vertex vertex_file local made (h.shader_types vertex) e in
    let (compiled', i', c') =
      compile-makes d fragment fragment_file local after_v (h.shader_types fragment) e' in
    (rw (e, e') refl, rw (compiled, c, compiled') refl)

fragment_failed-run :
    (d : Driver) (local : Shader) (vertex_file fragment_file : List ℕ) (program_id : ℕ)
    (calls : List Call)
    → IsDriver d calls
    → let p = d.new_program calls in
      let made = create_program p ∷ calls in
      let v = d.new_shader made d.vertex_shader in
      let after_v = compile_calls d vertex vertex_file made in
      let f = d.new_shader after_v d.fragment_shader in
      let after_f = compile_calls d fragment fragment_file after_v in
      let cv = compile d vertex vertex_file local made in
      let cf = compile d fragment fragment_file local after_v in
      d.is_compiled after_v v ≡ true
      → d.is_compiled after_f f ≡ false
      → (verdict d vertex_file fragment_file calls ≡ fragment_failed)
        × (compile_and_link d local vertex_file fragment_file program_id calls
            ≡ (false, program_id, (Shader.destroy cf.1 cf.2).1))
unfolding verdict compile_and_link
fragment_failed-run d local vertex_file fragment_file program_id calls h e e' =
    let p = d.new_program calls in
    let made = create_program p ∷ calls in
    let after_v = compile_calls d vertex vertex_file made in
    let (compiled, i, c) =
      compile-makes d vertex vertex_file local made (h.shader_types vertex) e in
    let (failed, i', l) =
      compile-fails d fragment fragment_file local after_v (h.shader_types fragment) e' in
    (rw (e, e') refl, rw (compiled, c, failed) refl)

vertex_failed-run :
    (d : Driver) (local : Shader) (vertex_file fragment_file : List ℕ) (program_id : ℕ)
    (calls : List Call)
    → IsDriver d calls
    → let p = d.new_program calls in
      let made = create_program p ∷ calls in
      let v = d.new_shader made d.vertex_shader in
      let after_v = compile_calls d vertex vertex_file made in
      let cv = compile d vertex vertex_file local made in
      d.is_compiled after_v v ≡ false
      → (verdict d vertex_file fragment_file calls ≡ vertex_failed)
        × (compile_and_link d local vertex_file fragment_file program_id calls
            ≡ (false, program_id, (Shader.destroy cv.1 cv.2).1))
unfolding verdict compile_and_link
vertex_failed-run d local vertex_file fragment_file program_id calls h e =
    let p = d.new_program calls in
    let made = create_program p ∷ calls in
    let (failed, i, l) = compile-fails d vertex vertex_file local made (h.shader_types vertex) e in
    (rw e refl, rw failed refl)

-- compileAndLink, all branches, by the first of its three questions, whether the vertex shader
-- and then the fragment shader compile and whether the program links, that OpenGL answers with
-- no, where OpenGL gives the shaders and the program names that are not in use, nor 0 or
-- UINT32_MAX. If there is none it returns true, stores the name of the program and leaves the
-- program alone. If the link fails it returns false, stores UINT32_MAX and leaves nothing. If the
-- vertex shader fails it returns false, stores nothing and leaves the program, and if the
-- fragment shader fails it does so too but leaves the vertex shader as well.
pub compile_and_link-Leak :
    (d : Driver) (local : Shader) (vertex_file fragment_file : List ℕ) (program_id : ℕ)
    (calls : List Call)
    → IsDriver d calls
    → let p = d.new_program calls in
      let v = d.new_shader (create_program p ∷ calls) d.vertex_shader in
      Ends
        (verdict d vertex_file fragment_file calls)
        p
        v
        program_id
        (live calls)
        (compile_and_link d local vertex_file fragment_file program_id calls)
compile_and_link-Leak d local vertex_file fragment_file program_id calls h =
    let p = d.new_program calls in
    let made = create_program p ∷ calls in
    let v = d.new_shader made d.vertex_shader in
    let after_v = compile_calls d vertex vertex_file made in
    let f = d.new_shader after_v d.fragment_shader in
    let after_f = compile_calls d fragment fragment_file after_v in
    let cv = compile d vertex vertex_file local made in
    let cf = compile d fragment fragment_file local after_v in
    elim (Bool-cases (d.is_compiled after_v v)) [
      | inr e ↦
          let (failed, i, l) =
            compile-fails d vertex vertex_file local made (h.shader_types vertex) e in
          let (a, r) = vertex_failed-run d local vertex_file fragment_file program_id calls h e in
          rw (a, r) (refl, refl, ap live (live-destroy_none cv.1 cv.2 i) ∙ l)
      | inl e ↦ elim (Bool-cases (d.is_compiled after_f f)) [
        | inr e' ↦
            let (failed, i, l) =
              compile-fails d fragment fragment_file local after_v (h.shader_types fragment) e' in
            let (a, r) =
              fragment_failed-run d local vertex_file fragment_file program_id calls h e e' in
            rw (a, r) (refl, refl, ap live (live-destroy_none cf.1 cf.2 i) ∙ l)
        | inl e' ↦
            let (compiled, i, c) =
              compile-makes d vertex vertex_file local made (h.shader_types vertex) e in
            let (compiled', i', c') =
              compile-makes d fragment fragment_file local after_v (h.shader_types fragment) e' in
            let (a, r) = compiled-run d local vertex_file fragment_file program_id calls h e e' in
            let distinct = compiled-AreDistinct d v f calls after_v h refl refl refl in
            rw (a, r)
              (link-Ends d p v f program_id cv.1 cf.1 cf.2 after_f (live calls) i i' c' distinct
                refl)
      ]
    ]
