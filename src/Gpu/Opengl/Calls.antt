-- ===== src/Gpu/Opengl/Calls.antt =====
-- The calls of OpenGL and GLFW in gpu/opengl/, and what the libraries answer. The libraries are a
-- parameter: a `Driver`, whose answers may depend on all the calls before.
use cpp_station.Prelude.{ℕ, Bool, List, [], ◌∷◌, Option, ◌==◌, ◌-◌, ◌^◌, false, if◌then◌else◌}
use cpp_station.Prelude.Int.{ℤ}

-- A call, with its handles and the arguments that matter; one that makes a handle carries it.
pub data Call : Type 0 where
  create_program delete_program link_program use_program : ℕ → Call
  create_shader : ℕ → ℕ → Call
  shader_source : ℕ → List ℕ → Call
  compile_shader delete_shader : ℕ → Call
  attach_shader detach_shader get_active_uniform : ℕ → ℕ → Call
  init_library terminate_library poll_events : Call
  window_hints get_primary_monitor : Call
  create_window : Option ℕ → ℕ → ℕ → Call
  make_context_current : Option ℕ → Call
  destroy_window set_user_pointer set_key_callback set_cursor_callback : ℕ → Call
  set_button_callback set_size_callback set_should_close swap_buffers : ℕ → Call
  load_functions : Call
  viewport : ℕ → ℕ → Call
  gen_vertex_array bind_vertex_array delete_vertex_array : ℕ → Call
  gen_buffer bind_buffer delete_buffer buffer_data : ℕ → Call
  enable_attribute disable_attribute : ℕ → Call
  attribute_pointer : ℕ → ℕ → ℕ → ℕ → Call

-- The constants of OpenGL, the files, and the answers after the given calls, latest first.
pub record Driver : Type 0 where
  pub vertex_shader : ℕ
  pub fragment_shader : ℕ
  pub invalid_enum : ℕ
  pub open_file : List ℕ → Option (List ℕ)
  pub new_program : List Call → ℕ
  pub new_shader : List Call → ℕ → ℕ
  pub is_compiled : List Call → ℕ → Bool
  pub is_linked : List Call → ℕ → Bool
  pub num_uniforms : List Call → ℕ → ℤ
  pub max_char_length : List Call → ℕ → ℤ
  pub new_window : List Call → ℕ → ℕ → Option ℕ
  pub window_should_close : List Call → ℕ → Bool
  pub loads_functions : List Call → Bool
  pub new_vertex_array : List Call → ℕ
  pub new_buffer : List Call → ℕ

-- `UINT32_MAX`, the id of no shader and no program.
abbrev pub no_id : ℕ
no_id = 2 ^ 32 - 1

-- What OpenGL holds: shaders and programs, which share their names, vertex arrays and buffers.
pub data Handle : Type 0 where
  shader_object vertex_array buffer : ℕ → Handle

abbrev pub same_handle : Handle → Handle → Bool
same_handle (shader_object a) (shader_object b) = a == b
same_handle (vertex_array a) (vertex_array b) = a == b
same_handle (buffer a) (buffer b) = a == b
same_handle a b = false

abbrev pub remove : Handle → List Handle → List Handle
remove a [] = []
remove a (b ∷ l) = let rest = remove a l in if same_handle a b then l else b ∷ rest

-- The handles that were made and not yet deleted, by the calls alone, latest first.
abbrev pub live : List Call → List Handle
live [] = []
live (create_program p ∷ h) = shader_object p ∷ live h
live (delete_program p ∷ h) = remove (shader_object p) (live h)
live (create_shader kind s ∷ h) = shader_object s ∷ live h
live (delete_shader s ∷ h) = remove (shader_object s) (live h)
live (gen_vertex_array a ∷ h) = vertex_array a ∷ live h
live (delete_vertex_array a ∷ h) = remove (vertex_array a) (live h)
live (gen_buffer b ∷ h) = buffer b ∷ live h
live (delete_buffer b ∷ h) = remove (buffer b) (live h)
live (e ∷ h) = live h
