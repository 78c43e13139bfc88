-- ===== src/Gpu/Opengl.antt =====
-- The set-up of the graphics: gpu/opengl/shader.cpp, shaderProgram.cpp, window.cpp, and init and the
-- destructor of renderer.cpp. The state includes the calls of OpenGL and GLFW so far.
pub mod Calls
pub mod Shader
pub mod Program
pub mod Window
pub mod Setup
pub mod Answers
pub mod Live
pub mod Handles
pub mod Lifecycle
