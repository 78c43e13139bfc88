-- ===== src/Gpu.antt =====
-- The graphics processor: gpu/gpu.hpp, gpu/gpu.cpp and the vertex queue of gpu/opengl/renderer.cpp.
pub mod Renderer
pub mod State
pub mod Status
pub mod Gp0
pub mod Registers
pub mod Gp1
pub mod Opengl
