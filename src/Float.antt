-- ===== src/Float.antt =====
-- What the program does with `float64` and `float32` values, as an interface: the operations of the
-- language and of Go's `math` package that the code calls, and no law. A theorem that needs a law of
-- them takes it as a named hypothesis. `Float.Fixed` is one way to compute with it.
pub mod Fixed
pub mod Ops
pub use Ops.{Float, half, constant, is_zero}
