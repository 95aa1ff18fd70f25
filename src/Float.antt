-- ===== src/Float.antt =====
-- `float` as an interface. The program computes with IEEE 754 single precision numbers, which no
-- file of the repository defines: the type, its arithmetic, its comparisons, the functions of
-- `<cmath>` that the code calls and the casts are a parameter of the model.
mod Defs
mod Whole
pub use Defs.{Float, Casts}
pub use Whole.{whole_float, whole-Casts}
