-- ===== src/Float.antt =====
-- What graph/function.rs does with an `f64`: the literals 0.0, 1.0 and 1e-9, negation,
-- multiplication and `<=`, as an interface; `<`, `max`, `min`, `clamp` and `is_nan` of the standard
-- library are written out over it. The laws are facts of IEEE 754 doubles under the default
-- rounding; signed zeros, infinities and NaN obey them. `Fixed` is a type that satisfies them.
mod Defs
pub mod Laws
pub mod Fixed
pub use Defs.*
