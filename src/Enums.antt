-- ===== src/Enums.antt =====
-- src/algo/common/enums.py: the controlled vocabulary of the platform, one data type for each `Enum`.
-- The member OPEN is spelled `opened`. Members are compared by their place in the class.
pub mod Market
pub mod Lifecycle
pub use Market.*
pub use Lifecycle.*
