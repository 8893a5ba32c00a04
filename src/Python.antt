-- ===== src/Python.antt =====
-- What the source uses of Python's standard library beyond the methods of `str`.
pub mod Fnmatch
pub mod Url
pub mod Json
