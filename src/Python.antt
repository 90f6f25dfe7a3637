-- ===== src/Python.antt =====
-- What the program takes from Python itself: values read from JSON, exceptions, and methods that
-- change an object and may raise.
pub mod Json
pub mod Effects
