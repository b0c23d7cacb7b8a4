-- ===== src/Protocol/Models.antt =====
-- The dataclasses of src/fp/protocol/models.py. Each has a constructor `make` with the checks of
-- its `__post_init__`. A `datetime` is a number of ticks of the clock; a float amount is a number
-- of the smallest unit with its sign (`ℤ`).
pub mod Signed
pub mod Entities
pub mod Organizations
pub mod Sessions
pub mod Activities
pub mod Events
pub mod Economy
