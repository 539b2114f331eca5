-- ===== src/LibCoro.antt =====
-- libcoro.h and libcoro.cpp: the coroutines of one thread, their stacks, and the switch between
-- them. `Objects` has the data, `Stacks` the choice of a stack, `Buffer` the copies that let
-- coroutines share one, `Switch` the operations; the other modules prove properties of these.
pub mod Objects
pub mod Stacks
pub mod Buffer
pub mod Switch
pub mod Layout
pub mod Safety
pub mod Tests
