-- ===== src/Examples.antt =====
-- Every theorem on the program at a concrete input, and a few runs of the definitions.
mod Arithmetic
mod Pipelines
mod Files
mod Filter
mod Output
mod Tables
mod Placing
mod Pieces
mod Driving
mod Whole
