-- ===== src/Pipeline.antt =====
-- Software pipelining (src/pipeline.h): the stages of one item run `Bubble + 1` items apart, so that
-- a prefetch has time to land. `M` is `Bubble + 1`; an array on the stack is a function from indices;
-- `Out` is what the last stage writes to. The other stages only compute (and prefetch).
pub mod Ring
pub mod Two
pub mod Three
pub mod Four
pub mod Seven
